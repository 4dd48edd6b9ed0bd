-- ===== src/Gateway/Tests.antt =====
-- Runs of the gateway's models, and each of their theorems at an input.
use Prim.Native.String.{String}
use hypersync.Prelude.{
  ℕ, ◌+◌, ◌-◌, ◌≡◌, ◌≤◌, ◌<◌, ◌⊎◌, refl, Bool, true, false, none, some, List, [], ◌∷◌, length,
  arith,
}
use hypersync.Protocol.Cluster.{insert_sorted, sort}
use hypersync.Gateway.Prefetch.{client_block_range, client_block_range_request, next_prefetch_range}
use hypersync.Gateway.Prefetch.Requests.{client_block_range-client_block_range_request}
use hypersync.Gateway.Node
use hypersync.Gateway.Node.{ActivePeer, NodeState, pin_active, clear_active_if_current, claim_every}
use hypersync.Gateway.Node.Pins.{Op, pin_lazy, snapshot, steps, stale_clear_lem}
use hypersync.Gateway.Node.Claims.{claim_all, Spaced, claim_all-Spaced}
use hypersync.Gateway.Catchup.{
  Sample, ClientBlockRun, median, drop_old, drop_excess, extend_run, start_run,
  mark_client_blocks_response, last_behind, in_window, distances, widths, lowest, highest,
  is_closing, is_still, client_blocks_stalled, catchup_max_samples, catchup_run_gap,
  catchup_progress_rounds,
}
use hypersync.Gateway.Catchup.Capped.{mark_client_blocks_response-Capped}
use hypersync.Gateway.Catchup.Still.{first, later, client_blocks_stalled-Near}
use hypersync.Gateway.Registry.{
  Entry, select, evict_entries, insert_by_age, sort_by_age, addresses, node_state_evict_keys,
}
use hypersync.Gateway.Registry.Room.{AllIdle, evict_entries-idle}

run : Unit {0}
unfolding insert_sorted sort client_block_range client_block_range_request next_prefetch_range
    Node.new pin_active clear_active_if_current claim_every median drop_old drop_excess extend_run
    start_run mark_client_blocks_response last_behind in_window distances widths lowest highest
    is_closing is_still client_blocks_stalled select evict_entries insert_by_age sort_by_age
    addresses node_state_evict_keys
run = tt

client_block_range-client_block_range_request_example :
    client_block_range (client_block_range_request 700_000_000 700_000_099)
    ≡ some (700_000_000, 700_000_099)
client_block_range-client_block_range_request_example =
    client_block_range-client_block_range_request 700_000_000 700_000_099 (omega arith)
      (omega arith)

next : next_prefetch_range 1_000 1_099 1_500 ≡ some (1_100, 1_199)
unfolding run
next = refl

too_near_the_tip : next_prefetch_range 1_000 1_099 1_498 ≡ none
unfolding run
too_near_the_tip = refl

abbrev fresh_node : NodeState
fresh_node = record (Node.new 7 100) { next_active_epoch = 3 }

abbrev old_pin : ActivePeer
old_pin = record { ip = "203.0.113.1"; epoch = 3 }

abbrev listed : String → Bool
listed ip = false

abbrev operations : List Op
operations = pin_lazy "203.0.113.3" ∷ snapshot ∷ []

stale_clear_lem_example :
    clear_active_if_current old_pin
      (steps listed operations (pin_active "203.0.113.2" fresh_node).0)
    ≡ steps listed operations (pin_active "203.0.113.2" fresh_node).0
stale_clear_lem_example =
    stale_clear_lem listed old_pin "203.0.113.2" operations fresh_node (omega arith)

abbrev attempts : List ℕ
attempts = 95 ∷ 61 ∷ 60 ∷ 20 ∷ 10 ∷ []

claims : (claim_all 40 attempts).1 ≡ 60 ∷ 10 ∷ []
unfolding run
claims = refl

claim_all-Spaced_example : Spaced 40 (claim_all 40 attempts).1
claim_all-Spaced_example = claim_all-Spaced 40 attempts

abbrev sample : ℕ → ℕ → Sample
sample at behind = record { at = at; behind = some behind; width = 30 }

abbrev loop : ClientBlockRun
loop = record {
  since = 1_000;
  last = 4_000;
  samples = sample 1_000 2_000 ∷ sample 2_500 2_010 ∷ sample 4_000 1_990 ∷ [];
}

still : client_blocks_stalled 5_000 2_000 3_000 (some loop) ≡ some (true, some 1_990)
unfolding run
still = refl

client_blocks_stalled-Near_example :
    (5_000 - loop.last < 2_000)
    × (loop.since + 3_000 ≤ 5_000)
    × (c : ℕ) × (d : ℕ) × ((sample 2_500 2_010).behind ≡ some c)
    × ((sample 4_000 1_990).behind ≡ some d)
    × (c < d + catchup_progress_rounds)
    × (d < c + catchup_progress_rounds)
client_blocks_stalled-Near_example =
    client_blocks_stalled-Near 5_000 2_000 3_000 loop (some 1_990) (sample 2_500 2_010)
      (sample 4_000 1_990) still
      (later (sample 1_000 2_000) (sample 2_500 2_010 ∷ sample 4_000 1_990 ∷ [])
        (first (sample 4_000 1_990 ∷ [])))
      (later (sample 1_000 2_000) (sample 2_500 2_010 ∷ sample 4_000 1_990 ∷ [])
        (later (sample 2_500 2_010) (sample 4_000 1_990 ∷ []) (first [])))
      (omega arith) (omega arith)

mark_client_blocks_response-Capped_example :
    (length (mark_client_blocks_response 5_000 (some 1_985) 25 (some loop)).samples
      ≤ catchup_max_samples)
    × ((mark_client_blocks_response 5_000 (some 1_985) 25 (some loop)).last ≡ 5_000)
    × (((mark_client_blocks_response 5_000 (some 1_985) 25 (some loop)).since ≡ 5_000)
        ⊎ ((5_000 - loop.last < catchup_run_gap)
            × (loop.since ≤ (mark_client_blocks_response 5_000 (some 1_985) 25 (some loop)).since)))
mark_client_blocks_response-Capped_example =
    mark_client_blocks_response-Capped 5_000 (some 1_985) 25 loop

abbrev entries : List Entry
entries =
    record { ip = 1; seen = 10; held = true }
    ∷ record { ip = 2; seen = 5_000; held = false }
    ∷ record { ip = 3; seen = 20; held = false }
    ∷ record { ip = 4; seen = 4_900; held = false }
    ∷ []

evicted : node_state_evict_keys entries 5_100 2 3_600 ≡ 3 ∷ 4 ∷ 2 ∷ []
unfolding run
evicted = refl

evict_entries-idle_example :
    AllIdle (evict_entries entries 5_100 2 3_600)
    × ((length entries - length (evict_entries entries 5_100 2 3_600) + 1 ≤ 2)
        ⊎ (length entries - length (evict_entries entries 5_100 2 3_600)
            ≡ length (select (λ (e : Entry). e.held) entries)))
evict_entries-idle_example = evict_entries-idle entries 5_100 2 3_600
