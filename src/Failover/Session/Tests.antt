-- ===== src/Failover/Session/Tests.antt =====
-- A run of a failover session, and the theorems on sessions at an input.
use hypersync.Prelude.{
  Climbs, ℕ, ◌+◌, ◌≡◌, refl, false, Option, none, some, List, [], ◌∷◌, ◌++◌, ◌/◌, ◌%◌, ◌==◌, ◌&&◌,
  if◌then◌else◌, get_or, arith,
}
use hypersync.Prelude.Int.{◌-ℤ◌}
use hypersync.Maps.{lookup, insert, put, remove, range_from, pop_last}
use hypersync.Protocol.Rounds.{is_plausible_mainnet_round, round_lag_from_tip}
use hypersync.Push.Progress
use hypersync.Push.Progress.{on_round, stalled}
use hypersync.Priority
use hypersync.Priority.{
  PriorityTier, fallback, is_empty, is_exclusive, position, index, contains, usable,
  candidates_from, insert_by_load, sort_by_load, peers_at, candidates_at, pool_allowed,
}
use hypersync.Failover.Upstream
use hypersync.Failover.Upstream.{
  push_lead, compared, over_limits, trim_highest, replaced_bytes, insert_ahead, take_ahead,
  trim_low, trim_ahead, insert_lead, sort_leads, median_lead, can_continue, chain_walk, chain_len,
}
use hypersync.Failover.Core
use hypersync.Failover.Core.{
  add_standby, mark_preferred, pop_over, record_forwarded, settle, settle_all, settle_standbys,
  touch, on_active_block, check_forwarded, on_standby_block,
}
use hypersync.Failover.Core.Bounds.{AllBounded}
use hypersync.Failover.Switch.{
  ranks_above, leads_above, rank_stall, rank_preferred, rank_lag, consider, consider_all, choose,
  scene_of, pick_switch, take_chain, replay, clear_leads, become_active, switch_with, switch_to,
  slowest_of, slowest_standby,
}
use hypersync.Failover.Session.{
  FailoverConfig, Outside, Event, frame, closed, connected, tick, Outcome, queue_frames,
  send_frames, cool, cool_if, drop_upstream, drop_known, drop_bads, mark_dead, ip_of, start,
}
use hypersync.Failover.Session.Blocks.{
  forward_active_block, on_active_round, on_standby_round, on_block, on_control, on_frame,
  on_prefetched,
}
use hypersync.Failover.Session.Tick.{
  check_stalled, banned_of, drop_banned, check_blacklist, take_slot, switched, try_switch,
  grace_over, rotate, retain_cooling, is_cooling, is_in, in_use, rotated, dialable,
  standby_candidates, fill, after_switch, on_tick,
}
use hypersync.Failover.Session.Run.{
  on_closed, on_connected, on_connect_failed, on_node_bytes, step, run, run_prefetched, serve,
}
use hypersync.Failover.Session.Replayed.{block_rounds}
use hypersync.Failover.Session.Served.{
  AreSmallEvents, AreSmallFrames, serve-Climbs, serve-AllBounded,
}
use hypersync.Failover.Session.Classify.{classify, block_hash}
use hypersync.Protocol.Scan.{rd, triple_at, find_block_round_parent}
use hypersync.Protocol.Lz4.{
  read_len, pass, literal_part, offset_part, match_part, copy_match, lz4_loop, lz4_first_n,
}
use hypersync.Protocol.BlockRound.{
  declared_size_ok, decompress_block, block_round_parent, block_round_parent_full,
}

-- A decoder for blocks of one sequence of 15 literals.
unpack : List ℕ → Option (List ℕ)
unpack (b0 ∷ b1 ∷ b2 ∷ b3 ∷ token ∷ ext ∷ literals) =
    if token == 0xf0 && ext == 0 then some literals else none
unpack _ = none

all : Unit {0}
unfolding ◌-ℤ◌ lookup insert put remove range_from pop_last is_plausible_mainnet_round
    round_lag_from_tip Progress.new on_round stalled Priority.new is_empty is_exclusive position
    index contains usable candidates_from insert_by_load sort_by_load peers_at candidates_at
    pool_allowed Upstream.new push_lead compared over_limits trim_highest replaced_bytes
    insert_ahead take_ahead trim_low trim_ahead insert_lead sort_leads median_lead can_continue
    chain_walk chain_len Core.new Core.remove add_standby mark_preferred pop_over record_forwarded
    settle settle_all settle_standbys touch on_active_block check_forwarded on_standby_block
    ranks_above leads_above rank_stall rank_preferred rank_lag consider consider_all choose scene_of
    pick_switch take_chain replay clear_leads become_active switch_with switch_to slowest_of
    slowest_standby queue_frames send_frames cool cool_if drop_upstream drop_known drop_bads
    mark_dead ip_of start forward_active_block on_active_round on_standby_round on_block on_control
    on_frame on_prefetched check_stalled banned_of drop_banned check_blacklist take_slot switched
    try_switch grace_over rotate retain_cooling is_cooling is_in in_use rotated dialable
    standby_candidates fill after_switch on_tick on_closed on_connected on_connect_failed
    on_node_bytes step run run_prefetched serve classify block_hash rd triple_at
    find_block_round_parent read_len pass literal_part offset_part match_part copy_match lz4_loop
    lz4_first_n declared_size_ok decompress_block block_round_parent block_round_parent_full unpack
all = tt

-- The classifier of the program, with the seventh byte as the hash.
abbrev read : List ℕ → Option (ℕ × ℕ × ℕ)
read = classify unpack (λ bytes. get_or bytes 6 0) (λ bytes. 0)

abbrev tagged : ℕ → List ℕ
tagged n = 0xfc ∷ n % 256 ∷ n / 256 % 256 ∷ n / 65_536 % 256 ∷ n / 16_777_216 % 256 ∷ []

abbrev config : FailoverConfig
config = record {
  standbys = 1;
  stall = 400_000_000;
  lag = 150_000_000;
  min_dwell = 10_000_000_000;
  rotate_slower = 100_000_000;
  rotate_every = 60_000_000_000;
}

abbrev outside : ℕ → Outside
outside now = record {
  now = now;
  net_tip = 0;
  live_floor = 0;
  room = 8;
  listed = (λ ip. false);
  list_version = 1;
  tier = Priority.new [] 1 0 fallback;
  pool = "203.0.113.3" ∷ [];
}

-- The frame of the block `n`, whose parent is the one before.
abbrev block : ℕ → List ℕ
block n =
    (0 ∷ 0 ∷ 0 ∷ 21 ∷ 1 ∷ 15 ∷ 0 ∷ 0 ∷ 0 ∷ 0xf0 ∷ 0 ∷ [])
    ++ (tagged (1_000_000_000 + n) ++ (tagged (999_999_999 + n) ++ tagged (999_999_998 + n)))

block_read : read (block 7) ≡ some (1_000_000_007, 1_000_000_006, (1_000_000_006 % 256))
unfolding all
block_read = refl

abbrev at : ℕ → Event → Event × Outside
at now e = (e, outside now)

abbrev prefetched : List (List ℕ × Outside)
prefetched = (block 1, outside 1) ∷ []

-- The standby delivers three blocks that the active has too, and one that it has not; then the active
-- closes, the tick switches, and the new active goes on.
abbrev events : List (Event × Outside)
events =
    at 2 (connected "203.0.113.2" false)
    ∷ at 3 (frame 0 (block 2) 3)
    ∷ at 4 (frame 1 (block 2) 4)
    ∷ at 5 (frame 1 (block 3) 5)
    ∷ at 6 (frame 0 (block 3) 6)
    ∷ at 7 (frame 0 (block 4) 7)
    ∷ at 8 (frame 1 (block 4) 8)
    ∷ at 9 (frame 1 (block 5) 9)
    ∷ at 10 (closed 0)
    ∷ at 11 tick
    ∷ at 12 (frame 1 (block 6) 12)
    ∷ []

abbrev outcome : Outcome
outcome = serve read config prefetched events (start config "203.0.113.1" false 0 0)

sent : outcome.sent ≡ block 1 ∷ block 2 ∷ block 3 ∷ block 4 ∷ block 5 ∷ block 6 ∷ []
unfolding all
sent = refl

now_active : outcome.session.core.active ≡ 1
unfolding all
now_active = refl

goes_on : outcome.exit ≡ none
unfolding all
goes_on = refl

-- The switch makes room for a standby, and the tick dials for one; the old active is not asked.
dialed : outcome.session.dialed ≡ "203.0.113.3" ∷ []
unfolding all
dialed = refl

small_prefetched : AreSmallFrames read prefetched
unfolding all
small_prefetched = omega arith

small_events : AreSmallEvents read events
unfolding all
small_events = omega arith

serve-Climbs_example : Climbs 0 (block_rounds read outcome.sent) outcome.session.core.last_forwarded
serve-Climbs_example =
    serve-Climbs read config "203.0.113.1" false 0 0 prefetched events small_prefetched small_events
      (omega arith)

serve-AllBounded_example : AllBounded outcome.session.core.ups
serve-AllBounded_example =
    serve-AllBounded read config "203.0.113.1" false 0 0 prefetched events small_prefetched
      small_events (omega arith)
