-- ===== src/Failover/Tests.antt =====
-- Runs of the failover core's model, and each of its theorems at an input.
use hypersync.Prelude.{ℕ, ◌≡◌, ◌≢◌, ◌≤◌, refl, Bool, true, false, none, some, List, [], ◌∷◌, arith}
use hypersync.Prelude.Int.{ℤ, pos, ◌-ℤ◌}
use hypersync.Maps.{lookup, insert, put, remove, range_from, pop_last}
use hypersync.Maps.Laws.{IsMap}
use hypersync.Failover.Upstream
use hypersync.Failover.Upstream.{
  Ahead, Upstream, push_lead, compared, over_limits, trim_highest, replaced_bytes, insert_ahead,
  take_ahead, trim_low, trim_ahead, median_lead, can_continue, chain_len, min_verified,
}
use hypersync.Failover.Upstream.Held.{IsHeld, IsBounded, insert_ahead-IsBounded}
use hypersync.Failover.Core.{
  Core, stall, pop_over, record_forwarded, settle, settle_all, settle_standbys, touch,
  on_active_block, check_forwarded, on_standby_block,
}
use hypersync.Failover.Core.Verify.{compared_all, compared_all-counts, on_active_block-forwards}
use hypersync.Failover.Core.Safe.{IsSafe, on_active_block-IsSafe, on_standby_block-IsSafe}
use hypersync.Failover.Switch.{pick_switch, switch_to, switch_with, become_active, clear_leads}
use hypersync.Failover.Switch.Taken.{IsOrdered}
use hypersync.Failover.Switch.Chain.{Switched, switch_to-Switched}
use hypersync.Failover.Switch.Pick.{Sends, pick_switch-switch_to}

run : Unit {0}
unfolding lookup insert put remove range_from pop_last Upstream.new push_lead compared over_limits
    trim_highest replaced_bytes insert_ahead take_ahead trim_low trim_ahead median_lead can_continue
    chain_len pop_over record_forwarded settle settle_all settle_standbys touch on_active_block
    check_forwarded on_standby_block pick_switch switch_to switch_with become_active clear_leads
    ◌-ℤ◌
run = tt

-- A block of the standby, held ahead of the node.
abbrev block : ℕ → Ahead
block parent = record { parent = parent; hash = 7; at = 1_000_000; frame = 1 ∷ 2 ∷ [] }

abbrev standby : Upstream
standby = record {
  ip = "203.0.113.2";
  verified = 3;
  mismatches = 0;
  ahead = (11, block 10) ∷ (12, block 11) ∷ (14, block 13) ∷ [];
  ahead_bytes = 6;
  dropped_max = 0;
  leads = [];
  last_rx = none;
  preferred = false;
}

abbrev core : Core
core = record {
  last_forwarded = 10;
  forwarded = (10, (7, 0)) ∷ [];
  active = 0;
  ups = (0, record standby { ip = "203.0.113.1"; ahead = []; ahead_bytes = 0 }) ∷ (1, standby) ∷ [];
  last_switch = none;
  stall_after = 400_000_000;
  lag_after = 150_000_000;
  min_dwell = 10_000_000_000;
}

-- Once the active is silent long enough the standby is chosen, and replays rounds 11 and 12: round 14
-- does not follow on 12.
switched : pick_switch core 500_000_000 false ≡ some (1, stall)
unfolding run
switched = refl

replayed : (switch_to 1 500_000_000 core).0.last_forwarded ≡ 12
unfolding run
replayed = refl

standby-IsOrdered : IsOrdered standby
standby-IsOrdered = omega arith

standby-IsHeld : IsHeld standby
standby-IsHeld = omega arith

core-IsSafe : IsSafe core
core-IsSafe = record { bounded = omega arith; clear = ((λ ne. tt), ((λ ne. omega arith), tt)) }

core-IsMap : IsMap core.ups
core-IsMap = omega arith

found : lookup 1 core.ups ≡ some standby
unfolding run
found = refl

switch_to-Switched_example : Switched 1 standby core (switch_to 1 500_000_000 core)
switch_to-Switched_example =
    switch_to-Switched 1 500_000_000 standby core found standby-IsOrdered (omega arith)

pick_switch-switch_to_example :
    (1 ≢ core.active)
    × ((u : Upstream) × (lookup 1 core.ups ≡ some u) × (min_verified ≤ u.verified))
    × Sends (switch_to 1 500_000_000 core)
pick_switch-switch_to_example =
    pick_switch-switch_to core 500_000_000 false 1 stall core-IsMap core-IsSafe.bounded switched

insert_ahead-IsBounded_example : IsBounded (insert_ahead 13 (block 12) standby)
insert_ahead-IsBounded_example = insert_ahead-IsBounded 13 (block 12) standby standby-IsHeld

on_active_block-IsSafe_example : IsSafe (on_active_block 11 7 2_000_000 core).0
on_active_block-IsSafe_example = on_active_block-IsSafe 11 7 2_000_000 core core-IsSafe

on_standby_block-IsSafe_example :
    IsSafe (on_standby_block 1 13 12 7 3_000_000 (9 ∷ []) core).0
    × ((on_standby_block 1 13 12 7 3_000_000 (9 ∷ []) core).0.last_forwarded ≡ 10)
    × ((on_standby_block 1 13 12 7 3_000_000 (9 ∷ []) core).0.active ≡ 0)
on_standby_block-IsSafe_example =
    on_standby_block-IsSafe 1 13 12 7 3_000_000 (9 ∷ []) core core-IsSafe

abbrev comparisons : List (Bool × ℤ)
comparisons = (true, pos 3) ∷ (false, pos 0) ∷ (true, pos 2) ∷ (false, pos 0) ∷ (false, pos 0) ∷ []

compared_all-counts_example :
    ((compared_all comparisons standby).verified ≡ 0)
    × ((compared_all comparisons standby).mismatches ≡ 2)
    × ((compared false (pos 0) (compared_all comparisons standby)).1 ≡ true)
    × ((compared true (pos 0) (compared_all comparisons standby)).1 ≡ false)
compared_all-counts_example = compared_all-counts comparisons standby (pos 0)

on_active_block-forwards_example :
    ((on_active_block 10 7 0 core).1.0 ≡ false)
    × ((on_active_block 10 7 0 core).0.last_forwarded ≡ 10)
    × ((on_active_block 10 7 0 core).0.active ≡ 0)
unfolding run
on_active_block-forwards_example = on_active_block-forwards 10 7 0 core
