-- ===== src/Gateway/Select/Tests.antt =====
-- Runs of the selection, and its theorem at an input.
use Prim.Native.String.{String}
use hypersync.Prelude.{◌≡◌, refl, Bool, true, false, List, [], ◌∷◌}
use hypersync.Priority.{fallback}
use hypersync.Peerd.Pool.{is_in, retain, push_new}
use hypersync.Failover.Session.Tick.{rotated}
use hypersync.Gateway.Select.{
  bootstrap_source_list, remember_state_server, Selected, racing, selected, dry, Round, serving,
  attempt_failed, other_error, run_race, start_race, race_round, launch, join_next, fail_attempt,
}
use hypersync.Gateway.Select.Raced.{AllBounded, run_race-AllBounded}
use hypersync.Priority.{
  PriorityTier, candidates_at, usable, index, position, candidates_from, insert_by_load,
  sort_by_load, peers_at, mark_failed_at, cool_until,
}
use hypersync.Priority
use hypersync.Gateway.Select.Sources.{Distinct, IsPlaced, bootstrap_source_list-IsPlaced}

abbrev unlisted : String → Bool
unlisted ip = false

abbrev priority : List String
priority = "203.0.113.9" ∷ []

-- The remembered server and the priority peer are in the pool, too.
abbrev pool : List String
pool = "203.0.113.1" ∷ "203.0.113.9" ∷ "203.0.113.2" ∷ "203.0.113.3" ∷ []

abbrev sources : List String
sources = bootstrap_source_list unlisted fallback priority ("203.0.113.3" ∷ []) pool 2

priority_last : sources ≡ "203.0.113.3" ∷ "203.0.113.2" ∷ "203.0.113.1" ∷ "203.0.113.9" ∷ []
unfolding bootstrap_source_list is_in retain push_new rotated
priority_last = refl

remembered_once :
    remember_state_server "203.0.113.2" ("203.0.113.1" ∷ "203.0.113.2" ∷ [])
    ≡ "203.0.113.2" ∷ "203.0.113.1" ∷ []
unfolding remember_state_server is_in retain
remembered_once = refl

bootstrap_source_list-IsPlaced_example : Distinct sources × IsPlaced fallback priority sources
unfolding is_in
bootstrap_source_list-IsPlaced_example =
    bootstrap_source_list-IsPlaced unlisted fallback priority ("203.0.113.3" ∷ []) pool 2 (refl, tt)

-- A race with a priority peer, whose attempt fails, and then the pool, whose first peer serves.
abbrev tier : PriorityTier
tier = Priority.new priority 1 0 fallback

abbrev rounds : List Round
rounds =
    record {
      begins = 1;
      later = 2;
      woken = 3;
      joined = attempt_failed "203.0.113.9" true other_error;
    }
    ∷ record { begins = 4; later = 5; woken = 6; joined = serving "203.0.113.3" }
    ∷ []

abbrev dialed_of : Selected → List String
dialed_of (racing r) = r.dialed
dialed_of (selected ip r) = r.dialed
dialed_of (dry r) = r.dialed

abbrev raced : Selected
raced = run_race pool 3 1_000 500 rounds (start_race unlisted 0 tier)

dialed_in_order :
    dialed_of raced ≡ "203.0.113.3" ∷ "203.0.113.1" ∷ "203.0.113.9" ∷ "203.0.113.2" ∷ []
unfolding run_race race_round launch join_next fail_attempt start_race Priority.new candidates_at
    candidates_from usable index position insert_by_load sort_by_load peers_at mark_failed_at
    cool_until retain is_in
dialed_in_order = refl

run_race-AllBounded_example : AllBounded pool 3 raced
run_race-AllBounded_example = run_race-AllBounded unlisted 0 tier pool 3 1_000 500 rounds
