-- ===== src/Push/Tests.antt =====
-- Runs of the models of live streams, and each of their theorems at an input.
use hypersync.Prelude.{ℕ, ◌+◌, ◌-◌, ◌≡◌, ◌≢◌, ◌≤◌, refl, false, none, some, [], ◌∷◌, saturating_add}
use hypersync.Maps.{lookup, insert, put, remove}
use hypersync.Maps.Laws.{In}
use hypersync.Push.Freshest
use hypersync.Push.Freshest.{
  Stream, FreshestRound, retain_fresh, raised, offer, drop_feed, raise_peer, counts, per_peer,
  insert_down, sort_down, get_within, get, select_floor, freshest_tip_slack,
}
use hypersync.Push.Freshest.Agreed.{get_within-vouched}
use hypersync.Push.Progress
use hypersync.Push.Progress.{BlockProgress, on_round, behind_by, lagging_at, StalledBehind, check}
use hypersync.Push.Progress.Gates.{
  Look, Unbroken, after_looks, after_checks, lagging_at-Unbroken, check-Unbroken,
}

run : Unit {0}
unfolding lookup insert put remove Freshest.new Progress.new retain_fresh raised offer drop_feed
    raise_peer counts per_peer insert_down sort_down get_within get select_floor on_round behind_by
    lagging_at check
run = tt

abbrev streams : FreshestRound
streams = offer 2 "203.0.113.2" 1_010 5 (
    offer 1 "203.0.113.1" 1_020 4
      (offer 0 "203.0.113.1" 1_030 3 (Freshest.new 40 5_000 20_000 1_000)))

-- Two streams of one peer do not make a round the freshest: the second peer's best counts.
agreed : get_within 10 100 streams ≡ some 1_010
unfolding run
agreed = refl

floor : select_floor 10 streams ≡ 970
unfolding run
floor = refl

get_within-vouched_example :
    (id : ℕ) × (s : Stream) × In id s streams.streams
    × (s.peer ≢ "203.0.113.2")
    × (1_010 ≤ s.round)
    × (s.round ≤ streams.net_tip + freshest_tip_slack)
    × (10 ≤ s.at + 100)
get_within-vouched_example = get_within-vouched 10 100 streams 1_010 "203.0.113.2" agreed

abbrev first : Look
first = record { own = 100; freshest = some 160; backed_up = false; now = 5 }

abbrev second : Look
second = record { own = 110; freshest = some 250; backed_up = false; now = 25 }

lagged :
    (lagging_at second.freshest 40 15 second.backed_up second.now
      (record (after_looks 40 15 (first ∷ []) (Progress.new 100 0)) { last_round = second.own })).1
    ≡ some 140
unfolding run
lagged = refl

unmarked : (Progress.new 100 0).lag_since ≡ none
unfolding run
unmarked = refl

lagging_at-Unbroken_example :
    (t : ℕ) × (n : ℕ) × Unbroken 41 (second ∷ first ∷ []) t n
    × (15 ≤ second.now - t)
    × (140 ≡ behind_by second.freshest second.own)
lagging_at-Unbroken_example =
    lagging_at-Unbroken 40 15 second (first ∷ []) (Progress.new 100 0) 140 unmarked lagged

abbrev limits : StalledBehind
limits = record { rounds = 20; grace = 10; widen = 30; since = none }

stalled_behind : (check 110 (some 250) false 25 (after_checks limits (first ∷ []))).1 ≡ some 140
unfolding run
stalled_behind = refl

check-Unbroken_example :
    (t : ℕ) × (n : ℕ) × Unbroken 20 (second ∷ first ∷ []) t n
    × (10 ≤ second.now - t)
    × (saturating_add n 30 ≤ 140)
    × (140 ≡ behind_by second.freshest second.own)
check-Unbroken_example = check-Unbroken limits second (first ∷ []) 140 stalled_behind
