-- ===== src/Gateway/Select/Raced.antt =====
-- How much the race of select_live_peer dials (src/gateway/select.rs).
use Prim.Native.String.{String}
use hypersync.Prelude.{
  ℕ, zero, suc, ◌+◌, ◌-◌, ◌%◌, ◌≤◌, ◌≡◌, refl, inl, inr, Bool, true, false, ◌&&◌, ◌||◌, List, [],
  ◌∷◌, ◌++◌, leb, ltb, ◌==◌, if◌then◌else◌, length, get_or, ap, ◌∙◌, Bool-cases, arith,
}
use hypersync.Priority.{PriorityTier}
use hypersync.Failover.Session.Tick.{rotated}
use hypersync.Gateway.Select.{
  AttemptError, Joined, serving, attempt_failed, join_error, none_left, elapsed, Race, Selected,
  racing, selected, dry, launch, fail_attempt, end_dry, join_next, race_round, Round, run_race,
  start_race, live_select_max_parallel,
}

-- The pool peers dialed are the first places of the pool from `start` on and around its end, none of
-- them twice, and at most four pool attempts run at once.
pub record IsBounded (peers : List String) (start : ℕ) (r : Race) : Type 0 where
  pub once : r.launched ≤ length peers
  pub few : r.pool_in_flight ≤ live_select_max_parallel
  pub ordered : r.dialed ≡ rotated peers start r.launched

abbrev pub AllBounded : List String → ℕ → Selected → Type 0
AllBounded peers start (racing r) = IsBounded peers start r
AllBounded peers start (selected ip r) = IsBounded peers start r
AllBounded peers start (dry r) = IsBounded peers start r

rotated-snoc :
    (peers : List String) (start n : ℕ)
    → rotated peers start n ++ (get_or peers ((start + n) % length peers) "" ∷ [])
      ≡ rotated peers start (suc n)
unfolding rotated
rotated-snoc peers start zero = let same : start + 0 ≡ start = omega arith in rw same refl
rotated-snoc peers start (suc n) =
    let rest = rotated-snoc peers (start + 1) n in
    let same : start + 1 + n ≡ start + suc n = omega arith in
    ap (λ ips. get_or peers (start % length peers) "" ∷ ips) (rw same at rest)

rotated-next :
    (peers : List String) (start n : ℕ)
    → rotated peers start n ++ (get_or peers ((start + n) % length peers) "" ∷ [])
      ≡ rotated peers start (n + 1)
rotated-next peers start n =
    let next : n + 1 ≡ suc n = omega arith in rw next (rotated-snoc peers start n)

launch-IsBounded :
    (peers : List String) (start left : ℕ) (r : Race)
    → IsBounded peers start r
    → IsBounded peers start (launch peers start left r)
unfolding launch
launch-IsBounded peers start zero r h = h
launch-IsBounded peers start (suc left) r h =
    let ip = get_or peers ((start + r.launched) % length peers) "" in
    let r' = record r {
      in_set = r.in_set + 1;
      launched = r.launched + 1;
      pool_in_flight = r.pool_in_flight + 1;
      dialed = r.dialed ++ (ip ∷ []);
    } in
    elim (Bool-cases
      (ltb r.launched (length peers) && ltb r.pool_in_flight live_select_max_parallel)) [
        | inr full ↦ rw full h
        | inl room ↦ rw room (
            launch-IsBounded peers start left r' (record {
              once = ground arith;
              few = ground arith;
              ordered =
                  ap (λ ips. ips ++ (ip ∷ [])) h.ordered ∙ rotated-next peers start r.launched;
            }))
      ]

fail_attempt-IsBounded :
    (peers : List String) (start : ℕ) (ip : String) (is_priority : Bool) (e : AttemptError)
    (now : ℕ) (r : Race)
    → IsBounded peers start r
    → IsBounded peers start (fail_attempt ip is_priority e now r)
unfolding fail_attempt
fail_attempt-IsBounded peers start ip false e now r h = record {
  once = h.once;
  few = omega (arith, h.few);
  ordered = h.ordered;
}
fail_attempt-IsBounded peers start ip true e now r h = record {
  once = h.once;
  few = h.few;
  ordered = h.ordered;
}

end_dry-AllBounded :
    (peers : List String) (start : ℕ) (now : ℕ) (r : Race)
    → IsBounded peers start r
    → AllBounded peers start (end_dry now r)
unfolding end_dry
end_dry-AllBounded peers start now r h = record { once = h.once; few = h.few; ordered = h.ordered }

join_next-AllBounded :
    (peers : List String) (start : ℕ) (joined : Joined) (pool_open : Bool) (now : ℕ) (r : Race)
    → IsBounded peers start r
    → AllBounded peers start (join_next joined pool_open now r)
unfolding join_next
join_next-AllBounded peers start (serving ip) pool_open now r h = h
join_next-AllBounded peers start (attempt_failed ip is_priority e) pool_open now r h =
    fail_attempt-IsBounded peers start ip is_priority e now (record r { in_set = r.in_set - 1 })
      (record { once = h.once; few = h.few; ordered = h.ordered })
join_next-AllBounded peers start join_error pool_open now r h = record {
  once = h.once;
  few = h.few;
  ordered = h.ordered;
}
join_next-AllBounded peers start none_left pool_open now r h =
    end_dry-AllBounded peers start now r h
join_next-AllBounded peers start elapsed true now r h = end_dry-AllBounded peers start now r h
join_next-AllBounded peers start elapsed false now r h = h

joined-AllBounded :
    (peers : List String) (start : ℕ) (x : Round) (deadline : ℕ) (pool_open : Bool) (r : Race)
    → IsBounded peers start r
    → AllBounded peers start (
        if r.in_set == 0 || leb deadline x.later
        then end_dry x.later r
        else join_next x.joined pool_open x.woken r)
joined-AllBounded peers start x deadline pool_open r h =
    elim (Bool-cases (r.in_set == 0 || leb deadline x.later)) [
      | inl over ↦ rw over (end_dry-AllBounded peers start x.later r h)
      | inr on ↦ rw on (join_next-AllBounded peers start x.joined pool_open x.woken r h)
    ]

race_round-AllBounded :
    (peers : List String) (start deadline pool_opens : ℕ) (x : Round) (r : Race)
    → IsBounded peers start r
    → AllBounded peers start
        (race_round peers start deadline pool_opens x.begins x.later x.woken x.joined r)
unfolding race_round
race_round-AllBounded peers start deadline pool_opens x r h =
    let pool_open = leb pool_opens x.begins || r.prio_in_flight == 0 in
    elim (Bool-cases (pool_open && ltb x.begins deadline)) [
      | inr closed ↦ rw closed (joined-AllBounded peers start x deadline pool_open r h)
      | inl unlocked ↦ rw unlocked (
          joined-AllBounded peers start x deadline pool_open
            (launch peers start live_select_max_parallel r)
            (launch-IsBounded peers start live_select_max_parallel r h))
    ]

run_race-AllBounded_from :
    (peers : List String) (start deadline pool_opens : ℕ) (rounds : List Round) (r : Race)
    → IsBounded peers start r
    → AllBounded peers start (run_race peers start deadline pool_opens rounds r)
unfolding run_race
run_race-AllBounded_from peers start deadline pool_opens [] r h = h
run_race-AllBounded_from peers start deadline pool_opens (x ∷ rounds) r h =
    go (race_round peers start deadline pool_opens x.begins x.later x.woken x.joined r)
      (race_round-AllBounded peers start deadline pool_opens x r h)
      (λ r' k. run_race-AllBounded_from peers start deadline pool_opens rounds r' k)
  where
    go :
        (s : Selected)
        → AllBounded peers start s
        → ((r' : Race)
            → IsBounded peers start r'
            → AllBounded peers start (run_race peers start deadline pool_opens rounds r'))
        → AllBounded peers start (elim s [
          | racing r' ↦ run_race peers start deadline pool_opens rounds r'
          | selected ip r' ↦ selected ip r'
          | dry r' ↦ dry r'
        ])
    go (racing r') k on = on r' k
    go (selected ip r') k on = k
    go (dry r') k on = k

-- However and in whatever order its attempts end, a selection dials the places of the pool in their
-- order from `start` on and around its end, each at most once, and counts at most four pool attempts
-- at a time.
pub run_race-AllBounded :
    (listed : String → Bool) (now : ℕ) (tier : PriorityTier) (peers : List String)
    (start deadline pool_opens : ℕ) (rounds : List Round)
    → AllBounded peers start
        (run_race peers start deadline pool_opens rounds (start_race listed now tier))
unfolding start_race rotated
run_race-AllBounded listed now tier peers start deadline pool_opens rounds =
    run_race-AllBounded_from peers start deadline pool_opens rounds (start_race listed now tier)
      (record { once = omega arith; few = omega arith; ordered = refl })
