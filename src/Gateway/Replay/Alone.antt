-- ===== src/Gateway/Replay/Alone.antt =====
-- Replays of the cache to a node do not overlap (src/gateway/cache.rs, ReplayInFlight).
use hypersync.Prelude.{
  ℕ, zero, suc, ◌+◌, ◌≤◌, ◌≡◌, refl, ap, sym, subst, inl, inr, Bool, true, false, ◌&&◌, some, List,
  [], ◌∷◌, get_elem?, set, Bool-cases, Option-cases, arith,
}
use hypersync.Gateway.Cache.{should_replay_cache}
use hypersync.Gateway.Replay.{
  Node, Outside, Greeting, greeted, looked, claimed, writing, written, live, dropped, transparent,
  relayed, claim, advance, step, run,
}

-- Does the greeting hold the claim on the replay?
abbrev pub holds : Greeting → ℕ
holds claimed = 1
holds writing = 1
holds other = 0

abbrev pub holders : List Greeting → ℕ
holders [] = 0
holders (g ∷ greetings) = holds g + holders greetings

abbrev pub flag : Bool → ℕ
flag true = 1
flag false = 0

-- The flag says whether one greeting is in a replay.
abbrev pub IsExclusive : List Greeting × Node → Type 0
IsExclusive (greetings, n) = holders greetings ≡ flag n.replay_in_flight

holders-set :
    (greetings : List Greeting) (i : ℕ) (g g' : Greeting)
    → get_elem? greetings i ≡ some g
    → holders (set greetings i g') + holds g ≡ holders greetings + holds g'
holders-set [] i g g' e = absurd (cc)
holders-set (h ∷ greetings) zero g g' e =
    let same : h ≡ g = cc in let k : holds h ≡ holds g = ap holds same in omega arith
holders-set (h ∷ greetings) (suc i) g g' e = omega (arith, holders-set greetings i g g' e)

claim-flag :
    (now last : ℕ) (active : Bool) (env : Outside) (n : Node)
    → flag (claim now last active env n).1.replay_in_flight
      ≡ flag n.replay_in_flight + holds (claim now last active env n).0
unfolding claim
claim-flag now last active env n =
    elim (Bool-cases (env.has_blob && should_replay_cache now last active env.cached_at)) [
      | inr barred ↦ rw barred (omega arith)
      | inl may ↦ elim (Bool-cases n.replay_in_flight) [
        | inl busy ↦ rw (may, busy) (omega arith)
        | inr free ↦ rw (may, free) refl
      ]
    ]

advance-flag :
    (g : Greeting) (env : Outside) (n : Node)
    → holds g ≤ flag n.replay_in_flight
    → flag (advance g env n).1.replay_in_flight + holds g
      ≡ flag n.replay_in_flight + holds (advance g env n).0
unfolding advance
advance-flag greeted env n h = omega arith
advance-flag (looked now last active) env n h = omega (arith, claim-flag now last active env n)
advance-flag claimed env n h = omega arith
advance-flag writing env n h = elim (Bool-cases n.replay_in_flight) [
  | inr free ↦ absurd (let k : 1 ≤ flag false = rw free at h in omega arith)
  | inl busy ↦ elim (Bool-cases env.taken) [
    | inl all ↦ rw (busy, all) refl
    | inr lost ↦ rw (busy, lost) refl
  ]
]
advance-flag written env n h = omega arith
advance-flag (live cache_floor) env n h = omega arith
advance-flag dropped env n h = omega arith
advance-flag transparent env n h = omega arith
advance-flag relayed env n h = omega arith

-- A greeting that holds the claim is one of the holders.
holds-le :
    (greetings : List Greeting) (i : ℕ) (g : Greeting)
    → get_elem? greetings i ≡ some g
    → holds g ≤ holders greetings
holds-le [] i g e = absurd (cc)
holds-le (h ∷ greetings) zero g e =
    let same : h ≡ g = cc in let k : holds h ≡ holds g = ap holds same in omega arith
holds-le (h ∷ greetings) (suc i) g e = omega (arith, holds-le greetings i g e)

step-IsExclusive :
    (i : ℕ) (env : Outside) (s : List Greeting × Node) → IsExclusive s → IsExclusive (step i env s)
unfolding step
step-IsExclusive i env (greetings, n) h = elim (Option-cases (get_elem? greetings i)) [
  | inl gone ↦ rw (gone, step) h
  | inr (g, e) ↦
      let held : holds g ≤ flag n.replay_in_flight = omega (arith, holds-le greetings i g e, h) in
      rw (e, step)
        (omega
          (arith, h, advance-flag g env n held, holders-set greetings i g (advance g env n).0 e))
]

run-IsExclusive :
    (schedule : List (ℕ × Outside)) (s : List Greeting × Node)
    → IsExclusive s
    → IsExclusive (run schedule s)
unfolding run
run-IsExclusive [] s h = h
run-IsExclusive ((i, env) ∷ schedule) s h =
    run-IsExclusive schedule (step i env s) (step-IsExclusive i env s h)

-- From a node without a replay and however its greetings' steps interleave, at most one of them is in a
-- replay at any time, and one is exactly while the node's flag is set.
pub run-Alone :
    (schedule : List (ℕ × Outside)) (greetings : List Greeting) (n : Node)
    → holders greetings ≡ 0
    → n.replay_in_flight ≡ false
    → (let s = run schedule (greetings, n) in
        (holders s.0 ≤ 1) × (holders s.0 ≡ flag s.1.replay_in_flight))
run-Alone schedule greetings n none_holds free =
    let s = run schedule (greetings, n) in
    let h : holders s.0 ≡ flag s.1.replay_in_flight =
      run-IsExclusive schedule (greetings, n) (rw free none_holds) in
    (subst (λ t. t ≤ 1) (sym h) (flag-le s.1.replay_in_flight), h)
  where
    flag-le : (b : Bool) → flag b ≤ 1
    flag-le true = omega arith
    flag-le false = omega arith
