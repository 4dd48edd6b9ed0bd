-- ===== src/Priority/Usable.antt =====
-- Which priority peers are tried (src/priority.rs): cooldowns and candidates.
use Prim.Native.String.{String}
use hypersync.Prelude.{
  ℕ, zero, suc, ◌+◌, ◌≤◌, ◌<◌, ◌≡◌, refl, inl, inr, Bool, true, false, ◌&&◌, ◌||◌, not, Option,
  none, some, List, [], ◌∷◌, ltb, ◌==◌, length, get_or, set, Bool-cases, Option-cases, arith,
}
use hypersync.Priority.{
  PriorityTier, cool_until, mark_failed_at, mark_hung_at, try_acquire, release, index, is_exclusive,
  later_of, usable, is_cooling, priority_cooldown, candidates_from, insert_by_load, sort_by_load,
  is_before, peers_at, candidates_at,
}
use hypersync.Priority.Capped.{Op, start, finish, fail, hang, step, steps}

-- The entry is a cooldown that lasts until `c` at least.
abbrev pub CoolsTo : ℕ → Option ℕ → Type 0
CoolsTo c none = ⊥
CoolsTo c (some until) = c ≤ until

CoolsTo-set :
    (c : ℕ) (cs : List (Option ℕ)) (i j until : ℕ)
    → CoolsTo c (get_or cs j none)
    → CoolsTo c (get_or (set cs i (some (later_of until (get_or cs i none)))) j none)
CoolsTo-set c [] i j until h = h
CoolsTo-set c (none ∷ cs) zero zero until h = elim h [ ]
CoolsTo-set c (some t ∷ cs) zero zero until h = omega arith
CoolsTo-set c (o ∷ cs) zero (suc j) until h = h
CoolsTo-set c (o ∷ cs) (suc i) zero until h = h
CoolsTo-set c (o ∷ cs) (suc i) (suc j) until h = CoolsTo-set c cs i j until h

CoolsTo-set_self :
    (cs : List (Option ℕ)) (i until : ℕ)
    → i < length cs
    → CoolsTo until (get_or (set cs i (some (later_of until (get_or cs i none)))) i none)
CoolsTo-set_self [] i until lt = absurd (omega arith)
CoolsTo-set_self (none ∷ cs) zero until lt = omega arith
CoolsTo-set_self (some t ∷ cs) zero until lt = omega arith
CoolsTo-set_self (o ∷ cs) (suc i) until lt = CoolsTo-set_self cs i until (omega arith)

abbrev Cooled : ℕ → ℕ → PriorityTier → Type 0
Cooled c j t = CoolsTo c (get_or t.cooldown_until j none)

cool_until-Cooled :
    (c j : ℕ) (ip : String) (until : ℕ) (t : PriorityTier)
    → Cooled c j t
    → Cooled c j (cool_until ip until t)
unfolding cool_until
cool_until-Cooled c j ip until t h = elim (Option-cases (index ip t)) [
  | inl absent ↦ rw (absent, cool_until) h
  | inr (i, found) ↦ rw (found, cool_until) (CoolsTo-set c t.cooldown_until i j until h)
]

step-Cooled : (c j : ℕ) (o : Op) (t : PriorityTier) → Cooled c j t → Cooled c j (step o t)
unfolding step release mark_failed_at mark_hung_at try_acquire
step-Cooled c j (start ip) t h = elim (Option-cases (index ip t)) [
  | inl absent ↦ rw (absent, step, try_acquire) h
  | inr (i, found) ↦
      elim (Bool-cases (t.max_sessions == 0 || ltb (get_or t.sessions i 0) t.max_sessions)) [
        | inl room ↦ rw (found, step, try_acquire, room) h
        | inr full ↦ rw (found, step, try_acquire, full) h
      ]
]
step-Cooled c j (finish i) t h = h
step-Cooled c j (fail ip now) t h = cool_until-Cooled c j ip _ t h
step-Cooled c j (hang ip now) t h = elim (Bool-cases (is_exclusive t)) [
  | inl alone ↦ rw alone (cool_until-Cooled c j ip _ t h)
  | inr shared ↦ rw shared (cool_until-Cooled c j ip _ t h)
]

steps-Cooled :
    (c j : ℕ) (ops : List Op) (t : PriorityTier) → Cooled c j t → Cooled c j (steps ops t)
steps-Cooled c j [] t h = h
steps-Cooled c j (o ∷ older) t h = step-Cooled c j o (steps older t) (steps-Cooled c j older t h)

mark_failed_at-Cooled :
    (ip : String) (now i : ℕ) (t : PriorityTier)
    → index ip t ≡ some i
    → i < length t.cooldown_until
    → Cooled (now + priority_cooldown) i (mark_failed_at ip now t)
unfolding mark_failed_at cool_until
mark_failed_at-Cooled ip now i t found lt =
    rw (found, mark_failed_at, cool_until)
      (CoolsTo-set_self t.cooldown_until i (now + priority_cooldown) lt)

is_cooling-CoolsTo : (o : Option ℕ) (c now : ℕ) → CoolsTo c o → now < c → is_cooling o now ≡ true
is_cooling-CoolsTo none c now h lt = elim h [ ]
is_cooling-CoolsTo (some until) c now h lt = ground arith

-- A priority peer that failed is not usable for the whole cooldown, whatever the sessions and the
-- shorter or longer cooldowns that follow.
pub usable-mark_failed_at :
    (listed : String → Bool) (ip : String) (now later i : ℕ) (ops : List Op) (t : PriorityTier)
    → index ip t ≡ some i
    → i < length t.cooldown_until
    → later < now + priority_cooldown
    → usable listed later (steps ops (mark_failed_at ip now t)) i ≡ false
unfolding usable
usable-mark_failed_at listed ip now later i ops t found lt early =
    let cooled =
      steps-Cooled (now + priority_cooldown) i ops (mark_failed_at ip now t)
        (mark_failed_at-Cooled ip now i t found lt) in
    rw
      (is_cooling-CoolsTo (get_or (steps ops (mark_failed_at ip now t)).cooldown_until i none) _
        later cooled early)
      refl

pub data Listed (ip : String) : List String → Type 0 where
  head : (rest : List String) → Listed ip (ip ∷ rest)
  tail : (q : String) (rest : List String) → Listed ip rest → Listed ip (q ∷ rest)

module _ (P : ℕ → Type 0) where
  abbrev AllIndices : List (ℕ × ℕ) → Type 0
  AllIndices [] = Unit
  AllIndices ((load, i) ∷ rest) = P i × AllIndices rest

  AllIndices-candidates_from :
      (listed : String → Bool) (now : ℕ) (t : PriorityTier) (left i : ℕ)
      → ((j : ℕ) → usable listed now t j ≡ true → P j)
      → AllIndices (candidates_from listed now t left i)
  unfolding candidates_from
  AllIndices-candidates_from listed now t zero i h = tt
  AllIndices-candidates_from listed now t (suc left) i h =
      let rest = AllIndices-candidates_from listed now t left (i + 1) h in
      elim (Bool-cases (usable listed now t i)) [
        | inl tried ↦ rw tried (h i tried, rest)
        | inr skipped ↦ rw skipped rest
      ]

  AllIndices-insert_by_load :
      (a : ℕ × ℕ) (rest : List (ℕ × ℕ))
      → P a.1
      → AllIndices rest
      → AllIndices (insert_by_load a rest)
  unfolding insert_by_load
  AllIndices-insert_by_load a [] p h = (p, tt)
  AllIndices-insert_by_load a (b ∷ rest) p h = elim (Bool-cases (is_before a b)) [
    | inl before ↦ rw before (p, h)
    | inr after ↦ rw after (h.0, AllIndices-insert_by_load a rest p h.1)
  ]

  AllIndices-sort_by_load : (l : List (ℕ × ℕ)) → AllIndices l → AllIndices (sort_by_load l)
  unfolding sort_by_load
  AllIndices-sort_by_load [] h = tt
  AllIndices-sort_by_load (a ∷ rest) h =
      AllIndices-insert_by_load a (sort_by_load rest) h.0 (AllIndices-sort_by_load rest h.1)

  peers_at-Listed :
      (peers : List String) (l : List (ℕ × ℕ)) (ip : String)
      → AllIndices l
      → Listed ip (peers_at peers l)
      → (i : ℕ) × (get_or peers i "" ≡ ip) × P i
  unfolding peers_at
  peers_at-Listed peers [] ip h m = elim m [ ]
  peers_at-Listed peers ((load, i) ∷ rest) _ h (head _) = (i, refl, h.0)
  peers_at-Listed peers ((load, i) ∷ rest) ip h (tail _ _ m) = peers_at-Listed peers rest ip h.1 m

-- Each candidate is a configured peer that is not cooling down, not blacklisted, and below the
-- session cap if there is one.
pub candidates_at-Usable :
    (listed : String → Bool) (now : ℕ) (t : PriorityTier) (ip : String)
    → Listed ip (candidates_at listed now t)
    → (i : ℕ) × (get_or t.peers i "" ≡ ip)
      × (is_cooling (get_or t.cooldown_until i none) now ≡ false)
      × (listed (get_or t.peers i "") ≡ false)
      × ((t.max_sessions == 0 || ltb (get_or t.sessions i 0) t.max_sessions) ≡ true)
unfolding candidates_at usable
candidates_at-Usable listed now t ip m =
    let (i, e, u) =
      peers_at-Listed (λ i. usable listed now t i ≡ true) t.peers _ ip
        (AllIndices-sort_by_load (λ i. usable listed now t i ≡ true) _
          (AllIndices-candidates_from (λ i. usable listed now t i ≡ true) listed now t
            (length t.cooldown_until) 0 (λ j h. h)))
        m in
    let (a, b, c) = split _ _ _ u in (i, e, a, b, c)
  where
    split : (x y z : Bool) → (not x && not y && z) ≡ true → (x ≡ false) × (y ≡ false) × (z ≡ true)
    split x y z h = ground arith
