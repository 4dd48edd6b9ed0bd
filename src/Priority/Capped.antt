-- ===== src/Priority/Capped.antt =====
-- The session cap over all operations of a tier (src/priority.rs). Sessions start by try_acquire.
use Prim.Native.String.{String}
use hypersync.Prelude.{
  ℕ, zero, suc, ◌+◌, ◌-◌, ◌≤◌, ◌≡◌, ◌≢◌, refl, inl, inr, true, ◌||◌, List, [], ◌∷◌, ltb, ◌==◌,
  get_or, set, Bool-cases, Option-cases, arith,
}
use hypersync.Priority.{
  PriorityTier, cool_until, mark_failed_at, mark_hung_at, try_acquire, release, index, is_exclusive,
}

pub data Op : Type 0 where
  start : String → Op
  finish : ℕ → Op
  fail : String → ℕ → Op
  hang : String → ℕ → Op

unfoldable pub step : Op → PriorityTier → PriorityTier
step (start ip) t = (try_acquire ip t).0
step (finish i) t = release i t
step (fail ip now) t = mark_failed_at ip now t
step (hang ip now) t = mark_hung_at ip now t

-- Newest operation first.
abbrev pub steps : List Op → PriorityTier → PriorityTier
steps [] t = t
steps (o ∷ older) t = step o (steps older t)

abbrev pub AllAtMost : ℕ → List ℕ → Type 0
AllAtMost m [] = Unit
AllAtMost m (n ∷ rest) = (n ≤ m) × AllAtMost m rest

AllAtMost-set : (m : ℕ) (ns : List ℕ) (i v : ℕ) → v ≤ m → AllAtMost m ns → AllAtMost m (set ns i v)
AllAtMost-set m [] i v le h = tt
AllAtMost-set m (n ∷ rest) zero v le h = (le, h.1)
AllAtMost-set m (n ∷ rest) (suc i) v le h = (h.0, AllAtMost-set m rest i v le h.1)

AllAtMost-get_or : (m : ℕ) (ns : List ℕ) (i : ℕ) → AllAtMost m ns → get_or ns i 0 ≤ m
AllAtMost-get_or m [] i h = omega arith
AllAtMost-get_or m (n ∷ rest) zero h = h.0
AllAtMost-get_or m (n ∷ rest) (suc i) h = AllAtMost-get_or m rest i h.1

-- The cap holds, and it is still the cap `m`.
abbrev Kept : ℕ → PriorityTier → Type 0
Kept m t = (t.max_sessions ≡ m) × AllAtMost m t.sessions

cool_until-Kept :
    (m : ℕ) (ip : String) (until : ℕ) (t : PriorityTier) → Kept m t → Kept m (cool_until ip until t)
unfolding cool_until
cool_until-Kept m ip until t h = elim (Option-cases (index ip t)) [
  | inl absent ↦ rw (absent, cool_until) h
  | inr found ↦ rw (found.1, cool_until) h
]

try_acquire-Kept :
    (m : ℕ) (ip : String) (t : PriorityTier) → m ≢ 0 → Kept m t → Kept m (try_acquire ip t).0
unfolding try_acquire
try_acquire-Kept m ip t ne h = elim (Option-cases (index ip t)) [
  | inl absent ↦ rw (absent, try_acquire) h
  | inr (i, found) ↦
      elim (Bool-cases (t.max_sessions == 0 || ltb (get_or t.sessions i 0) t.max_sessions)) [
        | inl room ↦
            let le : get_or t.sessions i 0 + 1 ≤ m =
              add_one (get_or t.sessions i 0) t.max_sessions room h.0 in
            rw (found, try_acquire, room) (h.0, AllAtMost-set m t.sessions i _ le h.1)
        | inr full ↦ rw (found, try_acquire, full) h
      ]
]
  where
    add_one : (n k : ℕ) → (k == 0 || ltb n k) ≡ true → k ≡ m → n + 1 ≤ m
    add_one n k r e = ground arith

step-Kept : (m : ℕ) (o : Op) (t : PriorityTier) → m ≢ 0 → Kept m t → Kept m (step o t)
unfolding step release mark_failed_at mark_hung_at
step-Kept m (start ip) t ne h = try_acquire-Kept m ip t ne h
step-Kept m (finish i) t ne h =
    let le = AllAtMost-get_or m t.sessions i h.1 in
    (h.0, AllAtMost-set m t.sessions i (get_or t.sessions i 0 - 1) (omega arith) h.1)
step-Kept m (fail ip now) t ne h = cool_until-Kept m ip _ t h
step-Kept m (hang ip now) t ne h = elim (Bool-cases (is_exclusive t)) [
  | inl alone ↦ rw alone (cool_until-Kept m ip _ t h)
  | inr shared ↦ rw shared (cool_until-Kept m ip _ t h)
]

steps-Kept : (m : ℕ) (ops : List Op) (t : PriorityTier) → m ≢ 0 → Kept m t → Kept m (steps ops t)
steps-Kept m [] t ne h = h
steps-Kept m (o ∷ older) t ne h = step-Kept m o (steps older t) ne (steps-Kept m older t ne h)

-- No interleaving of sessions that start by try_acquire and end, and of failures, takes a peer of a
-- capped tier past the cap.
pub steps-AllAtMost :
    (ops : List Op) (t : PriorityTier)
    → t.max_sessions ≢ 0
    → AllAtMost t.max_sessions t.sessions
    → AllAtMost t.max_sessions (steps ops t).sessions
steps-AllAtMost ops t ne h = (steps-Kept t.max_sessions ops t ne (refl, h)).1
