-- ===== src/Maps/Laws.antt =====
-- Laws of the maps.
use hypersync.Prelude.{
  ℕ, ◌≡◌, ◌<◌, ◌≤◌, refl, inl, inr, ltb, Bool-cases, Option, none, some, List, [], ◌∷◌, ◌++◌, ap,
  ◌==◌, if◌then◌else◌, arith,
}
use hypersync.Maps.{lookup, remove, insert, put, range_from, pop_last}

module _ {ℓ} {V : Type ℓ} where
  -- An entry of a map.
  pub data In (k : ℕ) (v : V) : List (ℕ × V) → Type ℓ where
    here : {m : List (ℕ × V)} → In k v ((k, v) ∷ m)
    there : {j : ℕ} {w : V} {m : List (ℕ × V)} → In k v m → In k v ((j, w) ∷ m)

  -- No key below stands in the map twice.
  abbrev pub Lacks : ℕ → List (ℕ × V) → Type 0
  Lacks k [] = Unit
  Lacks k ((j, v) ∷ m) = (k ≡ j → ⊥) × Lacks k m

  abbrev pub IsMap : List (ℕ × V) → Type 0
  IsMap [] = Unit
  IsMap ((j, v) ∷ m) = Lacks j m × IsMap m

  In-Lacks : {k : ℕ} {v : V} {m : List (ℕ × V)} → In k v m → (j : ℕ) → Lacks j m → j ≡ k → ⊥
  In-Lacks here j l e = l.0 e
  In-Lacks (there i) j l e = In-Lacks i j l.1 e

  -- In a map, an entry is what a lookup finds.
  pub lookup-In : {k : ℕ} {v : V} {m : List (ℕ × V)} → In k v m → IsMap m → lookup k m ≡ some v
  unfolding lookup
  lookup-In here h = ground arith
  lookup-In (there {j = j} i) h = ground (arith, In-Lacks i j h.0, lookup-In i h.1)

  pub lookup-put :
      (k j : ℕ) (v : V) (m : List (ℕ × V))
      → lookup j (put k v m) ≡ (if k == j then some v else lookup j m)
  unfolding lookup put
  lookup-put k j v [] = refl
  lookup-put k j v ((i, w) ∷ m) = ground (arith, lookup-put k j v m)

  -- Every key is above `k`, and the keys ascend: what a `BTreeMap` keeps.
  abbrev pub AllAbove : ℕ → List (ℕ × V) → Type 0
  AllAbove k [] = Unit
  AllAbove k ((j, v) ∷ m) = (k < j) × AllAbove k m

  abbrev pub IsAscending : List (ℕ × V) → Type 0
  IsAscending [] = Unit
  IsAscending ((j, v) ∷ m) = AllAbove j m × IsAscending m

  pub AllAbove-trans : (i j : ℕ) (m : List (ℕ × V)) → i < j → AllAbove j m → AllAbove i m
  AllAbove-trans i j [] h a = tt
  AllAbove-trans i j ((k, v) ∷ m) h a = (omega arith, AllAbove-trans i j m h a.1)

  pub AllAbove-insert :
      (i k : ℕ) (v : V) (m : List (ℕ × V)) → i < k → AllAbove i m → AllAbove i (insert k v m)
  unfolding insert
  AllAbove-insert i k v [] h a = (h, tt)
  AllAbove-insert i k v ((j, w) ∷ m) h a = elim (Bool-cases (k == j)) [
    | inl same ↦ rw same (h, a.1)
    | inr other ↦ elim (Bool-cases (ltb k j)) [
      | inl less ↦ rw (other, less) (h, (a.0, a.1))
      | inr more ↦ rw (other, more) (a.0, AllAbove-insert i k v m h a.1)
    ]
  ]

  pub IsAscending-insert :
      (k : ℕ) (v : V) (m : List (ℕ × V)) → IsAscending m → IsAscending (insert k v m)
  unfolding insert
  IsAscending-insert k v [] h = (tt, tt)
  IsAscending-insert k v ((j, w) ∷ m) h = elim (Bool-cases (k == j)) [
    | inl same ↦ let e : k ≡ j = ground arith in rw same (rw e h.0, h.1)
    | inr other ↦ elim (Bool-cases (ltb k j)) [
      | inl less ↦ rw (other, less) ((ground arith, AllAbove-trans k j m (ground arith) h.0), h)
      | inr more ↦
          rw (other, more)
            (AllAbove-insert j k v m (ground arith) h.0, IsAscending-insert k v m h.1)
    ]
  ]

  pub lookup-AllAbove : (i k : ℕ) (m : List (ℕ × V)) → i ≤ k → AllAbove k m → lookup i m ≡ none
  unfolding lookup
  lookup-AllAbove i k [] h a = refl
  lookup-AllAbove i k ((j, v) ∷ m) h a = ground (arith, lookup-AllAbove i k m h a.1)

  pub AllAbove-remove : (i k : ℕ) (m : List (ℕ × V)) → AllAbove i m → AllAbove i (remove k m)
  unfolding remove
  AllAbove-remove i k [] a = tt
  AllAbove-remove i k ((j, w) ∷ m) a = elim (Bool-cases (j == k)) [
    | inl same ↦ rw same a.1
    | inr other ↦ rw other (a.0, AllAbove-remove i k m a.1)
  ]

  pub IsAscending-remove : (k : ℕ) (m : List (ℕ × V)) → IsAscending m → IsAscending (remove k m)
  unfolding remove
  IsAscending-remove k [] h = tt
  IsAscending-remove k ((j, w) ∷ m) h = elim (Bool-cases (j == k)) [
    | inl same ↦ rw same h.1
    | inr other ↦ rw other (AllAbove-remove j k m h.0, IsAscending-remove k m h.1)
  ]

  -- What `pop_last` leaves of an ascending map, and that it takes the last entry.
  abbrev pub Popped : List (ℕ × V) → Option ((ℕ × V) × List (ℕ × V)) → Type ℓ
  Popped m none = m ≡ []
  Popped m (some ((r, a), rest)) = m ≡ rest ++ (r, a) ∷ []

  pub pop_last-Popped : (m : List (ℕ × V)) → Popped m (pop_last m)
  unfolding pop_last
  pop_last-Popped [] = refl
  pop_last-Popped ((j, w) ∷ m) = go (pop_last m) (pop_last-Popped m)
    where
      go :
          (o : Option ((ℕ × V) × List (ℕ × V)))
          → Popped m o
          → Popped
              ((j, w) ∷ m)
              (elim o [ none ↦ some ((j, w), []) | some (l, rest) ↦ some (l, (j, w) ∷ rest) ])
      go none p = ap (λ t. (j, w) ∷ t) p
      go (some ((r, a), rest)) p = ap (λ t. (j, w) ∷ t) p

  pub AllAbove-init :
      (i : ℕ) (m : List (ℕ × V)) (e : ℕ × V) → AllAbove i (m ++ e ∷ []) → AllAbove i m
  AllAbove-init i [] e h = tt
  AllAbove-init i ((j, w) ∷ m) e h = (h.0, AllAbove-init i m e h.1)

  pub IsAscending-init : (m : List (ℕ × V)) (e : ℕ × V) → IsAscending (m ++ e ∷ []) → IsAscending m
  IsAscending-init [] e h = tt
  IsAscending-init ((j, w) ∷ m) e h = (AllAbove-init j m e h.0, IsAscending-init m e h.1)

  pub put_same : (k : ℕ) (v : V) (m : List (ℕ × V)) → lookup k m ≡ some v → put k v m ≡ m
  unfolding lookup put
  put_same k v [] e = absurd (none≢some e)
    where
      none≢some : none ≡ some v → ⊥
      none≢some = λ e. cc
  put_same k v ((j, w) ∷ m) e = elim (Bool-cases (j == k)) [
    | inl same ↦
        let same_key : j ≡ k = ground arith in
        let same_value : some w ≡ some v = rw same at e in rw same (cc)
    | inr other ↦ rw other (ap (λ t. (j, w) ∷ t) (put_same k v m (rw other at e)))
  ]

  -- The head of a range is the first entry at or above its bound.
  pub range_from-head :
      (k r : ℕ) (a : V) (m rest : List (ℕ × V))
      → IsAscending m
      → range_from k m ≡ (r, a) ∷ rest
      → (k ≤ r) × (lookup r m ≡ some a)
  unfolding range_from lookup
  range_from-head k r a [] rest h e = absurd (nil≢cons e)
    where
      nil≢cons : [] ≡ (r, a) ∷ rest → ⊥
      nil≢cons = λ e. cc
  range_from-head k r a ((j, w) ∷ m) rest h e = elim (Bool-cases (ltb j k)) [
    | inl below ↦ let (p, q) = range_from-head k r a m rest h.1 (rw below at e) in (p, ground arith)
    | inr above ↦
        let head : (j, w) ∷ m ≡ (r, a) ∷ rest = rw above at e in
        let key : j ≡ r = cc in let value : w ≡ a = cc in (ground arith, ground arith)
  ]

  abbrev pub AllBelow : ℕ → List (ℕ × V) → Type 0
  AllBelow k [] = Unit
  AllBelow k ((j, v) ∷ m) = (j < k) × AllBelow k m

  pub AllBelow-remove : (i k : ℕ) (m : List (ℕ × V)) → AllBelow i m → AllBelow i (remove k m)
  unfolding remove
  AllBelow-remove i k [] a = tt
  AllBelow-remove i k ((j, w) ∷ m) a = elim (Bool-cases (j == k)) [
    | inl same ↦ rw same a.1
    | inr other ↦ rw other (a.0, AllBelow-remove i k m a.1)
  ]

  pub lookup-AllBelow :
      (i k : ℕ) (v : V) (m : List (ℕ × V)) → AllBelow i m → lookup k m ≡ some v → k < i
  unfolding lookup
  lookup-AllBelow i k v [] a e = absurd (none≢some e)
    where
      none≢some : none ≡ some v → ⊥
      none≢some = λ e. cc
  lookup-AllBelow i k v ((j, w) ∷ m) a e = elim (Bool-cases (j == k)) [
    | inl same ↦ ground arith
    | inr other ↦ lookup-AllBelow i k v m a.1 (rw other at e)
  ]

  pub lookup-remove_ne : (j k : ℕ) (m : List (ℕ × V)) → k < j → lookup j (remove k m) ≡ lookup j m
  unfolding lookup remove
  lookup-remove_ne j k [] h = refl
  lookup-remove_ne j k ((i, w) ∷ m) h = ground (arith, lookup-remove_ne j k m)
