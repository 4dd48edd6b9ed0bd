-- ===== src/Maps.antt =====
-- The standard library's maps with number keys, as association lists: a `BTreeMap` ascends by key,
-- and a `HashMap` stands in some order that nothing here depends on.
pub mod Laws
pub mod Entries
use hypersync.Prelude.{
  ℕ, ◌+◌, Bool, true, false, Option, none, some, List, [], ◌∷◌, ltb, leb, ◌==◌, if◌then◌else◌,
}

module _ {ℓ} {V : Type ℓ} where
  unfoldable pub lookup : ℕ → List (ℕ × V) → Option V
  lookup k [] = none
  lookup k ((j, v) ∷ m) = if j == k then some v else lookup k m

  unfoldable pub remove : ℕ → List (ℕ × V) → List (ℕ × V)
  remove k [] = []
  remove k ((j, v) ∷ m) = if j == k then m else (j, v) ∷ remove k m

  -- `BTreeMap::insert`.
  unfoldable pub insert : ℕ → V → List (ℕ × V) → List (ℕ × V)
  insert k v [] = (k, v) ∷ []
  insert k v ((j, w) ∷ m) =
      if k == j then (k, v) ∷ m else if ltb k j then (k, v) ∷ (j, w) ∷ m else (j, w) ∷ insert k v m

  -- `HashMap::insert`, and an update in place.
  unfoldable pub put : ℕ → V → List (ℕ × V) → List (ℕ × V)
  put k v [] = (k, v) ∷ []
  put k v ((j, w) ∷ m) = if j == k then (k, v) ∷ m else (j, w) ∷ put k v m

  -- `BTreeMap::range(from..)`.
  unfoldable pub range_from : ℕ → List (ℕ × V) → List (ℕ × V)
  range_from from [] = []
  range_from from ((j, v) ∷ m) = if ltb j from then range_from from m else (j, v) ∷ m

  -- `BTreeMap::pop_last`.
  unfoldable pub pop_last : List (ℕ × V) → Option ((ℕ × V) × List (ℕ × V))
  pop_last [] = none
  pop_last (e ∷ m) = elim (pop_last m) [ none ↦ some (e, []) | some (l, rest) ↦ some (l, e ∷ rest) ]
