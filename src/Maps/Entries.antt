-- ===== src/Maps/Entries.antt =====
-- A property of every entry of a map.
use hypersync.Prelude.{
  ℕ, ◌≡◌, inl, inr, ◌==◌, ltb, ==_iff, subst, Bool-cases, none, some, List, [], ◌∷◌, ◌++◌,
}
use hypersync.Maps.{lookup, remove, insert, put}

module _ {ℓ} {V : Type ℓ} (P : ℕ → V → Type 0) where
  abbrev pub AllEntries : List (ℕ × V) → Type 0
  AllEntries [] = Unit
  AllEntries ((k, v) ∷ m) = P k v × AllEntries m

  pub AllEntries-insert :
      (k : ℕ) (v : V) (m : List (ℕ × V)) → P k v → AllEntries m → AllEntries (insert k v m)
  unfolding insert
  AllEntries-insert k v [] p h = (p, tt)
  AllEntries-insert k v ((j, w) ∷ m) p h = elim (Bool-cases (k == j)) [
    | inl same ↦ rw same (p, h.1)
    | inr other ↦ elim (Bool-cases (ltb k j)) [
      | inl less ↦ rw (other, less) (p, h)
      | inr more ↦ rw (other, more) (h.0, AllEntries-insert k v m p h.1)
    ]
  ]

  pub AllEntries-put :
      (k : ℕ) (v : V) (m : List (ℕ × V)) → P k v → AllEntries m → AllEntries (put k v m)
  unfolding put
  AllEntries-put k v [] p h = (p, tt)
  AllEntries-put k v ((j, w) ∷ m) p h = elim (Bool-cases (j == k)) [
    | inl same ↦ rw same (p, h.1)
    | inr other ↦ rw other (h.0, AllEntries-put k v m p h.1)
  ]

  pub AllEntries-remove : (k : ℕ) (m : List (ℕ × V)) → AllEntries m → AllEntries (remove k m)
  unfolding remove
  AllEntries-remove k [] h = tt
  AllEntries-remove k ((j, w) ∷ m) h = elim (Bool-cases (j == k)) [
    | inl same ↦ rw same h.1
    | inr other ↦ rw other (h.0, AllEntries-remove k m h.1)
  ]

  pub AllEntries-init : (m : List (ℕ × V)) (e : ℕ × V) → AllEntries (m ++ e ∷ []) → AllEntries m
  AllEntries-init [] e h = tt
  AllEntries-init ((j, w) ∷ m) e h = (h.0, AllEntries-init m e h.1)

  pub lookup-AllEntries :
      (k : ℕ) (v : V) (m : List (ℕ × V)) → AllEntries m → lookup k m ≡ some v → P k v
  unfolding lookup
  lookup-AllEntries k v [] h e = absurd (none≢some e)
    where
      none≢some : none ≡ some v → ⊥
      none≢some = λ e. cc
  lookup-AllEntries k v ((j, w) ∷ m) h e = elim (Bool-cases (j == k)) [
    | inl same ↦
        subst (P k) (same_value (rw same at e)) (subst (λ i. P i w) ((==_iff j k).0 same) h.0)
    | inr other ↦ lookup-AllEntries k v m h.1 (rw other at e)
  ]
    where
      same_value : some w ≡ some v → w ≡ v
      same_value = λ e. cc
