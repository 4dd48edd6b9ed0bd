-- ===== src/Failover/Switch/Taken.antt =====
-- The chain that switch_to takes off a standby (src/failover/core.rs).
use hypersync.Prelude.{
  ℕ, zero, suc, ◌-◌, ◌≤◌, ◌<◌, ◌≡◌, refl, sym, ap, ◌∙◌, inl, inr, Bool, true, false, Option, none,
  some, List, [], ◌∷◌, length, ◌==◌, ==_iff, saturating_add, u32_max, Bool-cases, arith,
}
use hypersync.Maps.{lookup, range_from, remove}
use hypersync.Maps.Laws.{
  IsAscending, IsAscending-remove, AllBelow, AllBelow-remove, lookup-AllBelow, range_from-head,
  lookup-remove_ne,
}
use hypersync.Failover.Upstream.{Ahead, Upstream, take_ahead}
use hypersync.Failover.Switch.{take_chain}

-- Blocks that follow on `cur`, each the child of the one before it and above it in round.
abbrev pub Linked : ℕ → List (ℕ × Ahead) → Type 0
Linked cur [] = Unit
Linked cur ((r, a) ∷ chain) = (a.parent ≡ cur) × (cur < r) × Linked r chain

abbrev pub frames_of : List (ℕ × Ahead) → List (List ℕ)
frames_of [] = []
frames_of ((r, a) ∷ chain) = a.frame ∷ frames_of chain

abbrev pub last_round : ℕ → List (ℕ × Ahead) → ℕ
last_round cur [] = cur
last_round cur ((r, a) ∷ chain) = last_round r chain

-- The blocks of a standby ascend by round, below `u32::MAX`.
pub record IsOrdered (u : Upstream) : Type 0 where
  pub ascending : IsAscending u.ahead
  pub in_range : AllBelow u32_max u.ahead

-- Each block of a chain is one that the standby held.
abbrev pub AllHeld : Upstream → List (ℕ × Ahead) → Type 0
AllHeld u [] = Unit
AllHeld u ((r, a) ∷ chain) = (lookup r u.ahead ≡ some a) × AllHeld u chain

pub take_ahead-eq :
    (r : ℕ) (a : Ahead) (u : Upstream)
    → lookup r u.ahead ≡ some a
    → take_ahead r u
      ≡ some
          (a, record u { ahead = remove r u.ahead; ahead_bytes = u.ahead_bytes - length a.frame })
unfolding take_ahead
take_ahead-eq r a u e = rw (e, take_ahead) refl

pub take_chain-Linked :
    (fuel cur : ℕ) (u : Upstream)
    → IsOrdered u
    → cur < u32_max
    → Linked cur (take_chain fuel cur u).0
unfolding take_chain
take_chain-Linked zero cur u o small = tt
take_chain-Linked (suc fuel) cur u o small =
    go (range_from (saturating_add cur 1) u.ahead) refl (take_chain-Linked fuel)
  where
    go :
        (m : List (ℕ × Ahead))
        → range_from (saturating_add cur 1) u.ahead ≡ m
        → ((cur' : ℕ) (v : Upstream)
            → IsOrdered v
            → cur' < u32_max
            → Linked cur' (take_chain fuel cur' v).0)
        → Linked cur (
            let x : List (ℕ × Ahead) × Upstream = elim m [
              | [] ↦ ([], u)
              | (r, a) ∷ _ ↦ elim (a.parent == cur) [
                | false ↦ ([], u)
                | true ↦ elim (take_ahead r u) [
                  | none ↦ ([], u)
                  | some (b, v) ↦ let (chain, w) = take_chain fuel r v in ((r, b) ∷ chain, w)
                ]
              ]
            ] in
            x.0)
    go [] e ih = tt
    go ((r, a) ∷ rest) e ih = elim (Bool-cases (a.parent == cur)) [
      | inr other ↦ rw other tt
      | inl child ↦
          let (above, found) =
            range_from-head (saturating_add cur 1) r a u.ahead rest o.ascending e in
          rw (child, take_ahead-eq r a u found)
            (
              (==_iff a.parent cur).0 child,
              omega arith,
              ih r _
                  (record {
                    ascending = IsAscending-remove r u.ahead o.ascending;
                    in_range = AllBelow-remove u32_max r u.ahead o.in_range;
                  })
                  (lookup-AllBelow u32_max r a u.ahead o.in_range found),
            )
    ]

AllHeld-remove :
    (r : ℕ) (u v : Upstream) (chain : List (ℕ × Ahead))
    → v.ahead ≡ remove r u.ahead
    → (cur : ℕ) → r ≤ cur
    → Linked cur chain
    → AllHeld v chain
    → AllHeld u chain
AllHeld-remove r u v [] e cur h l held = tt
AllHeld-remove r u v ((j, a) ∷ chain) e cur h l held = (
  sym (lookup-remove_ne j r u.ahead (omega arith)) ∙ ap (lookup j) (sym e) ∙ held.0,
  AllHeld-remove r u v chain e j (omega arith) l.2 held.1,
)

pub take_chain-AllHeld :
    (fuel cur : ℕ) (u : Upstream)
    → IsOrdered u
    → cur < u32_max
    → AllHeld u (take_chain fuel cur u).0
unfolding take_chain
take_chain-AllHeld zero cur u o small = tt
take_chain-AllHeld (suc fuel) cur u o small =
    go (range_from (saturating_add cur 1) u.ahead) refl (take_chain-AllHeld fuel)
  where
    go :
        (m : List (ℕ × Ahead))
        → range_from (saturating_add cur 1) u.ahead ≡ m
        → ((cur' : ℕ) (v : Upstream)
            → IsOrdered v
            → cur' < u32_max
            → AllHeld v (take_chain fuel cur' v).0)
        → AllHeld u (
            let x : List (ℕ × Ahead) × Upstream = elim m [
              | [] ↦ ([], u)
              | (r, a) ∷ _ ↦ elim (a.parent == cur) [
                | false ↦ ([], u)
                | true ↦ elim (take_ahead r u) [
                  | none ↦ ([], u)
                  | some (b, v) ↦ let (chain, w) = take_chain fuel r v in ((r, b) ∷ chain, w)
                ]
              ]
            ] in
            x.0)
    go [] e ih = tt
    go ((r, a) ∷ rest) e ih = elim (Bool-cases (a.parent == cur)) [
      | inr other ↦ rw other tt
      | inl child ↦
          let (above, found) =
            range_from-head (saturating_add cur 1) r a u.ahead rest o.ascending e in
          let v : Upstream = record u {
            ahead = remove r u.ahead;
            ahead_bytes = u.ahead_bytes - length a.frame;
          } in
          let ordered : IsOrdered v = record {
            ascending = IsAscending-remove r u.ahead o.ascending;
            in_range = AllBelow-remove u32_max r u.ahead o.in_range;
          } in
          let small' : r < u32_max = lookup-AllBelow u32_max r a u.ahead o.in_range found in
          rw (child, take_ahead-eq r a u found)
            (
              found,
              AllHeld-remove r u v (take_chain fuel r v).0 refl r (omega arith)
                  (take_chain-Linked fuel r v ordered small') (ih r v ordered small'),
            )
    ]

-- A standby from which no block is taken is left as it was.
pub take_chain_none :
    (fuel cur : ℕ) (u : Upstream) → (take_chain fuel cur u).0 ≡ [] → (take_chain fuel cur u).1 ≡ u
unfolding take_chain
take_chain_none zero cur u e = refl
take_chain_none (suc fuel) cur u e = go (range_from (saturating_add cur 1) u.ahead) e
  where
    taken :
        (r : ℕ) (o : Option (Ahead × Upstream))
        → (let x : List (ℕ × Ahead) × Upstream = elim o [
          | none ↦ ([], u)
          | some (b, v) ↦ let (chain, w) = take_chain fuel r v in ((r, b) ∷ chain, w)
        ] in
            x.0)
          ≡ []
        → (let x : List (ℕ × Ahead) × Upstream = elim o [
          | none ↦ ([], u)
          | some (b, v) ↦ let (chain, w) = take_chain fuel r v in ((r, b) ∷ chain, w)
        ] in
            x.1)
          ≡ u
    taken r none e = refl
    taken r (some (b, v)) e = absurd (cons≢nil e)
      where
        cons≢nil : (r, b) ∷ (take_chain fuel r v).0 ≡ [] → ⊥
        cons≢nil = λ e. cc

    linked :
        (r : ℕ) (child : Bool)
        → (let x : List (ℕ × Ahead) × Upstream = elim child [
          | false ↦ ([], u)
          | true ↦ elim (take_ahead r u) [
            | none ↦ ([], u)
            | some (b, v) ↦ let (chain, w) = take_chain fuel r v in ((r, b) ∷ chain, w)
          ]
        ] in
            x.0)
          ≡ []
        → (let x : List (ℕ × Ahead) × Upstream = elim child [
          | false ↦ ([], u)
          | true ↦ elim (take_ahead r u) [
            | none ↦ ([], u)
            | some (b, v) ↦ let (chain, w) = take_chain fuel r v in ((r, b) ∷ chain, w)
          ]
        ] in
            x.1)
          ≡ u
    linked r false e = refl
    linked r true e = taken r (take_ahead r u) e

    go :
        (m : List (ℕ × Ahead))
        → (let x : List (ℕ × Ahead) × Upstream = elim m [
          | [] ↦ ([], u)
          | (r, a) ∷ _ ↦ elim (a.parent == cur) [
            | false ↦ ([], u)
            | true ↦ elim (take_ahead r u) [
              | none ↦ ([], u)
              | some (b, v) ↦ let (chain, w) = take_chain fuel r v in ((r, b) ∷ chain, w)
            ]
          ]
        ] in
            x.0)
          ≡ []
        → (let x : List (ℕ × Ahead) × Upstream = elim m [
          | [] ↦ ([], u)
          | (r, a) ∷ _ ↦ elim (a.parent == cur) [
            | false ↦ ([], u)
            | true ↦ elim (take_ahead r u) [
              | none ↦ ([], u)
              | some (b, v) ↦ let (chain, w) = take_chain fuel r v in ((r, b) ∷ chain, w)
            ]
          ]
        ] in
            x.1)
          ≡ u
    go [] e = refl
    go ((r, a) ∷ rest) e = linked r (a.parent == cur) e
