-- ===== src/Protocol/Forward/Monotone.antt =====
-- What the forward gate of src/protocol.rs (RoundForwardGate) lets through.
use hypersync.Prelude.{
  ℕ, zero, suc, ◌+◌, ◌≤◌, ◌<◌, ◌≡◌, refl, inl, inr, Bool, true, false, ◌&&◌, ◌||◌, not, List, [],
  ◌∷◌, leb, ltb, ◌==◌, if◌then◌else◌, get_or, set, replicate, u32_max, saturating_add, subst, ap,
  ◌∙◌, Bool-cases, arith,
}
use hypersync.Protocol.Forward.{
  new, slot, is_new, RoundForwardGate, with_last_forwarded, admit_round, should_forward,
  forward_all,
}

-- The last round forwarded is below `u32::MAX`, and no slot of the dedup table holds a round above it.
pub record IsBehind (g : RoundForwardGate) : Type 0 where
  pub in_range : g.last_forwarded < u32_max
  pub slots_behind : (i : ℕ) → get_or g.dedup.slots i 0 ≤ g.last_forwarded

get_or-replicate : (n i : ℕ) → get_or (replicate {A = ℕ} n 0) i 0 ≡ 0
get_or-replicate zero i = refl
get_or-replicate (suc n) zero = refl
get_or-replicate (suc n) (suc i) = get_or-replicate n i

-- A write at `j` is seen at `j` alone.
get_or-set-le :
    (xs : List ℕ) (i j v bound : ℕ)
    → v ≤ bound
    → get_or xs i 0 ≤ bound
    → get_or (set xs j v) i 0 ≤ bound
get_or-set-le [] i j v bound h k = k
get_or-set-le (x ∷ xs) zero zero v bound h k = h
get_or-set-le (x ∷ xs) (suc i) zero v bound h k = k
get_or-set-le (x ∷ xs) zero (suc j) v bound h k = k
get_or-set-le (x ∷ xs) (suc i) (suc j) v bound h k = get_or-set-le xs i j v bound h k

-- A fresh gate starts out so.
pub with_last_forwarded-IsBehind :
    (cap last : ℕ) → last < u32_max → IsBehind (with_last_forwarded cap last)
unfolding with_last_forwarded new
with_last_forwarded-IsBehind cap last h = record {
  in_range = h;
  slots_behind = λ i. omega (arith, get_or-replicate _ i);
}

module _ (g : RoundForwardGate) (round : ℕ) (behind : IsBehind g) (small : round < u32_max) where
  -- Above the last round forwarded the table holds nothing.
  admit_round-above : g.last_forwarded < round → (admit_round g round).1 ≡ true
  unfolding admit_round is_new
  admit_round-above h = ground (arith, behind.slots_behind (slot g.dedup round))

  admit_round-IsBehind : g.last_forwarded ≤ round → IsBehind (admit_round g round).0
  unfolding admit_round is_new
  admit_round-IsBehind h =
      elim (Bool-cases (get_or g.dedup.slots (slot g.dedup round) 0 == round)) [
        | inl seen ↦ rw seen (record {
          in_range = behind.in_range;
          slots_behind = λ i.
              get_or-set-le g.dedup.slots i (slot g.dedup round) round g.last_forwarded
                (ground (arith, behind.slots_behind (slot g.dedup round))) (behind.slots_behind i);
        })
        | inr fresh ↦ rw fresh (record {
          in_range = small;
          slots_behind = λ i.
              get_or-set-le g.dedup.slots i (slot g.dedup round) round round (omega arith)
                (omega (arith, behind.slots_behind i));
        })
      ]

  pub should_forward-last :
      (from_active : Bool)
      → (should_forward g round from_active).0.last_forwarded
        ≡ (if (should_forward g round from_active).1 then round else g.last_forwarded)
  unfolding should_forward admit_round is_new
  should_forward-last from_active = ground arith

  pub should_forward-IsBehind :
      (from_active : Bool) → IsBehind (should_forward g round from_active).0
  unfolding should_forward
  should_forward-IsBehind true =
      elim (Bool-cases (not (g.last_forwarded == 0) && leb round g.last_forwarded)) [
        | inl old ↦ rw old behind
        | inr above ↦ rw above (admit_round-IsBehind (ground arith))
      ]
  should_forward-IsBehind false =
      elim (Bool-cases
        (g.last_forwarded == 0 || not (round == saturating_add g.last_forwarded 1))) [
          | inl other ↦ rw other behind
          | inr follows ↦ rw follows (admit_round-IsBehind (u32_next follows))
        ]
    where
      u32_next :
          (g.last_forwarded == 0 || not (round == saturating_add g.last_forwarded 1)) ≡ false
          → g.last_forwarded ≤ round
      u32_next h = let p : g.last_forwarded < u32_max = behind.in_range in ground arith

-- Every round of the list is above the one before, the first above `last`.
abbrev pub Ascends : ℕ → List ℕ → Type 0
Ascends last [] = Unit
Ascends last (r ∷ rs) = (last < r) × Ascends r rs

-- The calls are made with rounds below `u32::MAX`.
abbrev pub AreRounds : List (ℕ × Bool) → Type 0
AreRounds [] = Unit
AreRounds ((r, a) ∷ calls) = (r < u32_max) × AreRounds calls

pub should_forward-lt :
    (g : RoundForwardGate) (round : ℕ) (from_active : Bool)
    → IsBehind g
    → (should_forward g round from_active).1 ≡ true
    → g.last_forwarded < round
unfolding should_forward admit_round is_new
should_forward-lt g round from_active behind h =
    let p : g.last_forwarded < u32_max = behind.in_range in
    ground (arith, behind.slots_behind (slot g.dedup round))

forward_all-Ascends_from :
    (g : RoundForwardGate) (calls : List (ℕ × Bool))
    → IsBehind g
    → AreRounds calls
    → Ascends g.last_forwarded (forward_all g calls).1
unfolding forward_all
forward_all-Ascends_from g [] behind h = tt
forward_all-Ascends_from g ((round, from_active) ∷ calls) behind h =
    go (should_forward g round from_active).1 refl (
      forward_all-Ascends_from (should_forward g round from_active).0 calls
        (should_forward-IsBehind g round behind h.0 from_active) h.1)
  where
    g' : RoundForwardGate
    g' = (should_forward g round from_active).0

    go :
        (b : Bool)
        → (should_forward g round from_active).1 ≡ b
        → Ascends g'.last_forwarded (forward_all g' calls).1
        → Ascends g.last_forwarded
            (if b then round ∷ (forward_all g' calls).1 else (forward_all g' calls).1)
    go true e a = (
      should_forward-lt g round from_active behind e,
      subst (λ l. Ascends l (forward_all g' calls).1)
          (should_forward-last g round behind h.0 from_active
            ∙ ap (λ b. if b then round else g.last_forwarded) e)
          a,
    )
    go false e a =
        subst (λ l. Ascends l (forward_all g' calls).1)
          (should_forward-last g round behind h.0 from_active
            ∙ ap (λ b. if b then round else g.last_forwarded) e)
          a

-- Whatever blocks arrive, from the active upstream or from others, the rounds let through by a new
-- gate ascend strictly from the round it starts at, all of them below `u32::MAX`: none passes twice,
-- and none goes back.
pub forward_all-Ascends :
    (cap last : ℕ) (calls : List (ℕ × Bool))
    → last < u32_max
    → AreRounds calls
    → Ascends last (forward_all (with_last_forwarded cap last) calls).1
unfolding with_last_forwarded
forward_all-Ascends cap last calls h rounds =
    forward_all-Ascends_from (with_last_forwarded cap last) calls
      (with_last_forwarded-IsBehind cap last h) rounds

-- What a gate without a dedup table lets through: a block of the active upstream above the last round
-- forwarded, and another block if it is the next round after a known last one.
abbrev pub passes : ℕ → ℕ → Bool → Bool
passes last round from_active =
    if from_active then ltb last round else not (last == 0) && round == last + 1

abbrev pub pass_all : ℕ → List (ℕ × Bool) → List ℕ
pass_all last [] = []
pass_all last ((round, from_active) ∷ calls) = elim (passes last round from_active) [
  | true ↦ round ∷ pass_all round calls
  | false ↦ pass_all last calls
]
