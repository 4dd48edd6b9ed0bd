-- ===== src/Protocol/Forward.antt =====
-- Which block rounds are forwarded (src/protocol.rs): RoundDedup, should_forward_block_round and
-- RoundForwardGate. The atomic slots are a list: the gate is used by one task.
pub mod Monotone
use hypersync.Prelude.{
  ℕ, zero, suc, ◌+◌, ◌-◌, ◌*◌, ◌%◌, ◌≤◌, ◌<◌, Bool, true, false, ◌&&◌, ◌||◌, not, List, [], ◌∷◌,
  leb, ltb, ◌==◌, if◌then◌else◌, length, get_or, set, replicate, saturating_add,
}

-- `usize::next_power_of_two`, searched upwards from `p`.
unfoldable pub next_power_from : ℕ → ℕ → ℕ → ℕ
next_power_from zero p cap = p
next_power_from (suc fuel) p cap = elim (leb cap p) [
  | true ↦ p
  | false ↦ next_power_from fuel (p * 2) cap
]

unfoldable pub next_power_of_two : ℕ → ℕ
unfolding next_power_from
next_power_of_two cap = next_power_from 64 1 cap

-- `mask` is the number of slots less one; `r & mask` is `r % (mask + 1)`, a power of two.
pub record RoundDedup : Type 0 where
  pub slots : List ℕ
  pub mask : ℕ

unfoldable pub new : ℕ → RoundDedup
new cap = record { slots = replicate (next_power_of_two cap) 0; mask = next_power_of_two cap - 1 }

abbrev pub slot : RoundDedup → ℕ → ℕ
slot d r = r % (d.mask + 1)

-- The swap: the new table, and whether the slot held another round.
unfoldable pub is_new : RoundDedup → ℕ → RoundDedup × Bool
is_new d r = (record d { slots = set d.slots (slot d r) r }, not (get_or d.slots (slot d r) 0 == r))

pub record RoundForwardGate : Type 0 where
  pub last_forwarded : ℕ
  pub dedup : RoundDedup

unfoldable pub with_last_forwarded : ℕ → ℕ → RoundForwardGate
with_last_forwarded cap last = record { last_forwarded = last; dedup = new cap }

-- The tail of both branches: ask the dedup table, then move on.
unfoldable pub admit_round : RoundForwardGate → ℕ → RoundForwardGate × Bool
admit_round g round =
    let (dedup', fresh) = is_new g.dedup round in
    if fresh
    then (record { last_forwarded = round; dedup = dedup' }, true)
    else (record g { dedup = dedup' }, false)

unfoldable pub should_forward : RoundForwardGate → ℕ → Bool → RoundForwardGate × Bool
should_forward g round from_active =
    if from_active
    then (if not (g.last_forwarded == 0) && leb round g.last_forwarded
        then (g, false)
        else admit_round g round)
    else if g.last_forwarded == 0 || not (round == saturating_add g.last_forwarded 1)
    then (g, false)
    else admit_round g round

-- A sequence of calls: the rounds that were let through, in order.
unfoldable pub forward_all : RoundForwardGate → List (ℕ × Bool) → RoundForwardGate × List ℕ
forward_all g [] = (g, [])
forward_all g ((round, from_active) ∷ calls) =
    let (g', through) = should_forward g round from_active in
    let (h, rounds) = forward_all g' calls in (h, if through then round ∷ rounds else rounds)
