-- ===== src/Protocol/Scan/First.antt =====
-- What the header scan of src/protocol.rs (find_block_round_parent) finds.
use hypersync.Prelude.{
  ℕ, zero, suc, ◌+◌, ◌-◌, ◌≤◌, ◌<◌, ◌≡◌, inl, inr, true, false, Option, none, some, List, length,
  get_or, min, Bool-cases, arith,
}
use hypersync.Protocol.Scan.{
  rd, triple_at, scan_from, find_block_round_parent, round_scan_bytes, max_parent_round_gap,
}

-- Three tagged varints in a row at `o`, each round above the next by at most the gap.
pub record IsTriple (dec : List ℕ) (o round parent : ℕ) : Type 0 where
  pub tag : get_or dec o 0 ≡ 0xfc
  pub parent_tag : get_or dec (o + 5) 0 ≡ 0xfc
  pub grandparent_tag : get_or dec (o + 10) 0 ≡ 0xfc
  pub round_read : round ≡ rd dec o
  pub parent_read : parent ≡ rd dec (o + 5)
  pub above_parent : parent < round
  pub parent_near : round ≤ parent + max_parent_round_gap
  pub above_grandparent : rd dec (o + 10) < parent
  pub grandparent_near : parent ≤ rd dec (o + 10) + max_parent_round_gap

-- The part of the block that is scanned.
abbrev pub scan_end : List ℕ → ℕ
scan_end dec = min (length dec) round_scan_bytes

-- What an answer of the scan says: the first offset with a triple, or that there is none.
abbrev pub Explains : List ℕ → Option (ℕ × ℕ) → Type 0
Explains dec (some (r, p)) =
    (o : ℕ) × (o + 15 ≤ scan_end dec)
    × IsTriple dec o r p
    × ((k : ℕ) → k < o → (r' p' : ℕ) → ¬ IsTriple dec k r' p')
Explains dec none = (k : ℕ) → k + 15 ≤ scan_end dec → (r' p' : ℕ) → ¬ IsTriple dec k r' p'

triple_at_sound :
    (dec : List ℕ) (o : ℕ) → triple_at dec o ≡ true → IsTriple dec o (rd dec o) (rd dec (o + 5))
unfolding triple_at
triple_at_sound dec o h = ground arith

not-IsTriple : (dec : List ℕ) (o r p : ℕ) → triple_at dec o ≡ false → ¬ IsTriple dec o r p
unfolding triple_at
not-IsTriple dec o r p h t = ground arith

-- No triple stands below `o`.
abbrev NoneBelow : List ℕ → ℕ → Type 0
NoneBelow dec o = (k : ℕ) → k < o → (r p : ℕ) → ¬ IsTriple dec k r p

NoneBelow-step :
    (dec : List ℕ) (o : ℕ) → triple_at dec o ≡ false → NoneBelow dec o → NoneBelow dec (o + 1)
NoneBelow-step dec o h b k lt r p t = grind (arith, not-IsTriple, b)

scan_from-Explains :
    (dec : List ℕ) (left o : ℕ)
    → left + o ≡ scan_end dec - 14
    → NoneBelow dec o
    → Explains dec (scan_from dec left o)
unfolding scan_from
scan_from-Explains dec zero o e b = λ k h r p t. b k (omega arith) r p t
scan_from-Explains dec (suc left) o e b = elim (Bool-cases (triple_at dec o)) [
  | inl hit ↦ rw (hit, scan_from, Explains) (o, omega arith, triple_at_sound dec o hit, b)
  | inr miss ↦
      rw (miss, scan_from, Explains)
        (scan_from-Explains dec left (o + 1) (omega arith) (NoneBelow-step dec o miss b))
]

-- The scan of a header returns the first triple of tagged rounds, each above its parent by at most
-- 256, that lies within the first 1024 bytes, and nothing only if there is no such triple there.
pub find_block_round_parent-Explains : (dec : List ℕ) → Explains dec (find_block_round_parent dec)
unfolding find_block_round_parent
find_block_round_parent-Explains dec =
    scan_from-Explains dec (scan_end dec - 14) 0 (omega arith) (λ k h r p t. omega arith)
