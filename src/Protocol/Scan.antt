-- ===== src/Protocol/Scan.antt =====
-- The round scan of a decompressed block header (src/protocol.rs, find_block_round_parent).
pub mod First
pub mod Bounded
use hypersync.Prelude.{
  ℕ, zero, suc, ◌+◌, ◌-◌, ◌≤◌, ◌<◌, ◌≡◌, Bool, true, false, ◌&&◌, Option, none, some, List, leb,
  ltb, ◌==◌, if◌then◌else◌, length, get_or, take, min, from_le_bytes, arith,
}
use mathlib.Core.Option

abbrev pub round_scan_bytes : ℕ
round_scan_bytes = 0x400

abbrev pub max_parent_round_gap : ℕ
max_parent_round_gap = 256

-- The four bytes behind the tag at `o`, as a little-endian `u32`.
unfoldable pub rd : List ℕ → ℕ → ℕ
rd dec o =
    from_le_bytes (get_or dec (o + 1) 0) (get_or dec (o + 2) 0) (get_or dec (o + 3) 0)
      (get_or dec (o + 4) 0)

-- The tests of the loop's body at offset `o`.
unfoldable pub triple_at : List ℕ → ℕ → Bool
triple_at dec o =
    (get_or dec o 0 == 0xfc && get_or dec (o + 5) 0 == 0xfc && get_or dec (o + 10) 0 == 0xfc)
    && (ltb (rd dec (o + 5)) (rd dec o)
        && leb (rd dec o - rd dec (o + 5)) max_parent_round_gap
        && ltb (rd dec (o + 10)) (rd dec (o + 5))
        && leb (rd dec (o + 5) - rd dec (o + 10)) max_parent_round_gap)

-- `while o + 15 <= end`, with the number of rounds left.
unfoldable pub scan_from : List ℕ → ℕ → ℕ → Option (ℕ × ℕ)
scan_from dec zero o = none
scan_from dec (suc left) o = elim (triple_at dec o) [
  | true ↦ some (rd dec o, rd dec (o + 5))
  | false ↦ scan_from dec left (o + 1)
]

unfoldable pub find_block_round_parent : List ℕ → Option (ℕ × ℕ)
unfolding scan_from
find_block_round_parent dec = scan_from dec (min (length dec) round_scan_bytes - 14) 0

unfoldable pub find_block_round : List ℕ → Option ℕ
unfolding find_block_round_parent
find_block_round dec = Option.map (λ (p : ℕ × ℕ). p.0) (find_block_round_parent dec)
