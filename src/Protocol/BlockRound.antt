-- ===== src/Protocol/BlockRound.antt =====
-- The round of a live block (src/protocol.rs): block_round, block_round_full, block_round_parent
-- and their guards. The LZ4 library's decoder (lz4_flex::block::decompress_size_prepended, `none`
-- for its error) is a parameter.
pub mod Agree
use hypersync.Prelude.{
  ℕ, suc, ◌+◌, ◌*◌, Bool, true, false, ◌&&◌, ◌||◌, not, Option, none, some, List, [], ◌∷◌, leb, ltb,
  if◌then◌else◌, length, drop, from_le_bytes,
}
use hypersync.Protocol.Lz4.{lz4_first_n}
use hypersync.Protocol.Scan.{find_block_round, find_block_round_parent, round_scan_bytes}

abbrev pub max_decompressed_block : ℕ
max_decompressed_block = 4_000_000

-- The declared size, in the first four bytes.
unfoldable pub declared_size_ok : List ℕ → Bool
declared_size_ok (b0 ∷ b1 ∷ b2 ∷ b3 ∷ _) = leb (from_le_bytes b0 b1 b2 b3) max_decompressed_block
declared_size_ok _ = false

module _ (decompress_size_prepended : List ℕ → Option (List ℕ)) where
  unfoldable pub decompress_block : List ℕ → Option (List ℕ)
  decompress_block payload =
      if not (declared_size_ok payload) then none else decompress_size_prepended payload

  unfoldable pub block_round_full : List ℕ → Option ℕ
  block_round_full payload = elim (decompress_block payload) [
    | none ↦ none
    | some dec ↦ find_block_round dec
  ]

  unfoldable pub block_round : List ℕ → Option ℕ
  block_round payload =
      if ltb (length payload) 5 || not (declared_size_ok payload)
      then block_round_full payload
      else elim (lz4_first_n (drop 4 payload) round_scan_bytes) [
        | some buf ↦ find_block_round buf
        | none ↦ block_round_full payload
      ]

  -- What is behind the bounded decode of block_round_parent.
  unfoldable pub block_round_parent_full : List ℕ → Option (ℕ × ℕ)
  block_round_parent_full payload = elim (decompress_block payload) [
    | none ↦ none
    | some dec ↦ find_block_round_parent dec
  ]

  unfoldable pub block_round_parent : List ℕ → Option (ℕ × ℕ)
  block_round_parent payload =
      if leb 5 (length payload) && declared_size_ok payload
      then elim (lz4_first_n (drop 4 payload) round_scan_bytes) [
        | some buf ↦ find_block_round_parent buf
        | none ↦ block_round_parent_full payload
      ]
      else block_round_parent_full payload
