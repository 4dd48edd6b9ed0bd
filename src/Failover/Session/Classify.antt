-- ===== src/Failover/Session/Classify.antt =====
-- Which frames are live blocks (src/failover/core.rs): classify and block_hash. The LZ4 library's
-- decoder and the per-process hashes of bytes (one for a decompressed block, one for a frame that
-- does not decompress) are parameters.
use hypersync.Prelude.{
  ℕ, ◌||◌, not, Option, none, some, List, leb, ◌==◌, if◌then◌else◌, length, drop, get_or,
}
use hypersync.Protocol.BlockRound.{decompress_block, block_round_parent}

module _ (decompress_size_prepended : List ℕ → Option (List ℕ))
    (hash_block hash_frame : List ℕ → ℕ) where
  unfoldable pub block_hash : List ℕ → ℕ
  block_hash bytes = elim (decompress_block decompress_size_prepended (drop 5 bytes)) [
    | some dec ↦ hash_block dec
    | none ↦ hash_frame bytes
  ]

  unfoldable pub classify : List ℕ → Option (ℕ × ℕ × ℕ)
  unfolding block_hash
  classify bytes =
      if leb (length bytes) 5 || not (get_or bytes 4 0 == 1)
      then none
      else elim (block_round_parent decompress_size_prepended (drop 5 bytes)) [
        | none ↦ none
        | some (round, parent) ↦ some (round, parent, block_hash bytes)
      ]
