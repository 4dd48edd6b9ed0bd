-- ===== src/Protocol/BlockRound/Agree.antt =====
-- The bounded decode of src/protocol.rs (block_round) against the full one (block_round_full).
use hypersync.Prelude.{
  ℕ, ◌+◌, ◌*◌, ◌<◌, ◌≤◌, ◌≡◌, ◌⊎◌, from_le_bytes, ◌∷◌, refl, sym, ap, ◌∙◌, inl, inr, Bool, true,
  false, not, ◌||◌, ◌&&◌, Option, none, some, List, [], length, take, drop, leb, ltb, Bool-cases,
  arith,
}
use mathlib.Core.Option
use hypersync.Protocol.Lz4.{lz4_first_n}
use hypersync.Protocol.Lz4.Format.{Block}
use hypersync.Protocol.Lz4.Decode.{lz4_first_n-Block}
use hypersync.Protocol.Scan.{find_block_round, find_block_round_parent, round_scan_bytes}
use hypersync.Protocol.Scan.Bounded.{find_block_round_parent-take}
use hypersync.Protocol.BlockRound.{
  declared_size_ok, decompress_block, block_round, block_round_full, block_round_parent,
  block_round_parent_full, max_decompressed_block,
}

-- What the code relies on of the LZ4 library: a payload that it decompresses is a well-formed block
-- behind the size prefix, of the bytes that it returns.
abbrev pub IsDecoder : (List ℕ → Option (List ℕ)) → Type 0
IsDecoder decompress =
    (payload final : List ℕ) → decompress payload ≡ some final → Block (drop 4 payload) [] final

and-true : (a b : Bool) → (a && b) ≡ true → b ≡ true
and-true a b h = ground arith

or-false : (a b : Bool) → (a || not b) ≡ false → b ≡ true
or-false a b h = ground arith

module _ (decompress : List ℕ → Option (List ℕ)) (decodes : IsDecoder decompress) where
  -- The bounded decode of a payload that decompresses.
  bounded :
      (payload final : List ℕ)
      → decompress payload ≡ some final
      → lz4_first_n (drop 4 payload) round_scan_bytes ≡ some (take round_scan_bytes final)
  bounded payload final e =
      lz4_first_n-Block (drop 4 payload) final round_scan_bytes (omega arith)
        (decodes payload final e)

  parent_full :
      (payload final : List ℕ)
      → decompress payload ≡ some final
      → declared_size_ok payload ≡ true
      → block_round_parent_full decompress payload ≡ find_block_round_parent final
  unfolding block_round_parent_full decompress_block
  parent_full payload final e ok = rw (ok, e, block_round_parent_full, decompress_block) refl

  round_full :
      (payload final : List ℕ)
      → decompress payload ≡ some final
      → declared_size_ok payload ≡ true
      → block_round_full decompress payload ≡ find_block_round final
  unfolding block_round_full decompress_block
  round_full payload final e ok = rw (ok, e, block_round_full, decompress_block) refl

  -- For every payload that the LZ4 library decompresses, the bounded header decode finds the round
  -- and parent that the full decode finds.
  pub block_round_parent-full :
      (payload final : List ℕ)
      → decompress payload ≡ some final
      → block_round_parent decompress payload ≡ block_round_parent_full decompress payload
  unfolding block_round_parent
  block_round_parent-full payload final e =
      elim (Bool-cases (leb 5 (length payload) && declared_size_ok payload)) [
        | inl guarded ↦
            rw (guarded, bounded payload final e)
              (find_block_round_parent-take round_scan_bytes final (omega arith)
                ∙ sym (parent_full payload final e (and-true (leb 5 (length payload)) _ guarded)))
        | inr open_end ↦ rw open_end refl
      ]

  find_block_round-take :
      (final : List ℕ) → find_block_round (take round_scan_bytes final) ≡ find_block_round final
  unfolding find_block_round
  find_block_round-take final =
      ap (Option.map (λ (p : ℕ × ℕ). p.0))
        (find_block_round_parent-take round_scan_bytes final (omega arith))

  -- So does the decode of the round alone.
  pub block_round-full :
      (payload final : List ℕ)
      → decompress payload ≡ some final
      → block_round decompress payload ≡ block_round_full decompress payload
  unfolding block_round
  block_round-full payload final e =
      elim (Bool-cases (ltb (length payload) 5 || not (declared_size_ok payload))) [
        | inl refused ↦ rw refused refl
        | inr guarded ↦
            rw (guarded, bounded payload final e)
              (find_block_round-take final
                ∙ sym (round_full payload final e (or-false (ltb (length payload) 5) _ guarded)))
      ]

module _ (decompress : List ℕ → Option (List ℕ)) (payload : List ℕ) where
  oversized_content : declared_size_ok payload ≡ false → decompress_block decompress payload ≡ none
  unfolding decompress_block
  oversized_content h = rw h refl

  oversized_full : declared_size_ok payload ≡ false → block_round_full decompress payload ≡ none
  unfolding block_round_full
  oversized_full h = rw (oversized_content h, block_round_full) refl

  oversized_parent_full :
      declared_size_ok payload ≡ false → block_round_parent_full decompress payload ≡ none
  unfolding block_round_parent_full
  oversized_parent_full h = rw (oversized_content h, block_round_parent_full) refl

  oversized_round : declared_size_ok payload ≡ false → block_round decompress payload ≡ none
  unfolding block_round
  oversized_round h = elim (Bool-cases (ltb (length payload) 5)) [
    | inl few ↦ rw few (oversized_full h)
    | inr enough ↦ rw (enough, h) (oversized_full h)
  ]

  oversized_parent : declared_size_ok payload ≡ false → block_round_parent decompress payload ≡ none
  unfolding block_round_parent
  oversized_parent h = elim (Bool-cases (leb 5 (length payload))) [
    | inl enough ↦ rw (enough, h) (oversized_parent_full h)
    | inr few ↦ rw few (oversized_parent_full h)
  ]

-- The payload declares no size, or one of more than 4,000,000 bytes.
abbrev pub Oversized : List ℕ → Type 0
Oversized (b0 ∷ b1 ∷ b2 ∷ b3 ∷ rest) = 4_000_000 < b0 + 256 * b1 + 65_536 * b2 + 16_777_216 * b3
Oversized _ = Unit

-- It declares a size of at most 4,000,000 bytes.
abbrev pub Sized : List ℕ → Type 0
Sized (b0 ∷ b1 ∷ b2 ∷ b3 ∷ rest) = b0 + 256 * b1 + 65_536 * b2 + 16_777_216 * b3 ≤ 4_000_000
Sized _ = ⊥

declared :
    (payload : List ℕ)
    → (Oversized payload × (declared_size_ok payload ≡ false))
      ⊎ (Sized payload × (declared_size_ok payload ≡ true))
unfolding declared_size_ok
declared [] = inl (tt, refl)
declared (b0 ∷ []) = inl (tt, refl)
declared (b0 ∷ b1 ∷ []) = inl (tt, refl)
declared (b0 ∷ b1 ∷ b2 ∷ []) = inl (tt, refl)
declared (b0 ∷ b1 ∷ b2 ∷ b3 ∷ rest) =
    elim (Bool-cases (leb (from_le_bytes b0 b1 b2 b3) max_decompressed_block)) [
      | inl fits ↦ inr (ground arith, fits)
      | inr large ↦ inl (ground arith, large)
    ]

sized_content :
    (decompress : List ℕ → Option (List ℕ)) (payload : List ℕ)
    → declared_size_ok payload ≡ true
    → decompress_block decompress payload ≡ decompress payload
unfolding decompress_block
sized_content decompress payload h = rw h refl

-- A payload either has no size in its first four bytes or declares more than 4,000,000 bytes there,
-- and then it has no content, round or parent, whatever the LZ4 library would make of it; or it
-- declares at most that many, and then its content is what the library makes of it.
pub decompress_block-Sized :
    (decompress : List ℕ → Option (List ℕ)) (payload : List ℕ)
    → (Oversized payload
        × (decompress_block decompress payload ≡ none)
        × (block_round decompress payload ≡ none)
        × (block_round_parent decompress payload ≡ none))
      ⊎ (Sized payload × (decompress_block decompress payload ≡ decompress payload))
decompress_block-Sized decompress payload = elim (declared payload) [
  | inl (over, e) ↦ inl (
    over,
    oversized_content decompress payload e,
    oversized_round decompress payload e,
    oversized_parent decompress payload e,
  )
  | inr (within, e) ↦ inr (within, sized_content decompress payload e)
]
