-- ===== src/Protocol/Tests.antt =====
-- Runs of the protocol's model, and each of its theorems at an input.
use hypersync.Prelude.{
  ℕ, ◌+◌, ◌/◌, ◌≡◌, ◌≢◌, ◌↔◌, ◌⊎◌, refl, sym, inl, inr, Bool, true, false, ◌&&◌, Option, none, some,
  List, [], ◌∷◌, if◌then◌else◌, ltb, ◌==◌, length, subst, Bool-cases, arith,
}
use hypersync.Protocol.Scan.{rd, triple_at, find_block_round_parent}
use hypersync.Protocol.Scan.First.{Explains, find_block_round_parent-Explains}
use hypersync.Protocol.Lz4.{
  read_len, pass, literal_part, offset_part, match_part, copy_match, lz4_loop, out_of_fuel,
  lz4_first_n,
}
use hypersync.Protocol.Lz4.Format.{Block, Length, extended, last_byte, last_sequence}
use hypersync.Protocol.Lz4.Fuel.{lz4_loop_total}
use hypersync.Protocol.Lz4.Decode.{lz4_first_n-Block}
use hypersync.Protocol.BlockRound.{
  declared_size_ok, decompress_block, block_round, block_round_parent, block_round_parent_full,
}
use hypersync.Protocol.BlockRound.Agree.{
  IsDecoder, block_round_parent-full, Oversized, Sized, decompress_block-Sized,
}
use hypersync.Protocol.Forward.{
  next_power_of_two, new, is_new, with_last_forwarded, admit_round, should_forward, forward_all,
}
use hypersync.Protocol.Forward.Monotone.{Ascends, forward_all-Ascends}
use hypersync.Protocol.Frames.{complete_frame_count}
use hypersync.Protocol.Frames.Count.{Framed, complete_frame_count-Framed}

-- Rounds 9, 8 and 7, tagged: the header of a block.
abbrev header : List ℕ
header = 0xfc ∷ 9 ∷ 0 ∷ 0 ∷ 0 ∷ 0xfc ∷ 8 ∷ 0 ∷ 0 ∷ 0 ∷ 0xfc ∷ 7 ∷ 0 ∷ 0 ∷ 0 ∷ []

-- It compresses to itself: one sequence of 15 literals.
abbrev packed : List ℕ
packed = 0xf0 ∷ 0 ∷ header

abbrev payload : List ℕ
payload = 15 ∷ 0 ∷ 0 ∷ 0 ∷ packed

packed-Block : Block packed [] header
packed-Block =
    last_sequence 0xf0 (0 ∷ header) header []
      (extended (0 ∷ header) 0 header refl (last_byte 0 header (omega arith)))

header_found : find_block_round_parent header ≡ some (9, 8)
unfolding find_block_round_parent triple_at rd
header_found = refl

packed_decoded : lz4_first_n packed 5 ≡ some (0xfc ∷ 9 ∷ 0 ∷ 0 ∷ 0 ∷ [])
unfolding lz4_first_n pass read_len literal_part
packed_decoded = refl

-- A match that overlaps itself: one literal, repeated five times.
overlap_decoded : lz4_first_n (0x11 ∷ 7 ∷ 1 ∷ 0 ∷ 0 ∷ []) 20 ≡ some (7 ∷ 7 ∷ 7 ∷ 7 ∷ 7 ∷ 7 ∷ [])
unfolding lz4_first_n pass read_len literal_part offset_part match_part copy_match
overlap_decoded = refl

-- A decoder for blocks of one sequence of 15 to 269 literals.
literals_only : List ℕ → Option (List ℕ)
literals_only (b0 ∷ b1 ∷ b2 ∷ b3 ∷ token ∷ ext ∷ literals) =
    if token / 16 == 15 && (ltb ext 255 && length literals == 15 + ext) then some literals else none
literals_only _ = none

literals-Block :
    (token ext : ℕ) (literals : List ℕ)
    → (token / 16 == 15 && (ltb ext 255 && length literals == 15 + ext)) ≡ true
    → Block (token ∷ ext ∷ literals) [] literals
literals-Block token ext literals h =
    let wide : token / 16 ≡ 15 = ground arith in
    let size : length literals ≡ 15 + ext = ground arith in
    last_sequence token (ext ∷ literals) literals [] (
      subst (λ n. Length (token / 16) (ext ∷ literals) n literals) (sym size)
        (extended (ext ∷ literals) ext literals wide (last_byte ext literals (ground arith))))

literals_only-IsDecoder : IsDecoder literals_only
unfolding literals_only
literals_only-IsDecoder (b0 ∷ b1 ∷ b2 ∷ b3 ∷ token ∷ ext ∷ literals) final e =
    elim (Bool-cases (token / 16 == 15 && (ltb ext 255 && length literals == 15 + ext))) [
      | inl fits ↦
          subst (Block (token ∷ ext ∷ literals) []) (same (rw fits at e))
            (literals-Block token ext literals fits)
      | inr other ↦ absurd (none≢some (rw other at e))
    ]
  where
    same : some literals ≡ some final → literals ≡ final
    same e = cc

    none≢some : none ≡ some final → ⊥
    none≢some = λ e. cc
literals_only-IsDecoder other final e = cc

find_block_round_parent-Explains_example : Explains header (find_block_round_parent header)
find_block_round_parent-Explains_example = find_block_round_parent-Explains header

lz4_loop_total_example : lz4_loop 18 5 packed [] ≢ out_of_fuel
lz4_loop_total_example = lz4_loop_total 18 5 packed [] (omega arith)

lz4_first_n-Block_example : lz4_first_n packed 5 ≡ some (0xfc ∷ 9 ∷ 0 ∷ 0 ∷ 0 ∷ [])
lz4_first_n-Block_example = lz4_first_n-Block packed header 5 (omega arith) packed-Block

decompressed : literals_only payload ≡ some header
unfolding literals_only
decompressed = refl

block_round_parent-full_example :
    block_round_parent literals_only payload ≡ block_round_parent_full literals_only payload
block_round_parent-full_example =
    block_round_parent-full literals_only literals_only-IsDecoder payload header decompressed

-- Both sides of it are the round and the parent that the header holds.
block_round_parent_found : block_round_parent_full literals_only payload ≡ some (9, 8)
unfolding block_round_parent_full decompress_block declared_size_ok literals_only
    find_block_round_parent triple_at rd
block_round_parent_found = refl

abbrev oversized : List ℕ
oversized = 255 ∷ 255 ∷ 255 ∷ 255 ∷ packed

-- Exactly 4,000,000 bytes are declared, and one more.
abbrev at_most : List ℕ
at_most = 0 ∷ 9 ∷ 61 ∷ 0 ∷ packed

abbrev one_more : List ℕ
one_more = 1 ∷ 9 ∷ 61 ∷ 0 ∷ packed

size_limit :
    (decompress_block literals_only at_most ≡ some header)
    × (decompress_block literals_only one_more ≡ none)
unfolding decompress_block declared_size_ok literals_only
size_limit = (refl, refl)

decompress_block-Sized_example :
    (Oversized oversized
      × (decompress_block literals_only oversized ≡ none)
      × (block_round literals_only oversized ≡ none)
      × (block_round_parent literals_only oversized ≡ none))
    ⊎ (Sized oversized × (decompress_block literals_only oversized ≡ literals_only oversized))
decompress_block-Sized_example = decompress_block-Sized literals_only oversized

-- A gap, an old round, the next round from another upstream, a jump from the active one.
abbrev calls : List (ℕ × Bool)
calls = (11, false) ∷ (10, true) ∷ (9, true) ∷ (12, false) ∷ (11, false) ∷ (15, true) ∷ []

forwarded : (forward_all (with_last_forwarded 4 0) calls).1 ≡ 10 ∷ 11 ∷ 15 ∷ []
unfolding forward_all with_last_forwarded new next_power_of_two should_forward admit_round is_new
forwarded = refl

forward_all-Ascends_example : Ascends 0 (forward_all (with_last_forwarded 4 0) calls).1
forward_all-Ascends_example = forward_all-Ascends 4 0 calls (omega arith) (omega arith)

abbrev two_frames : List ℕ
two_frames = 0 ∷ 0 ∷ 0 ∷ 2 ∷ 1 ∷ 5 ∷ 6 ∷ 0 ∷ 0 ∷ 0 ∷ 0 ∷ 2 ∷ []

frames_counted : complete_frame_count two_frames ≡ some 2
unfolding complete_frame_count
frames_counted = refl

complete_frame_count-Framed_example :
    (complete_frame_count two_frames ≡ some 2) ↔ Framed two_frames 2
complete_frame_count-Framed_example = complete_frame_count-Framed two_frames 2
