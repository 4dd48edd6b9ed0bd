-- ===== src/Protocol/Frames.antt =====
-- Frames in a captured byte stream (src/protocol.rs): complete_frame_count,
-- max_block_round_in_frames, response_is_peer_full. What is left of the buffer behind `off` is a list.
pub mod Count
use hypersync.Prelude.{
  ℕ, zero, suc, ◌+◌, ◌*◌, Bool, true, false, ◌&&◌, ◌||◌, Option, none, some, List, [], ◌∷◌, ◌++◌,
  leb, ltb, ◌==◌, if◌then◌else◌, length, take, drop, from_be_bytes,
}
use hypersync.Protocol.Rounds.{is_plausible_mainnet_round, max_live_frame}
use hypersync.Protocol.BlockRound.{block_round}
use hypersync.Protocol.Cluster.{max_clustered_round}

abbrev pub max_frame : ℕ
max_frame = 1_500_000_000

-- The loop of complete_frame_count. A frame takes five bytes at least, so the length of the buffer
-- is fuel enough.
unfoldable pub count_frames : ℕ → List ℕ → ℕ → Option ℕ
count_frames fuel [] frames = some frames
count_frames (suc fuel) (b0 ∷ b1 ∷ b2 ∷ b3 ∷ typ ∷ rest) frames =
    let len = from_be_bytes b0 b1 b2 b3 in
    let more = count_frames fuel (drop len rest) (frames + 1) in
    if ltb max_frame len then none else if ltb (length rest) len then none else more
count_frames fuel buf frames = none

unfoldable pub complete_frame_count : List ℕ → Option ℕ
unfolding count_frames
complete_frame_count buf = count_frames (length buf) buf 0

-- `haystack.windows(..).any(|w| w == needle)`.
unfoldable pub is_prefix : List ℕ → List ℕ → Bool
is_prefix [] ys = true
is_prefix (x ∷ xs) [] = false
is_prefix (x ∷ xs) (y ∷ ys) = x == y && is_prefix xs ys

unfoldable pub contains : List ℕ → List ℕ → Bool
unfolding is_prefix
contains needle [] = is_prefix needle []
contains needle (y ∷ ys) = is_prefix needle (y ∷ ys) || contains needle ys

-- b"Peer full"
abbrev pub peer_full : List ℕ
peer_full = b'P' ∷ b'e' ∷ b'e' ∷ b'r' ∷ 32 ∷ b'f' ∷ b'u' ∷ b'l' ∷ b'l' ∷ []

unfoldable pub response_is_peer_full : List ℕ → Bool
unfolding contains
response_is_peer_full (zero ∷ zero ∷ zero ∷ suc zero ∷ zero ∷ b ∷ []) = b == 4
response_is_peer_full payload = contains peer_full payload

module _ (decompress_size_prepended : List ℕ → Option (List ℕ)) where
  -- The round that one frame of the stream adds.
  unfoldable pub frame_round : ℕ → List ℕ → List ℕ
  frame_round typ payload =
      if typ == 1 && leb (length payload) max_live_frame
      then elim (block_round decompress_size_prepended payload) [
        | some round ↦ if is_plausible_mainnet_round round 0 then round ∷ [] else []
        | none ↦ []
      ]
      else []

  unfoldable pub rounds_in_frames : ℕ → List ℕ → List ℕ
  unfolding frame_round
  rounds_in_frames (suc fuel) (b0 ∷ b1 ∷ b2 ∷ b3 ∷ typ ∷ rest) =
      let len = from_be_bytes b0 b1 b2 b3 in
      let more = rounds_in_frames fuel (drop len rest) in
      if ltb (length rest) len then [] else frame_round typ (take len rest) ++ more
  rounds_in_frames fuel blob = []

  unfoldable pub max_block_round_in_frames : List ℕ → Option ℕ
  unfolding rounds_in_frames
  max_block_round_in_frames blob =
      max_clustered_round (rounds_in_frames (length blob) blob) 4 10_000
