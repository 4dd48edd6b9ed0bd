-- ===== src/Protocol/Lz4/Format.antt =====
-- The LZ4 block format, as a relation between a compressed block and its bytes: what the bounded
-- decoder of src/protocol.rs is measured against.
use hypersync.Prelude.{
  ℕ, ◌+◌, ◌-◌, ◌*◌, ◌/◌, ◌%◌, ◌≤◌, ◌<◌, ◌≡◌, ◌≢◌, List, ◌∷◌, ◌++◌, length, get_or,
}

-- Extension bytes: any number of 255, then one that is not.
pub data Extension : List ℕ → ℕ → List ℕ → Type 0 where
  last_byte : (b : ℕ) (rest : List ℕ) → b ≢ 255 → Extension (b ∷ rest) b rest
  more_bytes :
      (rest rest' : List ℕ) (len : ℕ)
      → Extension rest len rest'
      → Extension (255 ∷ rest) (255 + len) rest'

-- A length: its nibble if that is below 15, and else 15 and the extension bytes.
pub data Length (nibble : ℕ) : List ℕ → ℕ → List ℕ → Type 0 where
  short : (input : List ℕ) → nibble ≢ 15 → Length nibble input nibble input
  extended :
      (input : List ℕ) (len : ℕ) (rest : List ℕ)
      → nibble ≡ 15
      → Extension input len rest
      → Length nibble input (15 + len) rest

-- `copied` repeats what stands `offset` bytes before it, itself included.
pub record IsMatch (out copied : List ℕ) (offset : ℕ) : Type 0 where
  pub positive : 0 < offset
  pub inside : offset ≤ length out
  pub repeats :
      (i : ℕ)
      → i < length copied
      → get_or copied i 0 ≡ get_or (out ++ copied) (length out + i - offset) 0

-- `Block input out final`: behind the bytes `out`, the block `input` gives `final`. Sequences of
-- literals and a match, and at the end a sequence of literals only.
pub data Block : List ℕ → List ℕ → List ℕ → Type 0 where
  last_sequence :
      (token : ℕ) (input literals out : List ℕ)
      → Length (token / 16) input (length literals) literals
      → Block (token ∷ input) out (out ++ literals)
  sequence :
      (token : ℕ) (input literals : List ℕ) (b0 b1 : ℕ) (rest : List ℕ) (mlen : ℕ)
      (rest' out copied final : List ℕ)
      → Length (token / 16) input (length literals) (literals ++ (b0 ∷ b1 ∷ rest))
      → Length (token % 16) rest mlen rest'
      → length copied ≡ mlen + 4
      → IsMatch (out ++ literals) copied (b0 + 256 * b1)
      → Block rest' ((out ++ literals) ++ copied) final
      → Block (token ∷ input) out final
