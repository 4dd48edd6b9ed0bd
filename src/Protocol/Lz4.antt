-- ===== src/Protocol/Lz4.antt =====
-- The bounded LZ4 block decode (src/protocol.rs, lz4_first_n). The input still unread is a list,
-- and so are the bytes written so far: `ip` and `op` are what is gone of the one and the length of
-- the other.
mod Extends
mod Grows
mod Loop
pub mod Format
pub mod Decode
mod Prefix
pub mod Fuel
use hypersync.Prelude.{
  ℕ, zero, suc, ◌+◌, ◌-◌, ◌*◌, ◌/◌, ◌%◌, true, false, ◌||◌, Option, none, some, List, [], ◌∷◌, ◌++◌,
  leb, ltb, ◌==◌, if◌then◌else◌, length, get_or, take, drop, min,
}

-- The loop that adds extension bytes to a length of 15: up to and with the first that is not 255.
unfoldable pub read_ext : ℕ → List ℕ → Option (ℕ × List ℕ)
read_ext len [] = none
read_ext len (b ∷ rest) = elim (b == 255) [
  | true ↦ read_ext (len + b) rest
  | false ↦ some (len + b, rest)
]

unfoldable pub read_len : ℕ → List ℕ → Option (ℕ × List ℕ)
unfolding read_ext
read_len nibble input = if nibble == 15 then read_ext 15 input else some (nibble, input)

-- `out[op] = out[op - offset]`, so often: a match may overlap what it writes.
unfoldable pub copy_match : ℕ → ℕ → List ℕ → List ℕ
copy_match zero offset out = out
copy_match (suc k) offset out = copy_match k offset (out ++ get_or out (length out - offset) 0 ∷ [])

-- One pass of the loop: it returns from the function, with bytes or with `None`, or goes on.
pub data Pass : Type 0 where
  stop : List ℕ → Pass
  refuse : Pass
  next : List ℕ → List ℕ → Pass

-- From the match length on.
unfoldable pub match_part : ℕ → ℕ → ℕ → List ℕ → List ℕ → Pass
match_part n token offset input out = elim (read_len (token % 16) input) [
  | none ↦ refuse
  | some (mlen, rest) ↦
      let out' = copy_match (min (mlen + 4) (n - length out)) offset out in
      if leb n (length out') then stop out' else next rest out'
]

-- From the end of the literals on.
unfoldable pub offset_part : ℕ → ℕ → List ℕ → List ℕ → Pass
offset_part n token [] out = stop out
offset_part n token (b0 ∷ []) out = refuse
offset_part n token (b0 ∷ b1 ∷ rest) out =
    let offset = b0 + 256 * b1 in
    if offset == 0 || ltb (length out) offset then refuse else match_part n token offset rest out

-- The literals.
unfoldable pub literal_part : ℕ → ℕ → ℕ → List ℕ → List ℕ → Pass
literal_part n token lit input out =
    if lit == 0
    then offset_part n token input out
    else if ltb (length input) lit
    then refuse
    else let out' = out ++ take (min lit (n - length out)) input in
      if leb n (length out') then stop out' else offset_part n token (drop lit input) out'

unfoldable pub pass : ℕ → ℕ → List ℕ → List ℕ → Pass
pass n token input out = elim (read_len (token / 16) input) [
  | none ↦ refuse
  | some (lit, rest) ↦ literal_part n token lit rest out
]

-- What the loop returns. `out_of_fuel` is of the model only, and is never reached.
pub data Decoded : Type 0 where
  done : List ℕ → Decoded
  bad : Decoded
  out_of_fuel : Decoded

unfoldable pub lz4_loop : ℕ → ℕ → List ℕ → List ℕ → Decoded
lz4_loop zero n input out = out_of_fuel
lz4_loop (suc fuel) n [] out = done out
lz4_loop (suc fuel) n (token ∷ input) out = elim (pass n token input out) [
  | stop result ↦ done result
  | refuse ↦ bad
  | next rest out' ↦ lz4_loop fuel n rest out'
]

abbrev pub bytes_of : Decoded → Option (List ℕ)
bytes_of (done out) = some out
bytes_of bad = none
bytes_of out_of_fuel = none

-- The first `n` bytes of the block: every pass takes the token at least, so the length of the
-- input bounds the passes.
unfoldable pub lz4_first_n : List ℕ → ℕ → Option (List ℕ)
unfolding lz4_loop
lz4_first_n input n = bytes_of (lz4_loop (suc (length input)) n input [])
