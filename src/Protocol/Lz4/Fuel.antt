-- ===== src/Protocol/Lz4/Fuel.antt =====
-- Every pass of the LZ4 decoder (src/protocol.rs, lz4_first_n) consumes input, so the length of the
-- input bounds the passes.
use hypersync.Prelude.{
  ℕ, zero, suc, ◌+◌, ◌-◌, ◌*◌, ◌/◌, ◌%◌, ◌≤◌, ◌<◌, ◌≢◌, Option, none, some, List, [], ◌∷◌, ◌++◌,
  length, drop, take, min, length-drop, arith,
}
use hypersync.Protocol.Lz4.{
  read_ext, read_len, Pass, stop, refuse, next, match_part, offset_part, literal_part, pass,
  out_of_fuel, lz4_loop,
}

-- The rest of the input that a pass leaves is no longer than `bound`.
abbrev Leaves : ℕ → Pass → Type 0
Leaves bound (stop out) = Unit
Leaves bound refuse = Unit
Leaves bound (next rest out) = length rest ≤ bound

abbrev Shrinks : ℕ → Option (ℕ × List ℕ) → Type 0
Shrinks bound none = Unit
Shrinks bound (some (n, rest)) = length rest ≤ bound

read_ext-Shrinks : (len : ℕ) (input : List ℕ) → Shrinks (length input) (read_ext len input)
unfolding read_ext
read_ext-Shrinks len [] = tt
read_ext-Shrinks len (b ∷ rest) = ground (arith, read_ext-Shrinks (len + b) rest)

read_len-Shrinks : (nibble : ℕ) (input : List ℕ) → Shrinks (length input) (read_len nibble input)
unfolding read_len
read_len-Shrinks nibble input = ground (arith, read_ext-Shrinks 15 input)

match_part-Leaves :
    (n token offset : ℕ) (input out : List ℕ)
    → Leaves (length input) (match_part n token offset input out)
unfolding match_part
match_part-Leaves n token offset input out = ground (arith, read_len-Shrinks (token % 16) input)

offset_part-Leaves :
    (n token : ℕ) (input out : List ℕ) → Leaves (length input) (offset_part n token input out)
unfolding offset_part
offset_part-Leaves n token [] out = tt
offset_part-Leaves n token (b0 ∷ []) out = tt
offset_part-Leaves n token (b0 ∷ b1 ∷ rest) out =
    ground (arith, match_part-Leaves n token (b0 + 256 * b1) rest out)

literal_part-Leaves :
    (n token lit : ℕ) (input out : List ℕ)
    → Leaves (length input) (literal_part n token lit input out)
unfolding literal_part
literal_part-Leaves n token lit input out = ground (
  arith,
  offset_part-Leaves n token input out,
  offset_part-Leaves n token (drop lit input) (out ++ take (min lit (n - length out)) input),
  length-drop {0} lit input,
)

pass-Leaves : (n token : ℕ) (input out : List ℕ) → Leaves (length input) (pass n token input out)
unfolding pass
pass-Leaves n token input out =
    grind (arith, read_len-Shrinks (token / 16) input, literal_part-Leaves)

-- With more fuel than input the decoder's loop never stops for want of fuel.
pub lz4_loop_total :
    (fuel n : ℕ) (input out : List ℕ)
    → length input < fuel
    → lz4_loop fuel n input out ≢ out_of_fuel
unfolding lz4_loop
lz4_loop_total zero n input out h = absurd (omega arith)
lz4_loop_total (suc fuel) n [] out h = λ e. cc
lz4_loop_total (suc fuel) n (token ∷ input) out h =
    grind (arith, pass-Leaves n token input out, lz4_loop_total fuel n)
