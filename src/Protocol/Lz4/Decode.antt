-- ===== src/Protocol/Lz4/Decode.antt =====
-- The decoder of src/protocol.rs (lz4_first_n) on well-formed blocks.
use hypersync.Prelude.{
  ℕ, zero, suc, ◌+◌, ◌-◌, ◌*◌, ◌%◌, ◌≤◌, ◌<◌, ◌≡◌, ◌≢◌, ◌⊎◌, refl, sym, ap, ◌∙◌, inl, inr, false,
  some, List, [], ◌∷◌, ◌++◌, append-nil, append_assoc, length, get_or, take, drop, min,
  length-append, leb, ltb, ◌==◌, ◌||◌, arith,
}
use hypersync.Protocol.Lz4.{
  read_ext, read_len, copy_match, stop, next, match_part, offset_part, literal_part, pass, Decoded,
  done, bad, out_of_fuel, lz4_loop, lz4_first_n, bytes_of,
}
use hypersync.Protocol.Lz4.Format.{
  Extension, last_byte, more_bytes, Length, short, extended, IsMatch, Block, last_sequence,
  sequence,
}
use hypersync.Protocol.Lz4.Extends.{take-append, take-of_Extends, take-of_le}
use hypersync.Protocol.Lz4.Loop.{Same, lz4_loop-Same}
use hypersync.Protocol.Lz4.Fuel.{lz4_loop_total}

read_ext-Extension :
    {input : List ℕ} {len : ℕ} {rest : List ℕ} (base : ℕ)
    → Extension input len rest
    → read_ext base input ≡ some (base + len, rest)
unfolding read_ext
read_ext-Extension base (last_byte b rest h) = ground arith
read_ext-Extension base (more_bytes rest rest' len e) =
    ground (arith, read_ext-Extension (base + 255) e)

read_len-Length :
    {nibble : ℕ} {input : List ℕ} {len : ℕ} {rest : List ℕ}
    → Length nibble input len rest
    → read_len nibble input ≡ some (len, rest)
unfolding read_len
read_len-Length {nibble} (short input h) = ground arith
read_len-Length {nibble} (extended input len rest h e) = ground (arith, read_ext-Extension 15 e)

drop-append : (xs ys : List ℕ) → drop (length xs) (xs ++ ys) ≡ ys
drop-append [] ys = refl
drop-append (x ∷ xs) ys = drop-append xs ys

get_or-append_left :
    (xs ys : List ℕ) (i : ℕ) → i < length xs → get_or (xs ++ ys) i 0 ≡ get_or xs i 0
get_or-append_left [] ys i h = absurd (omega arith)
get_or-append_left (x ∷ xs) ys zero h = refl
get_or-append_left (x ∷ xs) ys (suc i) h = get_or-append_left xs ys i (omega arith)

-- The copy loop writes the one list of bytes that repeats what stands before it.
copy_match-IsMatch :
    (offset : ℕ) (out copied : List ℕ)
    → IsMatch out copied offset
    → copy_match (length copied) offset out ≡ out ++ copied
unfolding copy_match
copy_match-IsMatch offset out [] m = sym (append-nil out)
copy_match-IsMatch offset out (c ∷ cs) m =
    ap (λ (t : ℕ). copy_match (length cs) offset (out ++ t ∷ [])) (sym first)
    ∙ copy_match-IsMatch offset (out ++ c ∷ []) cs later
    ∙ append_assoc out (c ∷ []) cs
  where
    first : c ≡ get_or out (length out - offset) 0
    first =
        m.repeats 0 (omega arith)
        ∙ ap (λ t. get_or (out ++ c ∷ cs) t 0) (omega arith)
        ∙ get_or-append_left out (c ∷ cs) (length out - offset) (
            let p : 0 < offset = m.positive in
            let q : offset ≤ length out = m.inside in omega arith)

    grown : length (out ++ c ∷ []) ≡ suc (length out)
    grown = omega (arith, length-append out (c ∷ []))

    repeats :
        (i : ℕ)
        → i < length cs
        → get_or cs i 0 ≡ get_or ((out ++ c ∷ []) ++ cs) (length (out ++ c ∷ []) + i - offset) 0
    repeats i h =
        rw (append_assoc out (c ∷ []) cs, grown)
          (m.repeats (suc i) (omega arith) ∙ ap (λ t. get_or (out ++ c ∷ cs) t 0) (omega arith))

    later : IsMatch (out ++ c ∷ []) cs offset
    later = record {
      positive = m.positive;
      inside = (let q : offset ≤ length out = m.inside in omega (arith, grown));
      repeats = repeats;
    }

take_all : (n : ℕ) (xs ys : List ℕ) → n ≡ length xs → take n (xs ++ ys) ≡ xs
take_all n xs ys e = rw e (take-append xs ys)

-- With room for all of them the literals are copied, and the pass goes on behind them.
literal_part-all :
    (m token : ℕ) (literals tail out : List ℕ)
    → length (out ++ literals) < m
    → literal_part m token (length literals) (literals ++ tail) out
      ≡ offset_part m token tail (out ++ literals)
unfolding literal_part
literal_part-all m token [] tail out h = rw (append-nil out) refl
literal_part-all m token (l ∷ ls) tail out h =
    let nonzero : (length (l ∷ ls) == 0) ≡ false = ground arith in
    let fits : ltb (length ((l ∷ ls) ++ tail)) (length (l ∷ ls)) ≡ false =
      ground (arith, length-append {0} (l ∷ ls) tail) in
    let room : min (length (l ∷ ls)) (m - length out) ≡ length (l ∷ ls) =
      omega (arith, length-append {0} out (l ∷ ls)) in
    let short_of : leb m (length (out ++ l ∷ ls)) ≡ false = ground arith in
    rw (
      nonzero,
      fits,
      room,
      take_all (length (l ∷ ls)) (l ∷ ls) tail refl,
      drop-append (l ∷ ls) tail,
      short_of,
    )

-- So is a match.
match_part-all :
    (m token offset mlen : ℕ) (input rest out copied : List ℕ)
    → Length (token % 16) input mlen rest
    → length copied ≡ mlen + 4
    → IsMatch out copied offset
    → length (out ++ copied) < m
    → match_part m token offset input out ≡ next rest (out ++ copied)
unfolding match_part
match_part-all m token offset mlen input rest out copied len size mt h =
    let room : min (mlen + 4) (m - length out) ≡ length copied =
      omega (arith, length-append {0} out copied) in
    let short_of : leb m (length (out ++ copied)) ≡ false = ground arith in
    rw (read_len-Length len, match_part, room, copy_match-IsMatch offset out copied mt, short_of)

offset_part-all :
    (m token b0 b1 mlen : ℕ) (input rest out copied : List ℕ)
    → Length (token % 16) input mlen rest
    → length copied ≡ mlen + 4
    → IsMatch out copied (b0 + 256 * b1)
    → length (out ++ copied) < m
    → offset_part m token (b0 ∷ b1 ∷ input) out ≡ next rest (out ++ copied)
unfolding offset_part
offset_part-all m token b0 b1 mlen input rest out copied len size mt h =
    let fits : (b0 + 256 * b1 == 0 || ltb (length out) (b0 + 256 * b1)) ≡ false = ground arith in
    rw fits (match_part-all m token (b0 + 256 * b1) mlen input rest out copied len size mt h)

Block-Extends : {input out final : List ℕ} → Block input out final → length out ≤ length final
Block-Extends (last_sequence token input literals out len) =
    omega (arith, length-append out literals)
Block-Extends
      (sequence token input literals b0 b1 rest mlen rest' out copied final l l' size mt b) =
    omega
      (arith, Block-Extends b, length-append out literals, length-append (out ++ literals) copied)

literal_part-last :
    (m token : ℕ) (literals out : List ℕ)
    → length (out ++ literals) < m
    → literal_part m token (length literals) literals out ≡ stop (out ++ literals)
unfolding offset_part
literal_part-last m token literals out h =
    ap (λ t. literal_part m token (length literals) t out) (sym (append-nil literals))
    ∙ literal_part-all m token literals [] out h

-- With room for the whole block the loop gives it, if its fuel lasts.
Block-lz4_loop :
    {input out final : List ℕ} (fuel m : ℕ)
    → Block input out final
    → length final < m
    → (lz4_loop fuel m input out ≡ out_of_fuel) ⊎ (lz4_loop fuel m input out ≡ done final)
unfolding lz4_loop pass
Block-lz4_loop zero m b h = inl refl
Block-lz4_loop (suc fuel) m (last_sequence token input literals out len) h =
    inr (rw (read_len-Length len, lz4_loop, pass, literal_part-last m token literals out h))
Block-lz4_loop (suc fuel) m
      (sequence token input literals b0 b1 rest mlen rest' out copied final l l' size mt b) h =
    rw
      (
        read_len-Length l,
        lz4_loop,
        pass,
        literal_part-all m token literals (b0 ∷ b1 ∷ rest) out
            (omega (arith, Block-Extends b, length-append (out ++ literals) copied)),
        offset_part-all m token b0 b1 mlen rest rest' (out ++ literals) copied l' size mt
            (omega (arith, Block-Extends b)),
      )
      (Block-lz4_loop fuel m b h)

-- On a well-formed block the bounded decode succeeds, and gives the block's first `n` bytes.
pub lz4_first_n-Block :
    (input final : List ℕ) (n : ℕ)
    → 0 < n
    → Block input [] final
    → lz4_first_n input n ≡ some (take n final)
unfolding lz4_first_n
lz4_first_n-Block input final n pos b = elim (Block-lz4_loop fuel m b (omega arith)) [
  | inl stuck ↦ absurd (lz4_loop_total fuel m input [] (omega arith) stuck)
  | inr whole ↦ ap bytes_of (
      cut (lz4_loop fuel n input []) (lz4_loop_total fuel n input [] (omega arith))
        (rw whole at (lz4_loop-Same fuel n m input [] (omega arith) (omega arith))))
]
  where
    fuel : ℕ
    fuel = suc (length input)

    m : ℕ
    m = n + suc (length final)

    cut : (r : Decoded) → r ≢ out_of_fuel → Same n r (done final) → r ≡ done (take n final)
    cut (done xs) ne (small, inl e) = ap done (sym (take-of_le n xs small) ∙ ap (take n) e)
    cut (done xs) ne (small, inr (full, ext)) = ap done (sym (take-of_Extends n xs final ext full))
    cut bad ne s = cc
    cut out_of_fuel ne s = absurd (ne refl)
