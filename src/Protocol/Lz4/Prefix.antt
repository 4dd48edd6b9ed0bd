-- ===== src/Protocol/Lz4/Prefix.antt =====
-- A bounded decode of src/protocol.rs (lz4_first_n) gives a prefix of a longer one.
use hypersync.Prelude.{
  ℕ, ◌+◌, ◌-◌, ◌*◌, ◌/◌, ◌%◌, ◌≤◌, ◌<◌, ◌≡◌, ◌⊎◌, refl, inl, inr, Option, none, some, List, [], ◌∷◌,
  ◌++◌, length, take, drop, min, length-append, length-take, ltb, ◌==◌, ◌||◌, Bool-cases, arith,
}
use hypersync.Protocol.Lz4.{
  read_len, copy_match, Pass, stop, refuse, next, match_part, offset_part, literal_part, pass,
}
use hypersync.Protocol.Lz4.Grows.{
  Grows, finish, finish-Grows, lt→leb, le→leb, after_literals, after_literals-Grows, Grows-trans,
}
use hypersync.Protocol.Lz4.Extends.{
  Extends, Extends-under, length-copy_match, copy_match-add, take-take_le,
}

-- What a decode bounded by `n` gave, `xs`, is what one with more room gave, or a cut of it at `n`.
abbrev pub Cut : ℕ → List ℕ → List ℕ → Type 0
Cut n xs ys = (length xs ≤ n) × ((xs ≡ ys) ⊎ ((length xs ≡ n) × Extends xs ys))

-- The same pass under the bound `n` and with more room.
abbrev pub Agrees : ℕ → Pass → Pass → Type 0
Agrees n (stop xs) (stop ys) = Cut n xs ys
Agrees n (stop xs) refuse = Unit
Agrees n (stop xs) (next rest ys) = (length xs ≡ n) × Extends xs ys
Agrees n refuse q = q ≡ refuse
Agrees n (next rest xs) q = (length xs < n) × (q ≡ next rest xs)

-- A pass that is cut at the bound agrees with any that goes on from the cut.
pub Agrees-cut :
    (n : ℕ) (xs : List ℕ) (q : Pass) → length xs ≡ n → Grows xs q → Agrees n (stop xs) q
Agrees-cut n xs (stop ys) h g = (omega arith, inr (h, g))
Agrees-cut n xs refuse h g = tt
Agrees-cut n xs (next rest ys) h g = (h, g)

-- A match that the bound does not cut is the same with more room; one that it cuts fills the output.
copy-Agrees :
    (n m len offset : ℕ) (rest out : List ℕ)
    → n ≤ m
    → length out < n
    → Agrees n
        (finish n rest (copy_match (min len (n - length out)) offset out))
        (finish m rest (copy_match (min len (m - length out)) offset out))
copy-Agrees n m len offset rest out h lt = elim (Bool-cases (ltb len (n - length out))) [
  | inl short ↦
      let e : min len (n - length out) ≡ len = ground arith in
      let e' : min len (m - length out) ≡ len = ground arith in
      let l : length (copy_match len offset out) < n =
        ground (arith, length-copy_match len offset out) in
      rw
        (
          e,
          e',
          lt→leb n (length (copy_match len offset out)) l,
          lt→leb m (length (copy_match len offset out)) (omega arith),
        )
        (l, refl)
  | inr long ↦
      let l : length (copy_match (min len (n - length out)) offset out) ≡ n =
        ground (arith, length-copy_match (min len (n - length out)) offset out) in
      rw (le→leb n (length (copy_match (min len (n - length out)) offset out)) (omega arith)) (
        Agrees-cut n (copy_match (min len (n - length out)) offset out) _ l (
          finish-Grows m rest _ _ (
            copy_match-add (min len (n - length out)) (min len (m - length out)) offset out
              (omega arith))))
]

match_part-Agrees :
    (n m token offset : ℕ) (input out : List ℕ)
    → n ≤ m
    → length out < n
    → Agrees n (match_part n token offset input out) (match_part m token offset input out)
unfolding match_part
match_part-Agrees n m token offset input out h lt = go (read_len (token % 16) input)
  where
    go :
        (r : Option (ℕ × List ℕ))
        → Agrees n
            (elim r [
              | none ↦ refuse
              | some (mlen, rest) ↦
                  finish n rest (copy_match (min (mlen + 4) (n - length out)) offset out)
            ])
            (elim r [
              | none ↦ refuse
              | some (mlen, rest) ↦
                  finish m rest (copy_match (min (mlen + 4) (m - length out)) offset out)
            ])
    go none = refl
    go (some (mlen, rest)) = copy-Agrees n m (mlen + 4) offset rest out h lt

offset_part-Agrees :
    (n m token : ℕ) (input out : List ℕ)
    → n ≤ m
    → length out < n
    → Agrees n (offset_part n token input out) (offset_part m token input out)
unfolding offset_part
offset_part-Agrees n m token [] out h lt = (omega arith, inl refl)
offset_part-Agrees n m token (b0 ∷ []) out h lt = refl
offset_part-Agrees n m token (b0 ∷ b1 ∷ rest) out h lt =
    elim (Bool-cases (b0 + 256 * b1 == 0 || ltb (length out) (b0 + 256 * b1))) [
      | inl bad_offset ↦ rw bad_offset refl
      | inr fits ↦ rw fits (match_part-Agrees n m token (b0 + 256 * b1) rest out h lt)
    ]

literals-Agrees :
    (n m token lit : ℕ) (input out : List ℕ)
    → n ≤ m
    → length out < n
    → lit ≤ length input
    → Agrees n
        (after_literals n token (drop lit input) (out ++ take (min lit (n - length out)) input))
        (after_literals m token (drop lit input) (out ++ take (min lit (m - length out)) input))
literals-Agrees n m token lit input out h lt fits = elim (Bool-cases (ltb lit (n - length out))) [
  | inl short ↦
      let e : min lit (n - length out) ≡ lit = ground arith in
      let e' : min lit (m - length out) ≡ lit = ground arith in
      let l : length (out ++ take lit input) < n =
        ground (arith, length-append {0} out (take lit input), length-take {0} lit input) in
      rw
        (
          e,
          e',
          lt→leb n (length (out ++ take lit input)) l,
          lt→leb m (length (out ++ take lit input)) (omega arith),
        )
        (offset_part-Agrees n m token (drop lit input) (out ++ take lit input) h l)
  | inr long ↦
      let k : ℕ = min lit (n - length out) in
      let j : ℕ = min lit (m - length out) in
      let l : length (out ++ take k input) ≡ n =
        ground (arith, length-append {0} out (take k input), length-take {0} k input) in
      rw (le→leb n (length (out ++ take k input)) (omega arith)) (
        Agrees-cut n (out ++ take k input) _ l (
          Grows-trans (out ++ take k input) (out ++ take j input) _
            (Extends-under out _ _ (take-take_le k j input (omega arith)))
            (after_literals-Grows m token (drop lit input) (out ++ take j input))))
]

literal_part-Agrees :
    (n m token lit : ℕ) (input out : List ℕ)
    → n ≤ m
    → length out < n
    → Agrees n (literal_part n token lit input out) (literal_part m token lit input out)
unfolding literal_part
literal_part-Agrees n m token lit input out h lt = elim (Bool-cases (lit == 0)) [
  | inl zero_lit ↦ rw zero_lit (offset_part-Agrees n m token input out h lt)
  | inr some_lit ↦ elim (Bool-cases (ltb (length input) lit)) [
    | inl over ↦ rw (some_lit, over) refl
    | inr fits ↦ rw (some_lit, fits) (literals-Agrees n m token lit input out h lt (ground arith))
  ]
]

pub pass-Agrees :
    (n m token : ℕ) (input out : List ℕ)
    → n ≤ m
    → length out < n
    → Agrees n (pass n token input out) (pass m token input out)
unfolding pass
pass-Agrees n m token input out h lt = go (read_len (token / 16) input)
  where
    go :
        (r : Option (ℕ × List ℕ))
        → Agrees n
            (elim r [ none ↦ refuse | some (lit, rest) ↦ literal_part n token lit rest out ])
            (elim r [ none ↦ refuse | some (lit, rest) ↦ literal_part m token lit rest out ])
    go none = refl
    go (some (lit, rest)) = literal_part-Agrees n m token lit rest out h lt
