-- ===== src/Protocol/Lz4/Grows.antt =====
-- Every pass of the decoder of src/protocol.rs (lz4_first_n) only adds to its output.
use hypersync.Prelude.{
  ℕ, ◌+◌, ◌-◌, ◌*◌, ◌/◌, ◌%◌, ◌≤◌, ◌<◌, ◌≡◌, inl, inr, true, false, Option, none, some, List, [],
  ◌∷◌, ◌++◌, length, take, drop, min, leb, ltb, ◌==◌, ◌||◌, if◌then◌else◌, Bool-cases, arith,
}
use hypersync.Protocol.Lz4.{
  read_len, copy_match, Pass, stop, refuse, next, match_part, offset_part, literal_part, pass,
}
use hypersync.Protocol.Lz4.Extends.{
  Extends, Extends-refl, Extends-trans, Extends-append, Extends-copy_match,
}

-- A pass goes on from the bytes written before it.
abbrev pub Grows : List ℕ → Pass → Type 0
Grows out (stop ys) = Extends out ys
Grows out refuse = Unit
Grows out (next rest ys) = Extends out ys

-- The end of a pass: it stops when the output is full.
abbrev pub finish : ℕ → List ℕ → List ℕ → Pass
finish n rest out = if leb n (length out) then stop out else next rest out

pub lt→leb : (a b : ℕ) → b < a → leb a b ≡ false
lt→leb a b h = ground arith

pub le→leb : (a b : ℕ) → a ≤ b → leb a b ≡ true
le→leb a b h = ground arith

pub finish-Grows : (n : ℕ) (rest out ys : List ℕ) → Extends out ys → Grows out (finish n rest ys)
finish-Grows n rest out ys e = elim (Bool-cases (leb n (length ys))) [
  | inl full ↦ rw full e
  | inr room ↦ rw room e
]

pub match_part-Grows :
    (n token offset : ℕ) (input out : List ℕ) → Grows out (match_part n token offset input out)
unfolding match_part
match_part-Grows n token offset input out = go (read_len (token % 16) input)
  where
    go :
        (r : Option (ℕ × List ℕ))
        → Grows out (elim r [
          | none ↦ refuse
          | some (mlen, rest) ↦
              finish n rest (copy_match (min (mlen + 4) (n - length out)) offset out)
        ])
    go none = tt
    go (some (mlen, rest)) =
        finish-Grows n rest out (copy_match (min (mlen + 4) (n - length out)) offset out)
          (Extends-copy_match (min (mlen + 4) (n - length out)) offset out)

pub offset_part-Grows :
    (n token : ℕ) (input out : List ℕ) → Grows out (offset_part n token input out)
unfolding offset_part
offset_part-Grows n token [] out = Extends-refl out
offset_part-Grows n token (b0 ∷ []) out = tt
offset_part-Grows n token (b0 ∷ b1 ∷ rest) out =
    elim (Bool-cases (b0 + 256 * b1 == 0 || ltb (length out) (b0 + 256 * b1))) [
      | inl bad_offset ↦ rw bad_offset tt
      | inr fits ↦ rw fits (match_part-Grows n token (b0 + 256 * b1) rest out)
    ]

-- The literals once their length is known: the output may be full, else the match follows.
abbrev pub after_literals : ℕ → ℕ → List ℕ → List ℕ → Pass
after_literals n token rest out =
    if leb n (length out) then stop out else offset_part n token rest out

pub after_literals-Grows :
    (n token : ℕ) (rest out : List ℕ) → Grows out (after_literals n token rest out)
after_literals-Grows n token rest out = elim (Bool-cases (leb n (length out))) [
  | inl full ↦ rw full (Extends-refl out)
  | inr room ↦ rw room (offset_part-Grows n token rest out)
]

pub Grows-trans : (xs ys : List ℕ) (q : Pass) → Extends xs ys → Grows ys q → Grows xs q
Grows-trans xs ys (stop zs) e g = Extends-trans xs ys zs e g
Grows-trans xs ys refuse e g = tt
Grows-trans xs ys (next rest zs) e g = Extends-trans xs ys zs e g

pub literal_part-Grows :
    (n token lit : ℕ) (input out : List ℕ) → Grows out (literal_part n token lit input out)
unfolding literal_part
literal_part-Grows n token lit input out = elim (Bool-cases (lit == 0)) [
  | inl zero_lit ↦ rw zero_lit (offset_part-Grows n token input out)
  | inr some_lit ↦ elim (Bool-cases (ltb (length input) lit)) [
    | inl over ↦ rw (some_lit, over) tt
    | inr fits ↦
        let out' : List ℕ = out ++ take (min lit (n - length out)) input in
        rw (some_lit, fits)
          (Grows-trans out out' _ (Extends-append out (take (min lit (n - length out)) input))
            (after_literals-Grows n token (drop lit input) out'))
  ]
]

pub pass-Grows : (n token : ℕ) (input out : List ℕ) → Grows out (pass n token input out)
unfolding pass
pass-Grows n token input out = go (read_len (token / 16) input)
  where
    go :
        (r : Option (ℕ × List ℕ))
        → Grows out
            (elim r [ none ↦ refuse | some (lit, rest) ↦ literal_part n token lit rest out ])
    go none = tt
    go (some (lit, rest)) = literal_part-Grows n token lit rest out
