-- ===== src/Protocol/Lz4/Extends.antt =====
-- How the output of the decoder of src/protocol.rs (lz4_first_n) grows.
use hypersync.Prelude.{
  ℕ, zero, suc, ◌+◌, ◌-◌, ◌≤◌, ◌≡◌, refl, sym, ap, ◌∙◌, List, [], ◌∷◌, ◌++◌, append-nil,
  append_assoc, length, get_or, take, length-append, arith,
}
use hypersync.Protocol.Lz4.{copy_match}

-- `ys` goes on from `xs`.
abbrev pub Extends : List ℕ → List ℕ → Type 0
Extends xs ys = (zs : List ℕ) × (ys ≡ xs ++ zs)

pub Extends-refl : (xs : List ℕ) → Extends xs xs
Extends-refl xs = ([], sym (append-nil xs))

pub Extends-trans : (xs ys zs : List ℕ) → Extends xs ys → Extends ys zs → Extends xs zs
Extends-trans xs ys zs (a, p) (b, q) = (a ++ b, q ∙ ap (λ t. t ++ b) p ∙ append_assoc xs a b)

pub Extends-append : (xs ys : List ℕ) → Extends xs (xs ++ ys)
Extends-append xs ys = (ys, refl)

pub Extends-copy_match : (k offset : ℕ) (out : List ℕ) → Extends out (copy_match k offset out)
unfolding copy_match
Extends-copy_match zero offset out = Extends-refl out
Extends-copy_match (suc k) offset out =
    Extends-trans out (out ++ get_or out (length out - offset) 0 ∷ [])
      (copy_match k offset (out ++ get_or out (length out - offset) 0 ∷ []))
      (Extends-append out (get_or out (length out - offset) 0 ∷ []))
      (Extends-copy_match k offset (out ++ get_or out (length out - offset) 0 ∷ []))

pub length-copy_match :
    (k offset : ℕ) (out : List ℕ) → length (copy_match k offset out) ≡ length out + k
unfolding copy_match
length-copy_match zero offset out = omega arith
length-copy_match (suc k) offset out = omega (
  arith,
  length-copy_match k offset (out ++ get_or out (length out - offset) 0 ∷ []),
  length-append out (get_or out (length out - offset) 0 ∷ []),
)

-- A longer copy goes on from a shorter one.
pub copy_match-add :
    (j k offset : ℕ) (out : List ℕ)
    → j ≤ k
    → Extends (copy_match j offset out) (copy_match k offset out)
unfolding copy_match
copy_match-add zero k offset out h = Extends-copy_match k offset out
copy_match-add (suc j) zero offset out h = absurd (omega arith)
copy_match-add (suc j) (suc k) offset out h =
    copy_match-add j k offset (out ++ get_or out (length out - offset) 0 ∷ []) (omega arith)

pub take-take_le : (j k : ℕ) (xs : List ℕ) → j ≤ k → Extends (take j xs) (take k xs)
take-take_le zero k xs h = (take k xs, refl)
take-take_le (suc j) zero xs h = absurd (omega arith)
take-take_le (suc j) (suc k) [] h = Extends-refl []
take-take_le (suc j) (suc k) (x ∷ xs) h =
    let (zs, e) = take-take_le j k xs (omega arith) in (zs, ap (λ t. x ∷ t) e)

pub Extends-under : (out xs ys : List ℕ) → Extends xs ys → Extends (out ++ xs) (out ++ ys)
Extends-under out xs ys (zs, e) = (zs, ap (λ t. out ++ t) e ∙ sym (append_assoc out xs zs))

pub take-append : (xs zs : List ℕ) → take (length xs) (xs ++ zs) ≡ xs
take-append [] zs = refl
take-append (x ∷ xs) zs = ap (λ t. x ∷ t) (take-append xs zs)

pub take-of_Extends : (n : ℕ) (xs ys : List ℕ) → Extends xs ys → length xs ≡ n → take n ys ≡ xs
take-of_Extends n xs ys (zs, e) h = rw (e, ← h) (take-append xs zs)

pub take-of_le : (n : ℕ) (xs : List ℕ) → length xs ≤ n → take n xs ≡ xs
take-of_le zero [] h = refl
take-of_le zero (x ∷ xs) h = absurd (omega arith)
take-of_le (suc n) [] h = refl
take-of_le (suc n) (x ∷ xs) h = ap (λ t. x ∷ t) (take-of_le n xs (omega arith))
