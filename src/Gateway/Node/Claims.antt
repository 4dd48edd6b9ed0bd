-- ===== src/Gateway/Node/Claims.antt =====
-- Rate limits of a node (src/gateway/node.rs, claim_every).
use hypersync.Prelude.{
  ℕ, ◌-◌, ◌≤◌, ◌≡◌, Option, none, some, List, [], ◌∷◌, ltb, if◌then◌else◌, inl, inr, Bool-cases,
  refl, arith,
}
use hypersync.Gateway.Node.{claim_every}

-- The last claim and all claims, newest first, after attempts at the times, newest first.
abbrev pub claim_all : ℕ → List ℕ → Option ℕ × List ℕ
claim_all every [] = (none, [])
claim_all every (now ∷ older) =
    let (last, claims) = claim_all every older in
    let (last', claimed) = claim_every last now every in
    (last', if claimed then now ∷ claims else claims)

abbrev pub Spaced : ℕ → List ℕ → Type 0
Spaced every [] = Unit
Spaced every (t ∷ []) = Unit
Spaced every (t ∷ u ∷ older) = (every ≤ t - u) × Spaced every (u ∷ older)

-- `last` is the newest of the claims.
abbrev Newest : Option ℕ → List ℕ → Type 0
Newest none [] = Unit
Newest none (t ∷ older) = ⊥
Newest (some t) [] = ⊥
Newest (some t) (u ∷ older) = t ≡ u

claim_every-Spaced :
    (every now : ℕ) (last : Option ℕ) (claims : List ℕ)
    → Newest last claims
    → Spaced every claims
    → Newest
        (claim_every last now every).0
        (if (claim_every last now every).1 then now ∷ claims else claims)
      × Spaced every (if (claim_every last now every).1 then now ∷ claims else claims)
unfolding claim_every
claim_every-Spaced every now none [] n s = (refl, tt)
claim_every-Spaced every now none (u ∷ older) n s = elim n [ ]
claim_every-Spaced every now (some t) [] n s = elim n [ ]
claim_every-Spaced every now (some t) (u ∷ older) n s = elim (Bool-cases (ltb (now - t) every)) [
  | inl recent ↦ rw (recent, Newest, Spaced) (n, s)
  | inr allowed ↦ rw (allowed, Newest, Spaced) (refl, (ground arith, s))
]

claim_all-Newest :
    (every : ℕ) (times : List ℕ)
    → Newest (claim_all every times).0 (claim_all every times).1
      × Spaced every (claim_all every times).1
claim_all-Newest every [] = (tt, tt)
claim_all-Newest every (now ∷ older) =
    let (n, s) = claim_all-Newest every older in
    claim_every-Spaced every now (claim_all every older).0 (claim_all every older).1 n s

-- Whatever the times of the attempts, two claims in a row are at least the interval apart.
pub claim_all-Spaced : (every : ℕ) (times : List ℕ) → Spaced every (claim_all every times).1
claim_all-Spaced every times = (claim_all-Newest every times).1
