-- ===== src/Protocol/Lz4/Loop.antt =====
-- The whole decode of src/protocol.rs (lz4_first_n) under two bounds.
use hypersync.Prelude.{ℕ, zero, suc, ◌≤◌, ◌<◌, ◌≡◌, refl, inl, inr, List, [], ◌∷◌, length, arith}
use hypersync.Protocol.Lz4.{
  Pass, stop, refuse, next, pass, Decoded, done, bad, out_of_fuel, lz4_loop,
}
use hypersync.Protocol.Lz4.Extends.{Extends, Extends-refl, Extends-trans}
use hypersync.Protocol.Lz4.Grows.{Grows, pass-Grows}
use hypersync.Protocol.Lz4.Prefix.{Cut, Agrees, pass-Agrees}

-- A decode goes on from the bytes written before.
abbrev Reaches : List ℕ → Decoded → Type 0
Reaches out (done ys) = Extends out ys
Reaches out bad = Unit
Reaches out out_of_fuel = Unit

lz4_loop-Reaches : (fuel m : ℕ) (input out : List ℕ) → Reaches out (lz4_loop fuel m input out)
unfolding lz4_loop
lz4_loop-Reaches zero m input out = tt
lz4_loop-Reaches (suc fuel) m [] out = Extends-refl out
lz4_loop-Reaches (suc fuel) m (token ∷ input) out =
    go (pass m token input out) (pass-Grows m token input out) (lz4_loop-Reaches fuel m)
  where
    trans : (xs ys : List ℕ) (r : Decoded) → Extends xs ys → Reaches ys r → Reaches xs r
    trans xs ys (done zs) e g = Extends-trans xs ys zs e g
    trans xs ys bad e g = tt
    trans xs ys out_of_fuel e g = tt

    go :
        (p : Pass)
        → Grows out p
        → ((rest out' : List ℕ) → Reaches out' (lz4_loop fuel m rest out'))
        → Reaches out (elim p [
          | stop result ↦ done result
          | refuse ↦ bad
          | next rest out' ↦ lz4_loop fuel m rest out'
        ])
    go (stop result) g ih = g
    go refuse g ih = tt
    go (next rest out') g ih = trans out out' (lz4_loop fuel m rest out') g (ih rest out')

-- The outcome under the bound `n`, and with more room.
abbrev pub Same : ℕ → Decoded → Decoded → Type 0
Same n (done xs) (done ys) = Cut n xs ys
Same n (done xs) _ = Unit
Same n bad r = r ≡ bad
Same n out_of_fuel r = r ≡ out_of_fuel

Same-cut :
    (n : ℕ) (xs ys : List ℕ) (r : Decoded)
    → length xs ≡ n
    → Extends xs ys
    → Reaches ys r
    → Same n (done xs) r
Same-cut n xs ys (done zs) h e g = (omega arith, inr (h, Extends-trans xs ys zs e g))
Same-cut n xs ys bad h e g = tt
Same-cut n xs ys out_of_fuel h e g = tt

-- A bounded decode fails only where the unbounded one does, and else gives that one's bytes, cut
-- at the bound.
pub lz4_loop-Same :
    (fuel n m : ℕ) (input out : List ℕ)
    → n ≤ m
    → length out < n
    → Same n (lz4_loop fuel n input out) (lz4_loop fuel m input out)
unfolding lz4_loop
lz4_loop-Same zero n m input out h lt = refl
lz4_loop-Same (suc fuel) n m [] out h lt = (omega arith, inl refl)
lz4_loop-Same (suc fuel) n m (token ∷ input) out h lt =
    go (pass n token input out) (pass m token input out) (pass-Agrees n m token input out h lt)
      (λ rest out' l. lz4_loop-Same fuel n m rest out' h l)
  where
    go :
        (p q : Pass)
        → Agrees n p q
        → ((rest out' : List ℕ)
            → length out' < n
            → Same n (lz4_loop fuel n rest out') (lz4_loop fuel m rest out'))
        → Same n
            (elim p [
              | stop result ↦ done result
              | refuse ↦ bad
              | next rest out' ↦ lz4_loop fuel n rest out'
            ])
            (elim q [
              | stop result ↦ done result
              | refuse ↦ bad
              | next rest out' ↦ lz4_loop fuel m rest out'
            ])
    go (stop xs) (stop ys) a ih = a
    go (stop xs) refuse a ih = tt
    go (stop xs) (next rest ys) a ih =
        Same-cut n xs ys (lz4_loop fuel m rest ys) a.0 a.1 (lz4_loop-Reaches fuel m rest ys)
    go refuse q a ih = rw a refl
    go (next rest xs) q a ih = rw a.1 (ih rest xs a.0)
