-- ===== src/Gateway/Answers/Best.antt =====
-- Which answer a node gets to a client-block request (src/gateway/client_blocks.rs).
use hypersync.Prelude.{
  ℕ, ◌≡◌, inl, inr, refl, subst, Bool, true, false, ◌&&◌, not, Option, none, some, List, [], ◌∷◌,
  ◌++◌, if◌then◌else◌,
}
use hypersync.Gateway.Node.{NodeState}
use hypersync.Gateway.Answers.{
  Attempt, Gathered, join_attempts, last_resort, final_answer, has_answer, join_pool,
  fetch_client_blocks_raced,
}
use hypersync.Gateway.Answers.Joined.{
  Carried, AllSilent, IsAnswer, From, Quiet, IsJoined, join_attempts-IsJoined,
}

Carried-left : (frame : List ℕ) (xs ys : List Attempt) → Carried frame xs → Carried frame (xs ++ ys)
Carried-left frame [] ys h = absurd h
Carried-left frame (x ∷ xs) ys (inl here) = inl here
Carried-left frame (x ∷ xs) ys (inr there) = inr (Carried-left frame xs ys there)

Carried-right :
    (frame : List ℕ) (xs ys : List Attempt) → Carried frame ys → Carried frame (xs ++ ys)
Carried-right frame [] ys h = h
Carried-right frame (x ∷ xs) ys h = inr (Carried-right frame xs ys h)

AllSilent-append : (xs ys : List Attempt) → AllSilent xs → AllSilent ys → AllSilent (xs ++ ys)
AllSilent-append [] ys h k = k
AllSilent-append (x ∷ xs) ys h k = (h.0, AllSilent-append xs ys h.1 k)

-- The attempts that the race considers.
abbrev pub considered : Bool → List Attempt → List Attempt → List Attempt
considered true first pool = first ++ pool
considered false first pool = first

none-From :
    (attempts : List Attempt) (frame : List ℕ)
    → From attempts (some frame) none
    → Carried frame attempts
none-From attempts frame (inl e) = absurd (cc)
none-From attempts frame (inr h) = h

-- A gathering that began without a last resort.
final_answer-IsAnswer :
    (attempts : List Attempt) (g : Gathered) (p : Gathered × Option (List ℕ))
    → g.terminal ≡ none
    → g.too_small ≡ none
    → IsJoined attempts g p
    → IsAnswer attempts (final_answer p).1
final_answer-IsAnswer attempts g (g', some frame) t s h = h
final_answer-IsAnswer attempts g (g', none) t s (ft, fs, q) =
    go g'.terminal g'.too_small (rw t at ft) (rw s at fs) q
  where
    go :
        (x y : Option (List ℕ))
        → From attempts x none
        → From attempts y none
        → Quiet x y attempts
        → IsAnswer attempts (elim x [ some frame ↦ some frame | none ↦ y ])
    go none none ft fs q = q
    go none (some frame) ft fs q = none-From attempts frame fs
    go (some frame) y ft fs q = none-From attempts frame ft

IsAnswer-right :
    (xs ys : List Attempt) (answer : Option (List ℕ))
    → AllSilent xs
    → IsAnswer ys answer
    → IsAnswer (xs ++ ys) answer
IsAnswer-right xs ys none silent h = AllSilent-append xs ys silent h
IsAnswer-right xs ys (some frame) silent h = Carried-right frame xs ys h

IsAnswer-left :
    (xs ys : List Attempt) (answer : Option (List ℕ)) (frame : List ℕ)
    → answer ≡ some frame
    → IsAnswer xs answer
    → IsAnswer (xs ++ ys) answer
IsAnswer-left xs ys none frame e h = absurd (cc)
IsAnswer-left xs ys (some f) frame e h = Carried-left f xs ys h

won-IsAnswer :
    (hedges : Bool) (first pool : List Attempt) (frame : List ℕ)
    → Carried frame first
    → IsAnswer (considered hedges first pool) (some frame)
won-IsAnswer true first pool frame h = Carried-left frame first pool h
won-IsAnswer false first pool frame h = h

-- The node gets a frame that some attempt of the race brought; it gets none only if every attempt that
-- was not made for a pinned peer brought none, those of the pool included where it waited and is there.
pub fetch_client_blocks_raced-IsAnswer :
    (hedges : Bool) (first pool : List Attempt) (node : NodeState)
    → IsAnswer (considered hedges first pool) (fetch_client_blocks_raced hedges first pool node).1
unfolding fetch_client_blocks_raced join_pool
fetch_client_blocks_raced-IsAnswer hedges first pool node =
    go hedges (join_attempts first empty) (join_attempts-IsJoined first empty)
  where
    empty : Gathered
    empty = record { node = node; terminal = none; too_small = none }

    waited :
        (g : Gathered) (t s : Option (List ℕ))
        → g.terminal ≡ t
        → g.too_small ≡ s
        → IsJoined first empty (g, none)
        → IsAnswer
            (first ++ pool)
            (if true && (not (has_answer t) && not (has_answer s))
              then final_answer (join_attempts pool g)
              else final_answer (g, none)).1
    waited g none none t s (ft, fs, q) =
        IsAnswer-right first pool (final_answer (join_attempts pool g)).1
          (subst (λ y. Quiet none y first) s (subst (λ x. Quiet x g.too_small first) t q))
          (final_answer-IsAnswer pool g (join_attempts pool g) t s (join_attempts-IsJoined pool g))
    waited g none (some x) t s h =
        IsAnswer-left first pool (last_resort g) x (rw t s)
          (final_answer-IsAnswer first empty (g, none) refl refl h)
    waited g (some x) y t s h =
        IsAnswer-left first pool (last_resort g) x (rw t refl)
          (final_answer-IsAnswer first empty (g, none) refl refl h)

    go :
        (hedges : Bool) (p : Gathered × Option (List ℕ))
        → IsJoined first empty p
        → IsAnswer (considered hedges first pool) (join_pool hedges pool p).1
    go hedges (g, some frame) h = won-IsAnswer hedges first pool frame h
    go false (g, none) h = final_answer-IsAnswer first empty (g, none) refl refl h
    go true (g, none) h = waited g g.terminal g.too_small refl refl h
