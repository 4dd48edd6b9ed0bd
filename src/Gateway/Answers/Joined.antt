-- ===== src/Gateway/Answers/Joined.antt =====
-- What is known after each attempt of a race for client blocks (src/gateway/client_blocks.rs).
use hypersync.Prelude.{
  ℕ, ◌≡◌, ◌⊎◌, inl, inr, refl, subst, true, Option, none, some, List, [], ◌∷◌, Bool-cases,
}
use hypersync.Gateway.Node.{ActivePeer, NodeState}
use hypersync.Gateway.Answers.{
  ClientBlockUpstreamResponse, frames, peer_only, range_too_small, terminal_error, Attempt,
  Gathered, or_first, is_stale, unpin, note_response, note_client_block_result, join_attempts,
}

-- The frame of a response.
abbrev pub frame_of : Option ClientBlockUpstreamResponse → Option (List ℕ)
frame_of none = none
frame_of (some (frames frame)) = some frame
frame_of (some peer_only) = none
frame_of (some (range_too_small frame)) = some frame
frame_of (some (terminal_error frame)) = some frame

abbrev pub Carried : List ℕ → List Attempt → Type 0
Carried frame [] = ⊥
Carried frame (a ∷ attempts) = (frame_of a.response ≡ some frame) ⊎ Carried frame attempts

-- An attempt that was not made for a pinned peer brought no frame.
abbrev pub Silent : Option ActivePeer → Option ClientBlockUpstreamResponse → Type 0
Silent none response = frame_of response ≡ none
Silent (some peer) response = Unit

abbrev pub AllSilent : List Attempt → Type 0
AllSilent [] = Unit
AllSilent (a ∷ attempts) = Silent a.tag a.response × AllSilent attempts

-- An answer to the attempts: one of their frames, and none only if all were silent.
abbrev pub IsAnswer : List Attempt → Option (List ℕ) → Type 0
IsAnswer attempts none = AllSilent attempts
IsAnswer attempts (some frame) = Carried frame attempts

-- A last resort that was `old` before the attempts.
abbrev pub From : List Attempt → Option (List ℕ) → Option (List ℕ) → Type 0
From attempts none old = old ≡ none
From attempts (some frame) old = (old ≡ some frame) ⊎ Carried frame attempts

-- Without a last resort, all were silent.
abbrev pub Quiet : Option (List ℕ) → Option (List ℕ) → List Attempt → Type 0
Quiet none none attempts = AllSilent attempts
Quiet none (some frame) attempts = Unit
Quiet (some frame) small attempts = Unit

abbrev pub IsJoined : List Attempt → Gathered → Gathered × Option (List ℕ) → Type 0
IsJoined attempts g (g', some frame) = Carried frame attempts
IsJoined attempts g (g', none) =
    From attempts g'.terminal g.terminal
    × From attempts g'.too_small g.too_small
    × Quiet g'.terminal g'.too_small attempts

From-same : (attempts : List Attempt) (old : Option (List ℕ)) → From attempts old old
From-same attempts none = refl
From-same attempts (some frame) = inl refl

Quiet-silent :
    (t s : Option (List ℕ)) (attempts : List Attempt) → AllSilent attempts → Quiet t s attempts
Quiet-silent none none attempts h = h
Quiet-silent none (some frame) attempts h = tt
Quiet-silent (some frame) s attempts h = tt

Silent-none :
    (tag : Option ActivePeer) (response : Option ClientBlockUpstreamResponse)
    → frame_of response ≡ none
    → Silent tag response
Silent-none none response h = h
Silent-none (some peer) response h = tt

same-IsJoined :
    (a : Attempt) (g g' : Gathered)
    → g'.terminal ≡ g.terminal
    → g'.too_small ≡ g.too_small
    → Silent a.tag a.response
    → IsJoined (a ∷ []) g (g', none)
same-IsJoined a g g' t s h =
    let q : Quiet g'.terminal g'.too_small (a ∷ []) =
      Quiet-silent g'.terminal g'.too_small (a ∷ []) (h, tt) in
    (
      subst (λ o. From (a ∷ []) g'.terminal o) t (From-same (a ∷ []) g'.terminal),
      subst (λ o. From (a ∷ []) g'.too_small o) s (From-same (a ∷ []) g'.too_small),
      q,
    )

or_first-From :
    (a : Attempt) (old : Option (List ℕ)) (frame : List ℕ)
    → frame_of a.response ≡ some frame
    → From (a ∷ []) (or_first old frame) old
or_first-From a none frame e = inr (inl e)
or_first-From a (some kept) frame e = inl refl

Quiet-terminal :
    (old s : Option (List ℕ)) (frame : List ℕ) (rest : List Attempt)
    → Quiet (or_first old frame) s rest
Quiet-terminal none s frame rest = tt
Quiet-terminal (some kept) s frame rest = tt

Quiet-small :
    (t old : Option (List ℕ)) (frame : List ℕ) (rest : List Attempt)
    → Quiet t (or_first old frame) rest
Quiet-small none none frame rest = tt
Quiet-small none (some kept) frame rest = tt
Quiet-small (some x) old frame rest = tt

note_response-IsJoined :
    (tag : Option ActivePeer) (response : Option ClientBlockUpstreamResponse) (g : Gathered)
    → IsJoined (record { tag = tag; response = response } ∷ []) g (note_response tag response g)
unfolding note_response
note_response-IsJoined tag none g =
    same-IsJoined (record { tag = tag; response = none }) g g refl refl (Silent-none tag none refl)
note_response-IsJoined tag (some (frames frame)) g = inl refl
note_response-IsJoined tag (some peer_only) g =
    same-IsJoined (record { tag = tag; response = some peer_only }) g
      (record g { node = unpin tag g.node }) refl refl (Silent-none tag (some peer_only) refl)
note_response-IsJoined tag (some (range_too_small frame)) g =
    let a : Attempt = record { tag = tag; response = some (range_too_small frame) } in
    (
      From-same (a ∷ []) g.terminal,
      or_first-From a g.too_small frame refl,
      Quiet-small g.terminal g.too_small frame (a ∷ []),
    )
note_response-IsJoined tag (some (terminal_error frame)) g =
    let a : Attempt = record { tag = tag; response = some (terminal_error frame) } in
    (
      or_first-From a g.terminal frame refl,
      From-same (a ∷ []) g.too_small,
      Quiet-terminal g.terminal g.too_small frame (a ∷ []),
    )

note-IsJoined : (a : Attempt) (g : Gathered) → IsJoined (a ∷ []) g (note_client_block_result a g)
unfolding note_client_block_result
note-IsJoined a g = elim (Bool-cases (is_stale a.tag g.node)) [
  | inl stale ↦
      rw stale (same-IsJoined a g g refl refl (stale-Silent a.tag a.response g.node stale))
  | inr current ↦ rw current (note_response-IsJoined a.tag a.response g)
]
  where
    stale-Silent :
        (tag : Option ActivePeer) (response : Option ClientBlockUpstreamResponse) (node : NodeState)
        → is_stale tag node ≡ true
        → Silent tag response
    stale-Silent none response node h = absurd (cc)
    stale-Silent (some peer) response node h = tt

-- First one attempt, then others.
From-then :
    (a : Attempt) (rest : List Attempt) (final mid old : Option (List ℕ))
    → From (a ∷ []) mid old
    → From rest final mid
    → From (a ∷ rest) final old
From-then a rest none mid old h k = subst (λ o. From (a ∷ []) o old) k h
From-then a rest (some f) mid old h (inr later) = inr (inr later)
From-then a rest (some f) mid old h (inl same) = go (subst (λ o. From (a ∷ []) o old) same h)
  where
    go :
        (old ≡ some f) ⊎ ((frame_of a.response ≡ some f) ⊎ ⊥)
        → (old ≡ some f) ⊎ ((frame_of a.response ≡ some f) ⊎ Carried f rest)
    go (inl before) = inl before
    go (inr (inl here)) = inr (inl here)
    go (inr (inr never)) = absurd never

Quiet-then :
    (a : Attempt) (rest : List Attempt) (t s t' s' : Option (List ℕ))
    → From rest t' t
    → From rest s' s
    → Quiet t s (a ∷ [])
    → Quiet t' s' rest
    → Quiet t' s' (a ∷ rest)
Quiet-then a rest t s (some f) s' ft fs q r = tt
Quiet-then a rest t s none (some f) ft fs q r = tt
Quiet-then a rest t s none none ft fs q r =
    let both : Quiet none none (a ∷ []) =
      subst (λ x. Quiet none x (a ∷ [])) fs (subst (λ x. Quiet x s (a ∷ [])) ft q) in
    (both.0, r)

pub join_attempts-IsJoined :
    (attempts : List Attempt) (g : Gathered) → IsJoined attempts g (join_attempts attempts g)
unfolding join_attempts
join_attempts-IsJoined [] g =
    (From-same [] g.terminal, From-same [] g.too_small, Quiet-silent g.terminal g.too_small [] tt)
join_attempts-IsJoined (a ∷ attempts) g =
    first (note_client_block_result a g) (note-IsJoined a g)
      (λ g'. join_attempts-IsJoined attempts g')
  where
    later :
        (g' : Gathered) (p : Gathered × Option (List ℕ))
        → IsJoined (a ∷ []) g (g', none)
        → IsJoined attempts g' p
        → IsJoined (a ∷ attempts) g p
    later g' (g'', some frame) h k = inr k
    later g' (g'', none) (ft, fs, q) (gt, gs, r) = (
      From-then a attempts g''.terminal g'.terminal g.terminal ft gt,
      From-then a attempts g''.too_small g'.too_small g.too_small fs gs,
      Quiet-then a attempts g'.terminal g'.too_small g''.terminal g''.too_small gt gs q r,
    )

    won_first :
        (frame : List ℕ) (attempts' : List Attempt)
        → Carried frame (a ∷ [])
        → Carried frame (a ∷ attempts')
    won_first frame attempts' (inl here) = inl here
    won_first frame attempts' (inr never) = absurd never

    first :
        (p : Gathered × Option (List ℕ))
        → IsJoined (a ∷ []) g p
        → ((g' : Gathered) → IsJoined attempts g' (join_attempts attempts g'))
        → IsJoined
            (a ∷ attempts)
            g
            (elim p.1 [ some frame ↦ (p.0, some frame) | none ↦ join_attempts attempts p.0 ])
    first (g', some frame) h k = won_first frame attempts h
    first (g', none) h k = later g' (join_attempts attempts g') h (k g')
