-- ===== src/Push/Live/Session/Relays.antt =====
-- What a push session relays to its node (src/push/live.rs).
use hypersync.Prelude.{
  ℕ, ◌<◌, ◌≡◌, refl, inl, inr, Bool, true, false, Option, none, some, List, [], ◌∷◌, leb, ◌==◌,
  if◌then◌else◌, u32_max, Climbs, Bool-cases, Option-cases, arith,
}
use hypersync.Protocol.BlockRound.{block_round}
use hypersync.Protocol.Rounds.{round_lag_from_tip, active_round_max_lag}
use hypersync.Protocol.Forward.{RoundForwardGate, should_forward}
use hypersync.Protocol.Forward.Monotone.{
  IsBehind, should_forward-lt, should_forward-last, should_forward-IsBehind,
}
use hypersync.Push.Live.{
  FrameKindSeen, block, Fault, Outside, PushState, Outcome, send_counted, gated, check_tip,
  node_writer_closed, Read, no_header, header,
}

abbrev pub is_some {ℓ} : {A : Type ℓ} → Option A → Bool
is_some none = false
is_some (some a) = true

-- No frame has the round `u32::MAX`.
abbrev pub IsSmall : Option ℕ → Type 0
IsSmall none = Unit
IsSmall (some r) = r < u32_max

-- The frame of a read, if both of its parts came.
abbrev pub read_frames : Read → List (List ℕ)
read_frames no_header = []
read_frames (header b0 b1 b2 b3 typ none) = []
read_frames (header b0 b1 b2 b3 typ (some payload)) = (b0 ∷ b1 ∷ b2 ∷ b3 ∷ typ ∷ payload) ∷ []

module _ (decompress_size_prepended : List ℕ → Option (List ℕ)) where
  -- The round of a frame, if it is a live block.
  unfoldable pub round_of : List ℕ → Option ℕ
  round_of (b0 ∷ b1 ∷ b2 ∷ b3 ∷ typ ∷ payload) =
      if typ == 1 then block_round decompress_size_prepended payload else none
  round_of frame = none

  abbrev pub cons_round : Option ℕ → List ℕ → List ℕ
  cons_round none rounds = rounds
  cons_round (some r) rounds = r ∷ rounds

  abbrev pub block_rounds : List (List ℕ) → List ℕ
  block_rounds [] = []
  block_rounds (f ∷ frames) = cons_round (round_of f) (block_rounds frames)

  -- The frames of a stream, and what of them is sent: each as it is and in order, without some of the
  -- blocks. A stream that is `ended` may be cut off anywhere.
  pub data Relays (ended : Bool) : List (List ℕ) → List (List ℕ) → Type 0 where
    done : Relays ended [] []
    cut : (frames : List (List ℕ)) → ended ≡ true → Relays ended frames []
    relayed :
        (f : List ℕ) (frames sent : List (List ℕ))
        → Relays ended frames sent
        → Relays ended (f ∷ frames) (f ∷ sent)
    dropped :
        (f : List ℕ) (r : ℕ) (frames sent : List (List ℕ))
        → round_of f ≡ some r
        → Relays ended frames sent
        → Relays ended (f ∷ frames) sent

  -- An outcome for `frames` from a state whose gate is at `low`.
  pub record IsFaithful (frames : List (List ℕ)) (low : ℕ) (g : RoundForwardGate)
      (sent : List (List ℕ)) (fault : Option Fault) : Type 0 where
    pub relays : Relays (is_some fault) frames sent
    pub behind : IsBehind g
    pub climbs : Climbs low (block_rounds sent) g.last_forwarded

  abbrev pub AreSmall : List (List ℕ) → Type 0
  AreSmall [] = Unit
  AreSmall (f ∷ frames) = IsSmall (round_of f) × AreSmall frames

  abbrev pub Relayed : List (List ℕ) → RoundForwardGate → Outcome → Type 0
  Relayed frames g o = IsFaithful frames g.last_forwarded o.state.gate o.sent o.fault

  abbrev pub Handles : List ℕ → RoundForwardGate → Outcome → Type 0
  Handles frame g o = Relayed (frame ∷ []) g o

  -- A fault relays nothing, whatever came.
  pub ended :
      (e : Fault) (frames : List (List ℕ)) (g : RoundForwardGate)
      → IsBehind g
      → IsFaithful frames g.last_forwarded g [] (some e)
  ended e frames g h = record { relays = cut frames refl; behind = h; climbs = omega arith }

  pub fail-IsFaithful :
      (e : Fault) (frame : List ℕ) (g : RoundForwardGate)
      → IsBehind g
      → IsFaithful (frame ∷ []) g.last_forwarded g [] (some e)
  fail-IsFaithful e frame g h = ended e (frame ∷ []) g h

  pub plain-Handles :
      (kind : FrameKindSeen) (frame : List ℕ) (env : Outside) (s : PushState)
      → round_of frame ≡ none
      → IsBehind s.gate
      → Handles frame s.gate (send_counted kind frame env s)
  unfolding send_counted
  plain-Handles kind frame env s e h = elim (Bool-cases env.room) [
    | inl room ↦
        rw room
          (record { relays = relayed frame [] [] done; behind = h; climbs = rw e (omega arith) })
    | inr full ↦ rw full (fail-IsFaithful node_writer_closed frame s.gate h)
  ]

  module _ (frame : List ℕ) (rnd : ℕ) (e : round_of frame ≡ some rnd) (small : rnd < u32_max) where
    drop-IsFaithful :
        (g g' : RoundForwardGate)
        → g'.last_forwarded ≡ g.last_forwarded
        → IsBehind g'
        → IsFaithful (frame ∷ []) g.last_forwarded g' [] none
    drop-IsFaithful g g' same h = record {
      relays = dropped frame rnd [] [] e done;
      behind = h;
      climbs = omega arith;
    }

    sent-Handles :
        (g : RoundForwardGate) (env : Outside) (t : PushState)
        → g.last_forwarded < rnd
        → t.gate.last_forwarded ≡ rnd
        → IsBehind t.gate
        → Handles frame g (send_counted block frame env t)
    unfolding send_counted
    sent-Handles g env t above now h = elim (Bool-cases env.room) [
      | inl room ↦ rw room (record {
        relays = relayed frame [] [] done;
        behind = h;
        climbs = rw e (above, omega arith);
      })
      | inr full ↦
          rw full (record { relays = cut (frame ∷ []) refl; behind = h; climbs = omega arith })
    ]

    gated-Handles :
        (env : Outside) (s : PushState)
        → IsBehind s.gate
        → Handles frame s.gate (gated frame rnd env s)
    unfolding gated
    gated-Handles env s h =
        let last = should_forward-last s.gate rnd h small true in
        let kept = should_forward-IsBehind s.gate rnd h small true in
        elim (Bool-cases (leb rnd env.live_floor)) [
          | inl under ↦ rw under (drop-IsFaithful s.gate _ refl h)
          | inr above ↦ elim (Bool-cases (should_forward s.gate rnd true).1) [
            | inl through ↦
                rw (above, through)
                  (sent-Handles s.gate env (record s { gate = (should_forward s.gate rnd true).0 })
                    (should_forward-lt s.gate rnd true h through) (rw through at last) kept)
            | inr old ↦ rw (above, old) (drop-IsFaithful s.gate _ (rw old at last) kept)
          ]
        ]

    pub check_tip-Handles :
        (env : Outside) (s : PushState)
        → IsBehind s.gate
        → Handles frame s.gate (check_tip frame rnd env s)
    unfolding check_tip
    check_tip-Handles env s h =
        elim (Option-cases (round_lag_from_tip rnd env.net_tip active_round_max_lag)) [
          | inl near ↦ rw (near, check_tip) (gated-Handles env s h)
          | inr (lag, far) ↦ rw (far, check_tip) (fail-IsFaithful _ frame s.gate h)
        ]
