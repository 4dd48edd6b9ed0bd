-- ===== src/Push/Live/Session/Faithful.antt =====
-- What a push session queues to its node for each frame (src/push/live.rs).
use Prim.Native.String.{String}
use hypersync.Prelude.{
  ℕ, ◌<◌, ◌≡◌, refl, inl, inr, ◌&&◌, not, Option, none, some, List, [], ◌∷◌, ltb, ◌==◌, length, max,
  u32_max, from_be_bytes, saturating_add, Bool-cases, Option-cases,
}
use hypersync.Protocol.BlockRound.{block_round}
use hypersync.Protocol.Rounds.{is_plausible_mainnet_round, max_live_frame}
use hypersync.Protocol.Forward.Monotone.{IsBehind}
use hypersync.Push.Freshest.{FreshestRound, offer, max_active_round_jump}
use hypersync.Push.Progress.{on_round, lagging, hold, stalled}
use hypersync.Push.Live.{
  control, data_no_round, Outside, PushState, Outcome, Read, no_header, header, process_block,
  process_live_frame, by_kind, check_freshest, pump_block, pump_read, pump_unless_stalled, pump,
  offer_round, lags_freshest,
}
use hypersync.Push.Live.Session.Relays.{
  round_of, Handles, IsSmall, AreSmall, read_frames, Relayed, ended, fail-IsFaithful, plain-Handles,
  check_tip-Handles,
}

module _ (decompress_size_prepended : List ℕ → Option (List ℕ)) (id : ℕ) (peer : String) where
  module _ (frame : List ℕ) (rnd : ℕ) (e : round_of decompress_size_prepended frame ≡ some rnd)
      (small : rnd < u32_max) (env : Outside) (s : PushState) (h : IsBehind s.gate) where
    abbrev offered : FreshestRound → Outside
    offered f = record env { freshest = some (offer id peer rnd env.now f) }

    process_block-Handles :
        Handles decompress_size_prepended frame s.gate
          (process_block decompress_size_prepended id peer frame rnd env s)
    unfolding process_block
    process_block-Handles = elim (Bool-cases (is_plausible_mainnet_round rnd env.net_tip)) [
      | inr wild ↦ rw wild (fail-IsFaithful decompress_size_prepended _ frame s.gate h)
      | inl fits ↦
          elim (Bool-cases (
            not (s.active_round == 0)
            && ltb (saturating_add s.active_round max_active_round_jump) rnd)) [
              | inl jump ↦
                  rw (fits, jump) (fail-IsFaithful decompress_size_prepended _ frame s.gate h)
              | inr near ↦ elim (Option-cases env.freshest) [
                | inl alone ↦
                    rw (fits, near, offer_round, alone)
                      (check_tip-Handles decompress_size_prepended frame rnd e small env _ h)
                | inr (f, shared) ↦
                    rw (fits, near, offer_round, shared)
                      (check_tip-Handles decompress_size_prepended frame rnd e small (offered f) _
                        h)
              ]
            ]
    ]

    check_freshest-Handles :
        Handles decompress_size_prepended frame s.gate
          (check_freshest decompress_size_prepended id peer frame rnd env s)
    unfolding check_freshest
    check_freshest-Handles = elim (Option-cases env.freshest) [
      | inl alone ↦
          rw (alone, check_freshest)
            (check_tip-Handles decompress_size_prepended frame rnd e small env s h)
      | inr (f, shared) ↦
          let l = lagging (offer id peer rnd env.now f) env.node_backed_up env.now s.progress in
          elim (Option-cases l.1) [
            | inl near ↦
                rw (shared, check_freshest, near)
                  (check_tip-Handles decompress_size_prepended frame rnd e small (offered f) _ h)
            | inr (b, far) ↦
                rw (shared, check_freshest, far)
                  (fail-IsFaithful decompress_size_prepended (lags_freshest b) frame s.gate h)
          ]
    ]

  pump_block-Handles :
      (frame : List ℕ) (rnd : ℕ)
      → round_of decompress_size_prepended frame ≡ some rnd
      → rnd < u32_max
      → (env : Outside) (s : PushState) → IsBehind s.gate
      → Handles decompress_size_prepended frame s.gate
          (pump_block decompress_size_prepended id peer frame rnd env s)
  unfolding pump_block
  pump_block-Handles frame rnd e small env s h =
      elim (Bool-cases (is_plausible_mainnet_round rnd env.net_tip)) [
        | inr wild ↦ rw wild (fail-IsFaithful decompress_size_prepended _ frame s.gate h)
        | inl fits ↦ elim (Option-cases (on_round rnd env.now s.progress)) [
          | inl jump ↦ rw (fits, jump) (fail-IsFaithful decompress_size_prepended _ frame s.gate h)
          | inr (p, near) ↦
              rw (fits, near)
                (check_freshest-Handles frame rnd e small env
                  (record s { progress = p; active_round = max s.active_round rnd }) h)
        ]
      ]

  by_kind-Handles :
      (b0 b1 b2 b3 typ : ℕ) (payload : List ℕ) (env : Outside) (s : PushState)
      (on_block : ℕ → Outcome)
      → IsBehind s.gate
      → (let frame = b0 ∷ b1 ∷ b2 ∷ b3 ∷ typ ∷ payload in
          ((rnd : ℕ)
            → round_of decompress_size_prepended frame ≡ some rnd
            → Handles decompress_size_prepended frame s.gate (on_block rnd))
          → Handles decompress_size_prepended frame s.gate
              (by_kind decompress_size_prepended id peer typ payload frame env s on_block))
  unfolding by_kind round_of
  by_kind-Handles b0 b1 b2 b3 typ payload env s on_block h k =
      let frame = b0 ∷ b1 ∷ b2 ∷ b3 ∷ typ ∷ payload in
      elim (Bool-cases (typ == 1)) [
        | inr other ↦
            rw other (plain-Handles decompress_size_prepended control frame env s (rw other refl) h)
        | inl carries ↦ elim (Option-cases (block_round decompress_size_prepended payload)) [
          | inl silent ↦
              rw (carries, silent)
                (plain-Handles decompress_size_prepended data_no_round frame env s
                  (rw carries silent) h)
          | inr (rnd, found) ↦ rw (carries, found) (k rnd (rw carries found))
        ]
      ]

  pub process_live_frame-Handles :
      (frame : List ℕ) (env : Outside) (s : PushState)
      → IsSmall (round_of decompress_size_prepended frame)
      → IsBehind s.gate
      → Handles decompress_size_prepended frame s.gate
          (process_live_frame decompress_size_prepended id peer frame env s)
  unfolding process_live_frame
  process_live_frame-Handles [] env s small h =
      fail-IsFaithful decompress_size_prepended _ _ s.gate h
  process_live_frame-Handles (_ ∷ []) env s small h =
      fail-IsFaithful decompress_size_prepended _ _ s.gate h
  process_live_frame-Handles (_ ∷ _ ∷ []) env s small h =
      fail-IsFaithful decompress_size_prepended _ _ s.gate h
  process_live_frame-Handles (_ ∷ _ ∷ _ ∷ []) env s small h =
      fail-IsFaithful decompress_size_prepended _ _ s.gate h
  process_live_frame-Handles (_ ∷ _ ∷ _ ∷ _ ∷ []) env s small h =
      fail-IsFaithful decompress_size_prepended _ _ s.gate h
  process_live_frame-Handles (b0 ∷ b1 ∷ b2 ∷ b3 ∷ typ ∷ payload) env s small h =
      let frame = b0 ∷ b1 ∷ b2 ∷ b3 ∷ typ ∷ payload in
      elim (Bool-cases (from_be_bytes b0 b1 b2 b3 == length payload)) [
        | inr other ↦ rw other (fail-IsFaithful decompress_size_prepended _ frame s.gate h)
        | inl fits ↦ rw fits (
            by_kind-Handles b0 b1 b2 b3 typ payload env s
              (λ rnd. process_block decompress_size_prepended id peer frame rnd env s) h
              (λ rnd e. process_block-Handles frame rnd e (rw e at small) env s h))
      ]

  pump_read-Relayed :
      (read : Read) (env : Outside) (s : PushState)
      → AreSmall decompress_size_prepended (read_frames read)
      → IsBehind s.gate
      → Relayed decompress_size_prepended
          (read_frames read)
          s.gate
          (pump_read decompress_size_prepended id peer read env s)
  unfolding pump_read
  pump_read-Relayed no_header env s small h = ended decompress_size_prepended _ [] s.gate h
  pump_read-Relayed (header b0 b1 b2 b3 typ none) env s small h =
      elim (Bool-cases (ltb max_live_frame (from_be_bytes b0 b1 b2 b3))) [
        | inl big ↦ rw big (ended decompress_size_prepended _ [] s.gate h)
        | inr fits ↦ rw fits (ended decompress_size_prepended _ [] s.gate h)
      ]
  pump_read-Relayed (header b0 b1 b2 b3 typ (some payload)) env s small h =
      let frame = b0 ∷ b1 ∷ b2 ∷ b3 ∷ typ ∷ payload in
      elim (Bool-cases (ltb max_live_frame (from_be_bytes b0 b1 b2 b3))) [
        | inl big ↦ rw big (ended decompress_size_prepended _ (frame ∷ []) s.gate h)
        | inr fits ↦ rw fits (
            by_kind-Handles b0 b1 b2 b3 typ payload env s
              (λ rnd. pump_block decompress_size_prepended id peer frame rnd env s) h
              (λ rnd e. pump_block-Handles frame rnd e (rw e at small.0) env s h))
      ]

  pump_unless_stalled-Relayed :
      (before : Outside) (read : Read) (env : Outside) (s : PushState)
      → AreSmall decompress_size_prepended (read_frames read)
      → IsBehind s.gate
      → Relayed decompress_size_prepended
          (read_frames read)
          s.gate
          (pump_unless_stalled decompress_size_prepended id peer before read env s)
  unfolding pump_unless_stalled
  pump_unless_stalled-Relayed before read env s small h =
      elim (Bool-cases (stalled before.now s.progress)) [
        | inl still ↦ rw still (ended decompress_size_prepended _ (read_frames read) s.gate h)
        | inr moving ↦ rw moving (pump_read-Relayed read env s small h)
      ]

  pub pump-Relayed :
      (before : Outside) (read : Read) (env : Outside) (s : PushState)
      → AreSmall decompress_size_prepended (read_frames read)
      → IsBehind s.gate
      → Relayed decompress_size_prepended
          (read_frames read)
          s.gate
          (pump decompress_size_prepended id peer before read env s)
  unfolding pump
  pump-Relayed before read env s small h = elim (Bool-cases before.node_backed_up) [
    | inl full ↦ rw full (
        pump_unless_stalled-Relayed before read env
          (record s { progress = hold before.now s.progress }) small h)
    | inr free ↦ rw free (pump_unless_stalled-Relayed before read env s small h)
  ]
