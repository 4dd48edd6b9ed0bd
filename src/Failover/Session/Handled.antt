-- ===== src/Failover/Session/Handled.antt =====
-- What a failover session sends the node for each frame (src/failover/session.rs): its rounds climb.
use hypersync.Prelude.{
  ℕ, ◌+◌, ◌<◌, ◌≡◌, refl, ◌⊎◌, inl, inr, Bool, true, false, ◌&&◌, not, Option, none, some, List, [],
  ◌∷◌, leb, ◌==◌, if◌then◌else◌, u32_max, Bool-cases, Option-cases, arith,
}
use hypersync.Maps.{lookup}
use hypersync.Protocol.Rounds.{is_plausible_mainnet_round}
use hypersync.Push.Progress.{on_round}
use hypersync.Failover.Core.{
  Core, StandbyVerdict, ok, mismatch, on_active_block, on_standby_block, touch, record_forwarded,
  settle_standbys,
}
use hypersync.Failover.Session.{
  Outside, Session, stay, send_frames, drop_upstream, mark_dead, is_some, bad_peer_cooldown,
}
use hypersync.Failover.Session.Kept.{on_active_block-AllKept, on_standby_block-AllKept}
use hypersync.Failover.Session.Blocks.{
  forward_active_block, on_active_round, on_standby_round, on_block, on_control, on_frame,
  on_prefetched, is_bad_round,
}
use hypersync.Failover.Session.Climbs.{
  IsSound, IsFine, At, stay-IsFine, send_frames-IsFine, drop_upstream-At, drop_bads-At,
  drop_known-At, touch-tip,
}

-- The round of a frame is not `u32::MAX`, if the frame is a live block.
abbrev pub IsSmall : Option (ℕ × ℕ × ℕ) → Type 0
IsSmall none = Unit
IsSmall (some (round, _, _)) = round < u32_max

module _ (classify : List ℕ → Option (ℕ × ℕ × ℕ)) where
  -- A block of the active is not forwarded and leaves the tip, or is and is the tip, above the last.
  on_active_block-tip :
      (round hash at : ℕ) (c : Core)
      → 0 < round
      → (((on_active_block round hash at c).1.0 ≡ false)
          × ((on_active_block round hash at c).0.last_forwarded ≡ c.last_forwarded))
        ⊎ (((on_active_block round hash at c).1.0 ≡ true)
            × ((on_active_block round hash at c).0.last_forwarded ≡ round)
            × (c.last_forwarded < round))
  unfolding on_active_block settle_standbys record_forwarded
  on_active_block-tip round hash at c pos =
      let d : Core = touch c.active at c in
      let t : d.last_forwarded ≡ c.last_forwarded = touch-tip classify c.active at c in
      elim (Bool-cases (not (d.last_forwarded == 0) && leb round d.last_forwarded)) [
        | inl old ↦ rw old (inl (refl, t))
        | inr fresh ↦ rw fresh (inr (refl, refl, ground arith))
      ]

  on_active_block-IsSound :
      (round hash at : ℕ) (c : Core)
      → 0 < round
      → round < u32_max
      → IsSound classify c
      → IsSound classify (on_active_block round hash at c).0
  on_active_block-IsSound round hash at c pos small h = record {
    kept = on_active_block-AllKept classify round hash at c h.kept;
    small =
        (let low : c.last_forwarded < u32_max = h.small in
          elim (on_active_block-tip round hash at c pos) [
            | inl (f, t) ↦ omega arith
            | inr (f, t, lt) ↦ omega arith
          ]);
  }

  -- The tip moved to `round`, or did not move, as the block was forwarded or not.
  forwarded-IsFine :
      (fwd : Bool) (room low round : ℕ) (bytes : List ℕ) (parent hash : ℕ) (s : Session)
      → classify bytes ≡ some (round, parent, hash)
      → IsSound classify s.core
      → ((fwd ≡ false) × (s.core.last_forwarded ≡ low))
        ⊎ ((fwd ≡ true) × (s.core.last_forwarded ≡ round) × (low < round))
      → IsFine classify low (if fwd then send_frames room (bytes ∷ []) s else stay s)
  forwarded-IsFine fwd room low round bytes parent hash s e sound (inl (f, t)) =
      rw f (stay-IsFine classify low s (sound, t))
  forwarded-IsFine fwd room low round bytes parent hash s e sound (inr (f, t, lt)) =
      rw f (send_frames-IsFine classify room low (bytes ∷ []) s sound (rw e (lt, omega arith)))

  plausible : (round tip : ℕ) → is_plausible_mainnet_round round tip ≡ true → 0 < round
  unfolding is_plausible_mainnet_round
  plausible round tip h = ground arith

  plausible_pos : (round tip : ℕ) → is_bad_round round tip ≡ false → 0 < round
  plausible_pos round tip h = plausible round tip (ground arith)

  pub mark_dead-At : (n now : ℕ) (s : Session) → At classify n s → At classify n (mark_dead now s)
  unfolding mark_dead
  mark_dead-At n now s h = h

  on_standby_block-tip :
      (id round parent hash at : ℕ) (bytes : List ℕ) (c : Core)
      → (on_standby_block id round parent hash at bytes c).0.last_forwarded ≡ c.last_forwarded
  unfolding on_standby_block
  on_standby_block-tip id round parent hash at bytes c = elim (Option-cases (lookup id c.ups)) [
    | inl absent ↦ rw (absent, on_standby_block) refl
    | inr (u, found) ↦ elim (Bool-cases (leb round c.last_forwarded)) [
      | inl old ↦ rw (found, on_standby_block, old) refl
      | inr fresh ↦ rw (found, on_standby_block, fresh) refl
    ]
  ]

  forward_active_block-IsFine :
      (bytes : List ℕ) (round parent hash at : ℕ) (env : Outside) (s : Session)
      → classify bytes ≡ some (round, parent, hash)
      → round < u32_max
      → 0 < round
      → IsSound classify s.core
      → IsFine classify s.core.last_forwarded (forward_active_block bytes round hash at env s)
  unfolding forward_active_block
  forward_active_block-IsFine bytes round parent hash at env s e small pos sound =
      let low : ℕ = s.core.last_forwarded in
      let x : Core × (Bool × List (ℕ × ℕ)) = on_active_block round hash at s.core in
      let until : ℕ = env.now + bad_peer_cooldown in
      let (kept, tip) =
        drop_bads-At classify x.0.last_forwarded until x.1.1 (record s { core = x.0 })
          (on_active_block-IsSound round hash at s.core pos small sound, refl) in
      elim (Bool-cases (leb round env.live_floor)) [
        | inl under ↦ rw under (stay-IsFine classify low s (sound, refl))
        | inr over ↦ rw over (
            forwarded-IsFine x.1.0 env.room low round bytes parent hash _ e kept
              (rw tip (on_active_block-tip round hash at s.core pos)))
      ]

  on_active_round-IsFine :
      (bytes : List ℕ) (round parent hash at : ℕ) (env : Outside) (s : Session)
      → classify bytes ≡ some (round, parent, hash)
      → round < u32_max
      → 0 < round
      → IsSound classify s.core
      → IsFine classify s.core.last_forwarded (on_active_round bytes round hash at env s)
  unfolding on_active_round mark_dead
  on_active_round-IsFine bytes round parent hash at env s e small pos sound =
      elim (Bool-cases (is_some s.active_dead)) [
        | inl dead ↦ rw dead (stay-IsFine classify _ s (sound, refl))
        | inr alive ↦ elim (Option-cases (on_round round at s.progress)) [
          | inl jump ↦ rw (alive, jump) (stay-IsFine classify _ (mark_dead env.now s) (sound, refl))
          | inr (p, fits) ↦
              rw (alive, fits)
                (forward_active_block-IsFine bytes round parent hash at env
                  (record s { progress = p }) e small pos sound)
        ]
      ]

  on_standby_round-At :
      (id : ℕ) (bytes : List ℕ) (round parent hash at : ℕ) (env : Outside) (s : Session)
      → classify bytes ≡ some (round, parent, hash)
      → round < u32_max
      → IsSound classify s.core
      → IsFine classify s.core.last_forwarded (on_standby_round id bytes round parent hash at env s)
  unfolding on_standby_round
  on_standby_round-At id bytes round parent hash at env s e small sound =
      go (on_standby_block id round parent hash at bytes s.core).1
    where
      n : ℕ
      n = s.core.last_forwarded

      t : Session
      t = record s { core = (on_standby_block id round parent hash at bytes s.core).0 }

      kept : At classify n t
      kept =
          let tip = on_standby_block-tip id round parent hash at bytes s.core in
          let low : s.core.last_forwarded < u32_max = sound.small in
          (
            record {
              kept =
                  on_standby_block-AllKept classify id round parent hash at bytes s.core (e, small)
                    sound.kept;
              small = omega arith;
            },
            tip,
          )

      go :
          (v : StandbyVerdict)
          → IsFine classify n (elim v [
            | ok ↦ stay t
            | mismatch r ↦ stay (drop_upstream id (env.now + bad_peer_cooldown) t)
          ])
      go ok = stay-IsFine classify n t kept
      go (mismatch r) = stay-IsFine classify n _ (drop_upstream-At classify n id _ t kept)

  on_block-IsFine :
      (id : ℕ) (bytes : List ℕ) (round parent hash at : ℕ) (env : Outside) (s : Session)
      → classify bytes ≡ some (round, parent, hash)
      → round < u32_max
      → IsSound classify s.core
      → IsFine classify s.core.last_forwarded (on_block id bytes round parent hash at env s)
  unfolding on_block
  on_block-IsFine id bytes round parent hash at env s e small sound =
      let n : ℕ = s.core.last_forwarded in
      elim (Bool-cases (is_bad_round round env.net_tip)) [
        | inl bad ↦ elim (Bool-cases (id == s.core.active)) [
          | inl own ↦
              rw (bad, own) (stay-IsFine classify n _ (mark_dead-At n env.now s (sound, refl)))
          | inr other ↦
              rw (bad, other)
                (stay-IsFine classify n _ (drop_known-At classify n id _ s (sound, refl)))
        ]
        | inr fair ↦
            let pos : 0 < round = plausible_pos round env.net_tip fair in
            elim (Bool-cases (id == s.core.active)) [
              | inl own ↦
                  rw (fair, own)
                    (on_active_round-IsFine bytes round parent hash at env s e small pos sound)
              | inr other ↦
                  rw (fair, other)
                    (on_standby_round-At id bytes round parent hash at env s e small sound)
            ]
      ]

  on_control-IsFine :
      (id : ℕ) (bytes : List ℕ) (env : Outside) (s : Session)
      → classify bytes ≡ none
      → IsSound classify s.core
      → IsFine classify s.core.last_forwarded (on_control id bytes env s)
  unfolding on_control
  on_control-IsFine id bytes env s e sound =
      let n : ℕ = s.core.last_forwarded in
      elim (Bool-cases (id == s.core.active)) [
        | inr other ↦ rw other (stay-IsFine classify n s (sound, refl))
        | inl own ↦ elim (Bool-cases (is_some s.active_dead)) [
          | inl dead ↦ rw (own, dead) (stay-IsFine classify n s (sound, refl))
          | inr alive ↦
              rw (own, alive)
                (send_frames-IsFine classify env.room n (bytes ∷ []) s sound (rw e (omega arith)))
        ]
      ]

  pub on_frame-IsFine :
      (id : ℕ) (bytes : List ℕ) (at : ℕ) (env : Outside) (s : Session)
      → IsSmall (classify bytes)
      → IsSound classify s.core
      → IsFine classify s.core.last_forwarded (on_frame classify id bytes at env s)
  unfolding on_frame
  on_frame-IsFine id bytes at env s fits sound = elim (Option-cases (lookup id s.lives)) [
    | inl gone ↦ rw (gone, on_frame) (stay-IsFine classify _ s (sound, refl))
    | inr (slot, live) ↦ elim (Option-cases (classify bytes)) [
      | inl control ↦ rw (live, on_frame, control) (on_control-IsFine id bytes env s control sound)
      | inr ((round, parent, hash), e) ↦
          let small : round < u32_max = rw e at fits in
          rw (live, on_frame, e) (on_block-IsFine id bytes round parent hash at env s e small sound)
    ]
  ]

  pub on_prefetched-IsFine :
      (bytes : List ℕ) (env : Outside) (s : Session)
      → IsSmall (classify bytes)
      → IsSound classify s.core
      → IsFine classify s.core.last_forwarded (on_prefetched classify bytes env s)
  unfolding on_prefetched
  on_prefetched-IsFine bytes env s fits sound =
      let n : ℕ = s.core.last_forwarded in
      elim (Option-cases (classify bytes)) [
        | inl control ↦
            rw (control, on_prefetched)
              (send_frames-IsFine classify env.room n (bytes ∷ []) s sound
                (rw control (omega arith)))
        | inr ((round, parent, hash), e) ↦
            let small : round < u32_max = rw e at fits in
            elim (Bool-cases (is_plausible_mainnet_round round env.net_tip)) [
              | inr wild ↦
                  rw (e, on_prefetched, wild) (record { sound = sound; climbs = omega arith })
              | inl fair ↦ elim (Option-cases (on_round round env.now s.progress)) [
                | inl jump ↦
                    rw (e, on_prefetched, fair, jump)
                      (record { sound = sound; climbs = omega arith })
                | inr (p, next) ↦ elim (Bool-cases (leb round env.live_floor)) [
                  | inl under ↦
                      rw (e, on_prefetched, fair, next, under)
                        (stay-IsFine classify n (record s { progress = p }) (sound, refl))
                  | inr over ↦
                      let pos : 0 < round = plausible round env.net_tip fair in
                      let x : Core × (Bool × List (ℕ × ℕ)) =
                        on_active_block round hash env.now s.core in
                      rw (e, on_prefetched, fair, next, over)
                        (forwarded-IsFine x.1.0 env.room n round bytes parent hash
                          (record s { progress = p; core = x.0 }) e
                          (on_active_block-IsSound round hash env.now s.core pos small sound)
                          (on_active_block-tip round hash env.now s.core pos))
                ]
              ]
            ]
      ]
