-- ===== src/Failover/Session/Blocks.antt =====
-- What a failover session does with a frame (src/failover/session.rs): Event::Frame and the
-- prefetched frames. `classify` says whether a frame is a live block: its round, parent and hash.
use hypersync.Prelude.{
  ℕ, ◌+◌, Bool, ◌||◌, not, Option, none, some, List, [], ◌∷◌, leb, ◌==◌, if◌then◌else◌,
}
use hypersync.Maps.{lookup}
use hypersync.Protocol.Rounds.{is_plausible_mainnet_round, round_lag_from_tip, active_round_max_lag}
use hypersync.Push.Progress.{on_round}
use hypersync.Failover.Core.{ok, mismatch, on_active_block, on_standby_block}
use hypersync.Failover.Session.{
  Outside, implausible_prefetched, prefetched_jump, Session, Outcome, stay, leave, is_some,
  send_frames, drop_upstream, drop_known, drop_bads, mark_dead, bad_peer_cooldown,
}

-- The macro forward_active_block.
unfoldable pub forward_active_block : List ℕ → ℕ → ℕ → ℕ → Outside → Session → Outcome
forward_active_block bytes round hash at env s =
    if leb round env.live_floor
    then stay s
    else let (core', (fwd, bads)) = on_active_block round hash at s.core in
      let s' = drop_bads bads (env.now + bad_peer_cooldown) (record s { core = core' }) in
      if fwd then send_frames env.room (bytes ∷ []) s' else stay s'

-- A block of the active that passed the checks on its round.
unfoldable pub on_active_round : List ℕ → ℕ → ℕ → ℕ → Outside → Session → Outcome
unfolding forward_active_block
on_active_round bytes round hash at env s =
    if is_some s.active_dead then stay s else elim (on_round round at s.progress) [
      | none ↦ stay (mark_dead env.now s)
      | some p ↦ forward_active_block bytes round hash at env (record s { progress = p })
    ]

-- And one of a standby.
unfoldable pub on_standby_round : ℕ → List ℕ → ℕ → ℕ → ℕ → ℕ → Outside → Session → Outcome
on_standby_round id bytes round parent hash at env s =
    let (core', verdict) = on_standby_block id round parent hash at bytes s.core in
    elim verdict [
      | ok ↦ stay (record s { core = core' })
      | mismatch r ↦
          stay (drop_upstream id (env.now + bad_peer_cooldown) (record s { core = core' }))
    ]

abbrev pub is_bad_round : ℕ → ℕ → Bool
is_bad_round round tip =
    not (is_plausible_mainnet_round round tip)
    || is_some (round_lag_from_tip round tip active_round_max_lag)

unfoldable pub on_block : ℕ → List ℕ → ℕ → ℕ → ℕ → ℕ → Outside → Session → Outcome
unfolding on_active_round on_standby_round
on_block id bytes round parent hash at env s =
    if is_bad_round round env.net_tip
    then stay (
        if id == s.core.active
        then mark_dead env.now s
        else drop_known id (env.now + bad_peer_cooldown) s)
    else if id == s.core.active
    then on_active_round bytes round hash at env s
    else on_standby_round id bytes round parent hash at env s

-- Control and other data: from the active only.
unfoldable pub on_control : ℕ → List ℕ → Outside → Session → Outcome
on_control id bytes env s =
    if id == s.core.active
    then (if is_some s.active_dead then stay s else send_frames env.room (bytes ∷ []) s)
    else stay s

module _ (classify : List ℕ → Option (ℕ × ℕ × ℕ)) where
  unfoldable pub on_frame : ℕ → List ℕ → ℕ → Outside → Session → Outcome
  unfolding on_block on_control
  on_frame id bytes at env s = elim (lookup id s.lives) [
    | none ↦ stay s
    | some slot ↦ elim (classify bytes) [
      | none ↦ on_control id bytes env s
      | some (round, parent, hash) ↦ on_block id bytes round parent hash at env s
    ]
  ]

  -- One prefetched frame.
  unfoldable pub on_prefetched : List ℕ → Outside → Session → Outcome
  on_prefetched bytes env s = elim (classify bytes) [
    | none ↦ send_frames env.room (bytes ∷ []) s
    | some (round, _, hash) ↦
        if not (is_plausible_mainnet_round round env.net_tip)
        then leave (implausible_prefetched round) s
        else elim (on_round round env.now s.progress) [
          | none ↦ leave (prefetched_jump round) s
          | some p ↦
              let s' = record s { progress = p } in
              if leb round env.live_floor
              then stay s'
              else let (core', (fwd, bads)) = on_active_block round hash env.now s'.core in
                if fwd
                then send_frames env.room (bytes ∷ []) (record s' { core = core' })
                else stay (record s' { core = core' })
        ]
  ]
