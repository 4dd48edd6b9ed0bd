-- ===== src/Push/Live.antt =====
-- The live stream of an upstream without standbys (src/push/live.rs): process_live_frame,
-- pump_merge and the loop of serve_push. Sockets are left out: what a read gives is an argument.
pub mod Session
mod Tests
use Prim.Native.String.{String}
use hypersync.Prelude.{
  ℕ, ◌+◌, ◌-◌, ◌*◌, Bool, true, false, ◌&&◌, ◌||◌, not, Option, none, some, List, [], ◌∷◌, ◌++◌,
  leb, ltb, ◌==◌, if◌then◌else◌, length, max, saturating_add, from_be_bytes,
}
use hypersync.Protocol.Rounds.{
  is_plausible_mainnet_round, round_lag_from_tip, active_round_max_lag, max_live_frame,
}
use hypersync.Protocol.BlockRound.{block_round}
use hypersync.Protocol.Forward.{RoundForwardGate, should_forward}
use hypersync.Push.Freshest.{FreshestRound, offer, max_active_round_jump}
use hypersync.Push.Progress.{BlockProgress, on_round, lagging, hold, stalled}

pub record PushStats : Type 0 where
  pub control_fwd : ℕ
  pub blocks_fwd : ℕ
  pub data_noround_fwd : ℕ
  pub bytes_fwd : ℕ
  pub drop_floor : ℕ
  pub drop_gate : ℕ

pub data FrameKindSeen : Type 0 where
  control : FrameKindSeen
  block : FrameKindSeen
  data_no_round : FrameKindSeen

unfoldable pub forwarded : FrameKindSeen → List ℕ → PushStats → PushStats
forwarded control frame t = record t {
  control_fwd = t.control_fwd + 1;
  bytes_fwd = t.bytes_fwd + length frame;
}
forwarded block frame t = record t {
  blocks_fwd = t.blocks_fwd + 1;
  bytes_fwd = t.bytes_fwd + length frame;
}
forwarded data_no_round frame t = record t {
  data_noround_fwd = t.data_noround_fwd + 1;
  bytes_fwd = t.bytes_fwd + length frame;
}

-- Why a stream ends.
pub data Fault : Type 0 where
  short_frame : Fault
  mis_sized_frame : Fault
  implausible_round : ℕ → Fault
  round_jump : ℕ → Fault
  lags_freshest : ℕ → Fault
  lags_tip : ℕ → Fault
  node_writer_closed : Fault
  no_block_progress : Fault
  read_failed : Fault
  oversized_frame : Fault
  stalled_behind_freshest : ℕ → Fault
  ended_elsewhere : Fault

-- What a frame finds outside the stream: the time, the network tip, the node's live floor, the shared
-- freshest round if the gateway keeps one, whether the node's queue is backed up, and whether the
-- queue still takes a frame.
pub record Outside : Type 0 where
  pub now : ℕ
  pub net_tip : ℕ
  pub live_floor : ℕ
  pub freshest : Option FreshestRound
  pub node_backed_up : Bool
  pub room : Bool

-- `own` is the feed's own highest round.
pub record PushState : Type 0 where
  pub gate : RoundForwardGate
  pub active_round : ℕ
  pub own : ℕ
  pub progress : BlockProgress
  pub stats : PushStats

-- The state after a frame, what was queued to the node, the shared freshest round, and the fault.
pub record Outcome : Type 0 where
  pub state : PushState
  pub sent : List (List ℕ)
  pub freshest : Option FreshestRound
  pub fault : Option Fault

abbrev pub stay : Outside → PushState → Outcome
stay env s = record { state = s; sent = []; freshest = env.freshest; fault = none }

abbrev pub fail : Fault → Outside → PushState → Outcome
fail e env s = record { state = s; sent = []; freshest = env.freshest; fault = some e }

-- The end of both functions: count the frame and queue it.
unfoldable pub send_counted : FrameKindSeen → List ℕ → Outside → PushState → Outcome
unfolding forwarded
send_counted kind frame env s =
    let s' = record s { stats = forwarded kind frame s.stats } in
    if env.room
    then record { state = s'; sent = frame ∷ []; freshest = env.freshest; fault = none }
    else fail node_writer_closed env s'

-- The floor and the forward gate.
unfoldable pub gated : List ℕ → ℕ → Outside → PushState → Outcome
unfolding send_counted
gated frame rnd env s =
    if leb rnd env.live_floor
    then stay env (record s { stats = record s.stats { drop_floor = s.stats.drop_floor + 1 } })
    else let (gate', through) = should_forward s.gate rnd true in
      if through
      then send_counted block frame env (record s { gate = gate' })
      else stay env
          (record s { gate = gate'; stats = record s.stats { drop_gate = s.stats.drop_gate + 1 } })

-- The tip's lag, then the floor and the gate.
unfoldable pub check_tip : List ℕ → ℕ → Outside → PushState → Outcome
unfolding gated
check_tip frame rnd env s = elim (round_lag_from_tip rnd env.net_tip active_round_max_lag) [
  | some lag ↦ fail (lags_tip lag) env s
  | none ↦ gated frame rnd env s
]

-- What the two reads give: the header, and the payload if its read succeeds.
pub data Read : Type 0 where
  no_header : Read
  header : ℕ → ℕ → ℕ → ℕ → ℕ → Option (List ℕ) → Read

module _ (decompress_size_prepended : List ℕ → Option (List ℕ)) (id : ℕ) (peer : String) where
  -- `feed.offer`, where there is a feed.
  unfoldable pub offer_round : ℕ → Outside → PushState → Outside × PushState
  offer_round rnd env s = elim env.freshest [
    | none ↦ (env, s)
    | some f ↦ (
      record env { freshest = some (offer id peer rnd env.now f) },
      record s { own = max s.own rnd },
    )
  ]

  -- The kind of a frame; `on_block` is what happens to a block of a round.
  unfoldable pub by_kind : ℕ → List ℕ → List ℕ → Outside → PushState → (ℕ → Outcome) → Outcome
  by_kind typ payload frame env s on_block =
      if not (typ == 1)
      then send_counted control frame env s
      else elim (block_round decompress_size_prepended payload) [
        | none ↦ send_counted data_no_round frame env s
        | some rnd ↦ on_block rnd
      ]

  -- A block of process_live_frame.
  unfoldable pub process_block : List ℕ → ℕ → Outside → PushState → Outcome
  unfolding offer_round check_tip
  process_block frame rnd env s =
      if not (is_plausible_mainnet_round rnd env.net_tip)
      then fail (implausible_round rnd) env s
      else if not (s.active_round == 0)
          && ltb (saturating_add s.active_round max_active_round_jump) rnd
      then fail (round_jump rnd) env s
      else let (env', s') =
          offer_round rnd env (record s { active_round = max s.active_round rnd }) in
        check_tip frame rnd env' s'

  unfoldable pub process_live_frame : List ℕ → Outside → PushState → Outcome
  unfolding process_block by_kind
  process_live_frame (b0 ∷ b1 ∷ b2 ∷ b3 ∷ typ ∷ payload) env s =
      let frame = b0 ∷ b1 ∷ b2 ∷ b3 ∷ typ ∷ payload in
      if not (from_be_bytes b0 b1 b2 b3 == length payload)
      then fail mis_sized_frame env s
      else by_kind typ payload frame env s (λ rnd. process_block frame rnd env s)
  process_live_frame frame env s = fail short_frame env s

  -- The freshest round's offer and the check against it, where the gateway keeps one.
  unfoldable pub check_freshest : List ℕ → ℕ → Outside → PushState → Outcome
  unfolding check_tip
  check_freshest frame rnd env s = elim env.freshest [
    | none ↦ check_tip frame rnd env s
    | some f ↦
        let f' = offer id peer rnd env.now f in
        let env' = record env { freshest = some f' } in
        let (progress', behind) = lagging f' env.node_backed_up env.now s.progress in
        let s' = record s { own = max s.own rnd; progress = progress' } in
        elim behind [ some b ↦ fail (lags_freshest b) env' s' | none ↦ check_tip frame rnd env' s' ]
  ]

  -- A block of pump_merge.
  unfoldable pub pump_block : List ℕ → ℕ → Outside → PushState → Outcome
  unfolding check_freshest
  pump_block frame rnd env s =
      if not (is_plausible_mainnet_round rnd env.net_tip)
      then fail (implausible_round rnd) env s
      else elim (on_round rnd env.now s.progress) [
        | none ↦ fail (round_jump rnd) env s
        | some p ↦
            check_freshest frame rnd env
              (record s { progress = p; active_round = max s.active_round rnd })
      ]

  unfoldable pub pump_read : Read → Outside → PushState → Outcome
  unfolding pump_block by_kind
  pump_read no_header env s = fail read_failed env s
  pump_read (header b0 b1 b2 b3 typ body) env s =
      if ltb max_live_frame (from_be_bytes b0 b1 b2 b3)
      then fail oversized_frame env s
      else elim body [
        | none ↦ fail read_failed env s
        | some payload ↦
            let frame = b0 ∷ b1 ∷ b2 ∷ b3 ∷ typ ∷ payload in
            by_kind typ payload frame env s (λ rnd. pump_block frame rnd env s)
      ]

  -- One round of pump_merge's loop. `before` is what its first checks find.
  unfoldable pub pump_unless_stalled : Outside → Read → Outside → PushState → Outcome
  unfolding pump_read
  pump_unless_stalled before read env s =
      if stalled before.now s.progress then fail no_block_progress env s else pump_read read env s

  unfoldable pub pump : Outside → Read → Outside → PushState → Outcome
  unfolding pump_unless_stalled
  pump before read env s =
      if before.node_backed_up
      then pump_unless_stalled before read env (record s { progress = hold before.now s.progress })
      else pump_unless_stalled before read env s
