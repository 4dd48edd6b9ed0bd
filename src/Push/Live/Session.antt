-- ===== src/Push/Live/Session.antt =====
-- A push session after its greeting (src/push/live.rs, serve_push): the prefetched frames, then the
-- pump's frames and the timer of the loop, in the order they happen.
pub mod Relays
pub mod Faithful
pub mod Whole
use Prim.Native.String.{String}
use hypersync.Prelude.{
  ℕ, Bool, true, false, ◌&&◌, Option, none, some, List, [], ◌∷◌, ◌++◌, if◌then◌else◌,
}
use hypersync.Protocol.Forward.{with_last_forwarded}
use hypersync.Push.Freshest
use hypersync.Push.Freshest.{FreshestRound}
use hypersync.Push.Progress
use hypersync.Push.Progress.{StalledBehind, check}
use hypersync.Push.Live.{
  PushStats, Fault, stalled_behind_freshest, ended_elsewhere, Outside, PushState, Outcome, Read,
  process_live_frame, pump,
}

abbrev pub stall_lag_rounds : ℕ
stall_lag_rounds = 45

-- 3 s.
abbrev pub stall_lag_grace : ℕ
stall_lag_grace = 3_000_000_000

abbrev pub stall_lag_widen : ℕ
stall_lag_widen = 30

-- A round of the pump, the stall timer, or one of the loop's other ends: a failover, the blacklist,
-- the caller's own end, a node that is gone or does not read.
pub data Activity : Type 0 where
  pumped : Outside → Read → Outside → Activity
  stall_tick : Outside → Activity
  other_end : Activity

pub record Session : Type 0 where
  pub stream : PushState
  pub stalled_behind : StalledBehind

-- A session's state, all that it queued to the node, and why it ended, if it did.
pub record Served : Type 0 where
  pub session : Session
  pub sent : List (List ℕ)
  pub fault : Option Fault

abbrev pub session_after : Session → Outcome → Served
session_after s o = record {
  session = record s { stream = o.state };
  sent = o.sent;
  fault = o.fault;
}

abbrev pub and_then : Served → (Session → Served) → Served
and_then o k = elim o.fault [
  | some e ↦ o
  | none ↦
      let p = k o.session in
      record { session = p.session; sent = o.sent ++ p.sent; fault = p.fault }
]

unfoldable pub check_stall : Outside → Session → Served
check_stall env s = elim env.freshest [
  | none ↦ record { session = s; sent = []; fault = none }
  | some f ↦
      let (stalled_behind', behind) =
        check s.stream.own (Freshest.get env.now f) env.node_backed_up env.now s.stalled_behind in
      let s' = record s { stalled_behind = stalled_behind' } in
      elim behind [
        | none ↦ record { session = s'; sent = []; fault = none }
        | some b ↦ record { session = s'; sent = []; fault = some (stalled_behind_freshest b) }
      ]
]

unfoldable pub no_stats : PushStats
no_stats = record {
  control_fwd = 0;
  blocks_fwd = 0;
  data_noround_fwd = 0;
  bytes_fwd = 0;
  drop_floor = 0;
  drop_gate = 0;
}

-- The state of a session whose node has the rounds to `initial_last_forwarded`.
unfoldable pub start : ℕ → ℕ → Session
unfolding no_stats
start initial_last_forwarded now = record {
  stream = record {
    gate = with_last_forwarded 16_384 initial_last_forwarded;
    active_round = initial_last_forwarded;
    own = 0;
    progress = Progress.new initial_last_forwarded now;
    stats = no_stats;
  };
  stalled_behind = record {
    rounds = stall_lag_rounds;
    grace = stall_lag_grace;
    widen = stall_lag_widen;
    since = none;
  };
}

-- The pump's progress starts at the highest round of the prefetched frames.
unfoldable pub start_pump : ℕ → Session → Session
start_pump now s = record s {
  stream = record s.stream { progress = Progress.new s.stream.active_round now };
}

module _ (decompress_size_prepended : List ℕ → Option (List ℕ)) (id : ℕ) (peer : String) where
  unfoldable pub act : Activity → Session → Served
  unfolding check_stall
  act (pumped before read env) s =
      session_after s (pump decompress_size_prepended id peer before read env s.stream)
  act (stall_tick env) s = check_stall env s
  act other_end s = record { session = s; sent = []; fault = some ended_elsewhere }

  unfoldable pub run : List Activity → Session → Served
  unfolding act
  run [] s = record { session = s; sent = []; fault = none }
  run (a ∷ activities) s = and_then (act a s) (λ t. run activities t)

  unfoldable pub run_prefetched : List (List ℕ × Outside) → Session → Served
  run_prefetched [] s = record { session = s; sent = []; fault = none }
  run_prefetched ((frame, env) ∷ frames) s =
      and_then
        (session_after s (process_live_frame decompress_size_prepended id peer frame env s.stream))
        (λ t. run_prefetched frames t)

  -- The whole session; `now` is when the pump starts.
  unfoldable pub serve_push : List (List ℕ × Outside) → ℕ → List Activity → Session → Served
  unfolding run run_prefetched start_pump
  serve_push frames now activities s =
      and_then (run_prefetched frames s) (λ t. run activities (start_pump now t))
