-- ===== src/Failover/Session/Run.antt =====
-- The event loop of a failover session (src/failover/session.rs, serve_failover).
use Prim.Native.String.{String}
use hypersync.Prelude.{
  ℕ, ◌+◌, ◌*◌, Bool, false, Option, none, some, List, [], ◌∷◌, ◌==◌, if◌then◌else◌,
}
use hypersync.Maps
use hypersync.Maps.{lookup}
use hypersync.Priority
use hypersync.Failover.Core.{add_standby, mark_preferred}
use hypersync.Failover.Session.{
  FailoverConfig, Outside, Event, frame, closed, connected, connect_failed, node_bytes, node_closed,
  writer_ended, tick, Session, Outcome, and_then, stay, leave, node_gone, node_writer_closed,
  drop_upstream, mark_dead, standby_retry,
}
use hypersync.Failover.Session.Blocks.{on_frame, on_prefetched}
use hypersync.Failover.Session.Tick.{on_tick}

unfoldable pub on_closed : ℕ → Outside → Session → Session
on_closed id env s =
    if id == s.core.active
    then mark_dead env.now s
    else drop_upstream id (env.now + standby_retry * 5) s

unfoldable pub on_connected : String → Bool → Outside → Session → Session
on_connected ip slot env s =
    let core' = add_standby s.next_id ip s.core in
    record s {
      connecting = false;
      next_id = s.next_id + 1;
      lives = Maps.put s.next_id slot s.lives;
      core = if Priority.contains ip env.tier then mark_preferred s.next_id core' else core';
    }

unfoldable pub on_connect_failed : Outside → Session → Session
on_connect_failed env s = record s { connecting = false; next_connect = env.now + standby_retry }

unfoldable pub on_node_bytes : Bool → Outside → Session → Session
on_node_bytes written env s = elim (lookup s.core.active s.lives) [
  | none ↦ s
  | some slot ↦ if written then s else mark_dead env.now s
]

module _ (classify : List ℕ → Option (ℕ × ℕ × ℕ)) (fo : FailoverConfig) where
  unfoldable pub step : Event → Outside → Session → Outcome
  unfolding on_closed on_connected on_connect_failed on_node_bytes
  step (frame id bytes at) env s = on_frame classify id bytes at env s
  step (closed id) env s = stay (on_closed id env s)
  step (connected ip slot) env s = stay (on_connected ip slot env s)
  step connect_failed env s = stay (on_connect_failed env s)
  step (node_bytes written) env s = stay (on_node_bytes written env s)
  step node_closed env s = leave node_gone s
  step writer_ended env s = leave node_writer_closed s
  step tick env s = on_tick fo env s

  -- The events, oldest first, until the session ends.
  unfoldable pub run : List (Event × Outside) → Session → Outcome
  unfolding step
  run [] s = stay s
  run ((e, env) ∷ events) s = and_then (step e env s) (λ t. run events t)

  unfoldable pub run_prefetched : List (List ℕ × Outside) → Session → Outcome
  run_prefetched [] s = stay s
  run_prefetched ((bytes, env) ∷ frames) s =
      and_then (on_prefetched classify bytes env s) (λ t. run_prefetched frames t)

  -- A whole session: the prefetched frames, then the events.
  unfoldable pub serve : List (List ℕ × Outside) → List (Event × Outside) → Session → Outcome
  unfolding run run_prefetched
  serve frames events s = and_then (run_prefetched frames s) (λ t. run events t)
