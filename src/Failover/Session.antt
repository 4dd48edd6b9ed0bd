-- ===== src/Failover/Session.antt =====
-- A failover session (src/failover/session.rs, serve_failover): its state, what reaches it, and what
-- it does with a queue to the node and with upstreams that it drops. Sockets and tasks are left out:
-- an upstream's connection is its id, and a priority slot is whether the upstream holds one.
pub mod Blocks
pub mod Tick
pub mod Run
pub mod Classify
pub mod Kept
pub mod Replayed
pub mod Climbs
pub mod Handled
pub mod Ticked
pub mod Served
mod Tests
use Prim.Native.String.{String}
use text.Mathlib.Text.{◌==◌ as str_eq}
use hypersync.Prelude.{
  ℕ, zero, suc, ◌+◌, ◌*◌, Bool, true, false, Option, none, some, List, [], ◌∷◌, ◌++◌, ltb,
  if◌then◌else◌,
}
use hypersync.Maps
use hypersync.Maps.{lookup}
use hypersync.Failover.Upstream.{Upstream}
use hypersync.Failover.Core
use hypersync.Failover.Core.{Core}
use hypersync.Push.Progress
use hypersync.Push.Progress.{BlockProgress}
use hypersync.Priority.{PriorityTier}

-- 3 s.
abbrev pub active_dead_grace : ℕ
active_dead_grace = 3_000_000_000

-- 120 s.
abbrev pub bad_peer_cooldown : ℕ
bad_peer_cooldown = 120_000_000_000

-- 2 s.
abbrev pub standby_retry : ℕ
standby_retry = 2_000_000_000

abbrev pub standby_race : ℕ
standby_race = 4

-- 30 min.
abbrev pub slow_peer_cooldown : ℕ
slow_peer_cooldown = 1_800_000_000_000

-- The part of the configuration that the session reads.
pub record FailoverConfig : Type 0 where
  pub standbys : ℕ
  pub stall : ℕ
  pub lag : ℕ
  pub min_dwell : ℕ
  pub rotate_slower : ℕ
  pub rotate_every : ℕ

-- What an event finds outside the session: the time, the network tip, the node's live floor, how many
-- frames the writer still takes before it closes, the blacklist with its version, the priority tier
-- and the pool.
pub record Outside : Type 0 where
  pub now : ℕ
  pub net_tip : ℕ
  pub live_floor : ℕ
  pub room : ℕ
  pub listed : String → Bool
  pub list_version : ℕ
  pub tier : PriorityTier
  pub pool : List String

-- A frame carries the time when its reader had it. `node_bytes` says whether the write to the active
-- succeeds.
pub data Event : Type 0 where
  frame : ℕ → List ℕ → ℕ → Event
  closed : ℕ → Event
  connected : String → Bool → Event
  connect_failed : Event
  node_bytes : Bool → Event
  node_closed : Event
  writer_ended : Event
  tick : Event

-- Why a session ends.
pub data Exit : Type 0 where
  implausible_prefetched : ℕ → Exit
  prefetched_jump : ℕ → Exit
  node_writer_closed : Exit
  node_gone : Exit
  active_failed : Exit

-- `active_dead` is when the active died, `pinned` the last call of on_switch, `dialed` the
-- candidates of the last connect_standby, and `blacklist_seen` is none before the first tick.
pub record Session : Type 0 where
  pub core : Core
  pub next_id : ℕ
  pub lives : List (ℕ × Bool)
  pub cooldown : List (String × ℕ)
  pub connecting : Bool
  pub next_connect : ℕ
  pub active_dead : Option ℕ
  pub switches : ℕ
  pub progress : BlockProgress
  pub last_rotate : ℕ
  pub rot : ℕ
  pub blacklist_seen : Option ℕ
  pub pinned : Option (String × Bool)
  pub dialed : List String

-- What handling an event gives: the state, the frames queued to the node, and the exit if any.
pub record Outcome : Type 0 where
  pub session : Session
  pub sent : List (List ℕ)
  pub exit : Option Exit

abbrev pub stay : Session → Outcome
stay s = record { session = s; sent = []; exit = none }

abbrev pub leave : Exit → Session → Outcome
leave e s = record { session = s; sent = []; exit = some e }

abbrev pub is_some {ℓ} : {A : Type ℓ} → Option A → Bool
is_some none = false
is_some (some a) = true

-- Going on with `k` after `o`, unless the session has ended.
abbrev pub and_then : Outcome → (Session → Outcome) → Outcome
and_then o k = elim o.exit [
  | some e ↦ o
  | none ↦
      let p = k o.session in record { session = p.session; sent = o.sent ++ p.sent; exit = p.exit }
]

-- queue_frame for one frame after the other, until the writer is closed; whether all were taken.
unfoldable pub queue_frames : ℕ → List (List ℕ) → List (List ℕ) × Bool
queue_frames room [] = ([], true)
queue_frames zero (f ∷ frames) = ([], false)
queue_frames (suc room) (f ∷ frames) =
    let (sent, taken) = queue_frames room frames in (f ∷ sent, taken)

-- The outcome of queueing the frames in a state.
unfoldable pub send_frames : ℕ → List (List ℕ) → Session → Outcome
unfolding queue_frames
send_frames room frames s =
    let (sent, taken) = queue_frames room frames in
    record { session = s; sent = sent; exit = if taken then none else some node_writer_closed }

-- `HashMap::insert` with a string key.
unfoldable pub cool : String → ℕ → List (String × ℕ) → List (String × ℕ)
cool ip until [] = (ip, until) ∷ []
cool ip until ((q, t) ∷ m) = if str_eq q ip then (q, until) ∷ m else (q, t) ∷ cool ip until m

unfoldable pub cool_if : Option String → ℕ → List (String × ℕ) → List (String × ℕ)
unfolding cool
cool_if none until m = m
cool_if (some ip) until m = cool ip until m

-- An upstream goes: `core.remove` with a cooldown of its address, and the end of its connection.
unfoldable pub drop_upstream : ℕ → ℕ → Session → Session
unfolding cool_if
drop_upstream id until s =
    let (core', ip) = Core.remove id s.core in
    record s {
      core = core';
      lives = Maps.remove id s.lives;
      cooldown = cool_if ip until s.cooldown;
    }

-- The same where the connection ends only if the core knows the upstream.
unfoldable pub drop_known : ℕ → ℕ → Session → Session
unfolding drop_upstream
drop_known id until s = elim (lookup id s.core.ups) [ none ↦ s | some u ↦ drop_upstream id until s ]

-- The loop over the standbys that mismatched too often.
unfoldable pub drop_bads : List (ℕ × ℕ) → ℕ → Session → Session
unfolding drop_upstream
drop_bads [] until s = s
drop_bads ((id, round) ∷ bads) until s = drop_bads bads until (drop_upstream id until s)

abbrev pub dead_since : ℕ → Option ℕ → Option ℕ
dead_since now none = some now
dead_since now (some t) = some t

-- `if active_dead.is_none() { active_dead = Some(..) }`.
unfoldable pub mark_dead : ℕ → Session → Session
mark_dead now s = record s { active_dead = dead_since now s.active_dead }

-- `core.ip_of`, and `?` for an upstream that is gone.
unfoldable pub ip_of : ℕ → Core → Option String
ip_of id c = elim (lookup id c.ups) [ none ↦ none | some u ↦ some u.ip ]

abbrev pub ip_or : Option String → String
ip_or none = "?"
ip_or (some ip) = ip

-- The state before the first event: the active upstream alone, `preferred` if it is a priority peer.
unfoldable pub start : FailoverConfig → String → Bool → ℕ → ℕ → Session
unfolding Progress.new
start fo active_ip preferred last_forwarded now =
    let core = Core.new 0 active_ip last_forwarded fo.stall fo.lag fo.min_dwell in
    record {
      core = if preferred then Core.mark_preferred 0 core else core;
      next_id = 1;
      lives = (0, false) ∷ [];
      cooldown = [];
      connecting = false;
      next_connect = now;
      active_dead = none;
      switches = 0;
      progress = Progress.new last_forwarded now;
      last_rotate = now;
      rot = 0;
      blacklist_seen = none;
      pinned = none;
      dialed = [];
    }
