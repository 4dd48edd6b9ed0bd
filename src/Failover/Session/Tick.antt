-- ===== src/Failover/Session/Tick.antt =====
-- The tick of a failover session (src/failover/session.rs): what it does every 25 ms.
use Prim.Native.String.{String}
use text.Mathlib.Text.{◌==◌ as str_eq}
use hypersync.Prelude.{
  ℕ, zero, suc, ◌+◌, ◌-◌, ◌*◌, ◌/◌, ◌%◌, Bool, true, false, ◌&&◌, ◌||◌, not, Option, none, some,
  List, [], ◌∷◌, ◌++◌, leb, ltb, ◌==◌, if◌then◌else◌, length, get_or, take, ns_per_ms,
}
use hypersync.Prelude.Int.{pos}
use hypersync.Maps
use hypersync.Maps.{lookup, put}
use hypersync.Push.Progress
use hypersync.Push.Progress.{stalled}
use hypersync.Priority
use hypersync.Priority.{candidates_at, pool_allowed}
use hypersync.Failover.Core
use hypersync.Failover.Core.{Core}
use hypersync.Failover.Switch.{pick_switch, switch_to, slowest_standby}
use hypersync.Failover.Session.{
  FailoverConfig, Outside, Session, Outcome, and_then, stay, leave, active_failed, is_some,
  queue_frames, node_writer_closed, cool, drop_upstream, drop_bads, mark_dead, ip_of, ip_or,
  active_dead_grace, bad_peer_cooldown, slow_peer_cooldown, standby_retry, standby_race,
}

unfoldable pub check_stalled : ℕ → Session → Session
check_stalled now s =
    if not (is_some s.active_dead) && stalled now s.progress then mark_dead now s else s

-- Is the upstream known and its address blacklisted?
abbrev pub is_banned : (String → Bool) → Option String → Bool
is_banned listed none = false
is_banned listed (some ip) = listed ip

-- The banned standbys among the connections.
unfoldable pub banned_of : (String → Bool) → Core → List (ℕ × Bool) → List ℕ
unfolding ip_of
banned_of listed c [] = []
banned_of listed c ((id, slot) ∷ lives) =
    let rest = banned_of listed c lives in
    if not (id == c.active) && is_banned listed (ip_of id c) then id ∷ rest else rest

-- The loop that drops them, without a cooldown.
unfoldable pub drop_banned : List ℕ → Session → Session
drop_banned [] s = s
drop_banned (id ∷ ids) s =
    drop_banned ids (record s { core = (Core.remove id s.core).0; lives = Maps.remove id s.lives })

abbrev pub is_seen : Option ℕ → ℕ → Bool
is_seen none version = false
is_seen (some v) version = v == version

unfoldable pub check_blacklist : Outside → Session → Session
unfolding banned_of drop_banned
check_blacklist env s =
    if is_seen s.blacklist_seen env.list_version
    then s
    else let t = record s { blacklist_seen = some env.list_version } in
      let u =
        if is_banned env.listed (ip_of t.core.active t.core) then mark_dead env.now t else t in
      drop_banned (banned_of env.listed u.core u.lives) u

-- `lives.get_mut(&id).and_then(|l| l.prio.take())`.
unfoldable pub take_slot : ℕ → List (ℕ × Bool) → List (ℕ × Bool) × Bool
take_slot id lives = elim (lookup id lives) [
  | none ↦ (lives, false)
  | some slot ↦ (put id false lives, slot)
]

-- A switch that sent all its frames: `old` is the active before, `core'` the core after it.
unfoldable pub switched : ℕ → ℕ → String → ℕ → List (ℕ × ℕ) → Core → Session → Session
unfolding take_slot
switched id old old_ip now bads core' s =
    let (lives', slot) = take_slot id s.lives in
    let t = record s {
      active_dead = none;
      switches = s.switches + 1;
      progress = Progress.new core'.last_forwarded now;
      pinned = some (ip_or (ip_of id core'), slot);
      core = (Core.remove old core').0;
      lives = Maps.remove old lives';
      cooldown = cool old_ip (now + bad_peer_cooldown) s.cooldown;
    } in
    drop_bads bads (now + bad_peer_cooldown) t

unfoldable pub try_switch : Outside → Session → Outcome
unfolding switched
try_switch env s = elim (pick_switch s.core env.now (is_some s.active_dead)) [
  | none ↦ stay s
  | some (id, reason) ↦
      let (core', done) = switch_to id env.now s.core in
      elim done [
        | none ↦ stay (record s { core = core' })
        | some (frames, bads) ↦
            let (sent, taken) = queue_frames env.room frames in
            if taken
            then record {
              session =
                  switched id s.core.active (ip_or (ip_of s.core.active s.core)) env.now bads core'
                    s;
              sent = sent;
              exit = none;
            }
            else record {
              session = record s { core = core' };
              sent = sent;
              exit = some node_writer_closed;
            }
      ]
]

-- No standby could continue the chain for the whole grace.
unfoldable pub grace_over : ℕ → Option ℕ → Bool
grace_over now none = false
grace_over now (some t) = leb active_dead_grace (now - t)

abbrev pub standby_count : Core → ℕ
standby_count c = length c.ups - 1

unfoldable pub rotate : FailoverConfig → Outside → Session → Session
rotate fo env s =
    if ltb 0 fo.rotate_slower
      && not s.connecting
      && not (is_some s.active_dead)
      && leb fo.standbys (standby_count s.core)
      && leb fo.rotate_every (env.now - s.last_rotate)
    then (let t = record s { last_rotate = env.now } in
        elim (slowest_standby t.core (pos (fo.rotate_slower / ns_per_ms))
          (λ ip. Priority.contains ip env.tier)) [
            | none ↦ t
            | some (id, lead) ↦ drop_upstream id (env.now + slow_peer_cooldown) t
          ])
    else s

-- `cooldown.retain(|_, until| *until > now)`.
unfoldable pub retain_cooling : ℕ → List (String × ℕ) → List (String × ℕ)
retain_cooling now [] = []
retain_cooling now ((ip, until) ∷ m) =
    let rest = retain_cooling now m in if ltb now until then (ip, until) ∷ rest else rest

unfoldable pub is_cooling : String → List (String × ℕ) → Bool
is_cooling ip [] = false
is_cooling ip ((q, until) ∷ m) = str_eq q ip || is_cooling ip m

unfoldable pub is_in : String → List String → Bool
is_in ip [] = false
is_in ip (q ∷ ips) = str_eq q ip || is_in ip ips

abbrev cons_some : Option String → List String → List String
cons_some none ips = ips
cons_some (some ip) ips = ip ∷ ips

unfoldable pub in_use : Core → List (ℕ × Bool) → List String
unfolding ip_of
in_use c [] = []
in_use c ((id, slot) ∷ lives) = cons_some (ip_of id c) (in_use c lives)

-- The pool from `start` on, around its end, with the number of entries left.
unfoldable pub rotated : List String → ℕ → ℕ → List String
rotated pool start zero = []
rotated pool start (suc left) = get_or pool (start % length pool) "" ∷ rotated pool (start + 1) left

-- The `retain` of the candidates, with those seen so far.
unfoldable pub dialable : List String → List (String × ℕ) → List String → List String → List String
unfolding is_cooling is_in
dialable used cooldown seen [] = []
dialable used cooldown seen (ip ∷ cands) =
    elim (not (is_in ip used) && not (is_cooling ip cooldown) && not (is_in ip seen)) [
      | true ↦ ip ∷ dialable used cooldown (ip ∷ seen) cands
      | false ↦ dialable used cooldown seen cands
    ]

unfoldable pub standby_candidates : Outside → Session → List String
unfolding rotated dialable in_use
standby_candidates env s =
    let prio = candidates_at env.listed env.now env.tier in
    let cands =
      if not (length env.pool == 0) && pool_allowed env.listed env.now env.tier
      then prio ++ rotated env.pool s.rot (length env.pool)
      else prio in
    take (standby_race * 3) (dialable (in_use s.core s.lives) s.cooldown [] cands)

unfoldable pub fill : FailoverConfig → Outside → Session → Session
unfolding retain_cooling standby_candidates
fill fo env s =
    if not s.connecting && ltb (standby_count s.core) fo.standbys && leb s.next_connect env.now
    then (let t = record s { cooldown = retain_cooling env.now s.cooldown } in
        let cands = standby_candidates env t in
        if length cands == 0
        then record t { rot = s.rot + 1; next_connect = env.now + standby_retry }
        else record t { rot = s.rot + 1; connecting = true; dialed = cands })
    else s

-- The tick once the switch is done and sent its frames.
unfoldable pub after_switch : FailoverConfig → Outside → Session → Outcome
unfolding rotate fill grace_over
after_switch fo env s =
    if grace_over env.now s.active_dead
    then leave active_failed s
    else stay (fill fo env (rotate fo env s))

unfoldable pub on_tick : FailoverConfig → Outside → Session → Outcome
unfolding check_stalled check_blacklist try_switch after_switch
on_tick fo env s =
    and_then (try_switch env (check_blacklist env (check_stalled env.now s)))
      (λ t. after_switch fo env t)
