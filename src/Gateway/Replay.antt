-- ===== src/Gateway/Replay.antt =====
-- The replay of the cached bootstrap to a node that asks for one (src/gateway/cache.rs,
-- cache_replay_blob and ReplayInFlight; src/gateway/session.rs, replay_cache_then_live). Several
-- greetings of one node run at once: a step is what one of them does between two points where the
-- others may run.
pub mod Alone
mod Tests
use hypersync.Prelude.{
  ℕ, ◌+◌, ◌*◌, Bool, true, false, ◌&&◌, not, Option, none, some, List, [], ◌∷◌, ◌==◌, if◌then◌else◌,
  get_elem?, set,
}
use hypersync.Gateway.Cache.{should_replay_cache, bounded_cache_floor, raise_round_floor}

-- The part of a node's state that replays use.
pub record Node : Type 0 where
  pub last_cache_replay_secs : ℕ
  pub replay_in_flight : Bool
  pub live_floor : ℕ

-- What a step finds outside: the time, whether the node has an active session, when the cache was
-- captured and whether there is one, whether the node takes the whole blob, the round at the blob's
-- tail (zero: none) and the network tip.
pub record Outside : Type 0 where
  pub now : ℕ
  pub has_active_session : Bool
  pub cached_at : ℕ
  pub has_blob : Bool
  pub taken : Bool
  pub tail_round : ℕ
  pub net_tip : ℕ

-- How far a greeting is: it came; it read the clock, the last replay's time and whether a session is
-- active; it may replay; it stamped the replay's start and writes; the write ended; it set the floor
-- and goes on live; the node is gone; it goes on with a bootstrap from a peer; it cleared the floor for
-- that and relays.
pub data Greeting : Type 0 where
  greeted : Greeting
  looked : ℕ → ℕ → Bool → Greeting
  claimed : Greeting
  writing : Greeting
  written : Greeting
  live : ℕ → Greeting
  dropped : Greeting
  transparent : Greeting
  relayed : Greeting

-- The floor after a replay, and the floor that it set (zero: none), which is cleared later.
unfoldable pub raise_replay_floor : ℕ → ℕ → ℕ → ℕ × ℕ
raise_replay_floor floor tail_round net_tip =
    let cache_floor = bounded_cache_floor tail_round net_tip in
    let (floor', rose) = raise_round_floor floor cache_floor in
    if not (cache_floor == 0) && rose then (floor', cache_floor) else (floor, 0)

-- The compare-and-swap that clears it after its time.
unfoldable pub expire_floor : ℕ → ℕ → ℕ
expire_floor cache_floor floor = if not (cache_floor == 0) && floor == cache_floor then 0 else floor

-- The test, and the compare-and-swap that claims the replay.
unfoldable pub claim : ℕ → ℕ → Bool → Outside → Node → Greeting × Node
claim now last has_active_session env n =
    if env.has_blob && should_replay_cache now last has_active_session env.cached_at
    then (if n.replay_in_flight
        then (transparent, n)
        else (claimed, record n { replay_in_flight = true }))
    else (transparent, n)

unfoldable pub advance : Greeting → Outside → Node → Greeting × Node
unfolding claim raise_replay_floor
advance greeted env n = (looked env.now n.last_cache_replay_secs env.has_active_session, n)
advance (looked now last active) env n = claim now last active env n
advance claimed env n = (writing, record n { last_cache_replay_secs = env.now })
advance writing env n =
    (if env.taken then written else dropped, record n { replay_in_flight = false })
advance written env n =
    let (floor, cache_floor) = raise_replay_floor n.live_floor env.tail_round env.net_tip in
    (live cache_floor, record n { last_cache_replay_secs = env.now; live_floor = floor })
advance (live cache_floor) env n =
    (live cache_floor, record n { live_floor = expire_floor cache_floor n.live_floor })
advance dropped env n = (dropped, n)
advance transparent env n = (relayed, record n { live_floor = 0 })
advance relayed env n = (relayed, n)

-- A step of the greeting `i`.
unfoldable pub step : ℕ → Outside → List Greeting × Node → List Greeting × Node
unfolding advance
step i env (greetings, n) = elim (get_elem? greetings i) [
  | none ↦ (greetings, n)
  | some g ↦ let (g', n') = advance g env n in (set greetings i g', n')
]

unfoldable pub run : List (ℕ × Outside) → List Greeting × Node → List Greeting × Node
unfolding step
run [] s = s
run ((i, env) ∷ schedule) s = run schedule (step i env s)
