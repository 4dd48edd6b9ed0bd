-- ===== src/Gateway/Replay/Tests.antt =====
-- Runs of replays of one node, and the theorem on them.
use hypersync.Prelude.{ℕ, ◌≤◌, ◌≡◌, refl, Bool, true, false, List, [], ◌∷◌}
use hypersync.Gateway.Cache.{should_replay_cache}
use hypersync.Gateway.Replay.{
  Node, Outside, Greeting, greeted, claimed, writing, dropped, transparent, run,
}
use hypersync.Gateway.Replay.Alone.{holders, flag, run-Alone}

-- A cache of second 1,000, and a node that takes the blob or not.
abbrev outside : ℕ → Bool → Outside
outside now taken = record {
  now = now;
  has_active_session = false;
  cached_at = 1_000;
  has_blob = true;
  taken = taken;
  tail_round = 1_356_000_000;
  net_tip = 1_356_000_100;
}

abbrev node : Node
node = record { last_cache_replay_secs = 0; replay_in_flight = false; live_floor = 0 }

abbrev two : List Greeting
two = greeted ∷ greeted ∷ []

-- Both greetings look before either claims.
abbrev contended : List (ℕ × Outside)
contended =
    (0, outside 1_100 true)
    ∷ (1, outside 1_100 true)
    ∷ (0, outside 1_100 true)
    ∷ (0, outside 1_101 true)
    ∷ (1, outside 1_101 true)
    ∷ []

one_replays : (run contended (two, node)).0 ≡ writing ∷ transparent ∷ []
unfolding run should_replay_cache
one_replays = refl

-- The second greeting looked before the first one's replay, which broke off: it replays at once.
abbrev early_look : List (ℕ × Outside)
early_look =
    (0, outside 1_100 true)
    ∷ (1, outside 1_100 true)
    ∷ (0, outside 1_100 true)
    ∷ (0, outside 1_100 true)
    ∷ (0, outside 1_101 false)
    ∷ (1, outside 1_101 true)
    ∷ []

replays_again : run early_look (two, node) ≡ (
  dropped ∷ claimed ∷ [],
  record { last_cache_replay_secs = 1_100; replay_in_flight = true; live_floor = 0 },
)
unfolding run should_replay_cache
replays_again = refl

run-Alone_example :
    (holders (run contended (two, node)).0 ≤ 1)
    × (holders (run contended (two, node)).0 ≡ flag (run contended (two, node)).1.replay_in_flight)
run-Alone_example = run-Alone contended two node refl refl
