-- ===== src/Gateway/Answers/Tests.antt =====
-- Runs of the answers to client-block requests, and the theorem on them.
use hypersync.Prelude.{◌≡◌, refl, true, none, some, List, [], ◌∷◌, ◌++◌}
use hypersync.Protocol.Frames.{contains}
use hypersync.Gateway.Node
use hypersync.Gateway.Node.{NodeState, active_is_current, clear_active_if_current}
use hypersync.Gateway.Answers.{
  classify_response, frames, peer_only, range_too_small, terminal_error, Attempt,
  fetch_client_blocks_raced, round_too,
}
use hypersync.Gateway.Answers.Joined.{IsAnswer}
use hypersync.Gateway.Answers.Best.{considered, fetch_client_blocks_raced-IsAnswer}

too_large :
    classify_response (0 ∷ 0 ∷ 0 ∷ 28 ∷ 1 ∷ (round_too ++ (108 ∷ 97 ∷ 114 ∷ 103 ∷ 101 ∷ [])))
    ≡ terminal_error (0 ∷ 0 ∷ 0 ∷ 28 ∷ 1 ∷ (round_too ++ (108 ∷ 97 ∷ 114 ∷ 103 ∷ 101 ∷ [])))
unfolding classify_response contains
too_large = refl

refused : classify_response (0 ∷ 0 ∷ 0 ∷ 3 ∷ 1 ∷ 0 ∷ 1 ∷ 0 ∷ []) ≡ peer_only
unfolding classify_response
refused = refl

abbrev node : NodeState
node = Node.new 0 0

-- A failed attempt, one that says that the range is too small, and then a batch from the pool.
abbrev first : List Attempt
first = record { tag = none; response = none } ∷ []

abbrev pool : List Attempt
pool =
    record { tag = none; response = some (range_too_small (1 ∷ [])) }
    ∷ record { tag = none; response = some (frames (2 ∷ [])) }
    ∷ []

batch_wins : (fetch_client_blocks_raced true first pool node).1 ≡ some (2 ∷ [])
unfolding fetch_client_blocks_raced
batch_wins = refl

fetch_client_blocks_raced-IsAnswer_example :
    IsAnswer (considered true first pool) (fetch_client_blocks_raced true first pool node).1
fetch_client_blocks_raced-IsAnswer_example = fetch_client_blocks_raced-IsAnswer true first pool node
