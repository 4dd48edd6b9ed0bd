-- ===== src/Gateway/Answers.antt =====
-- The answers of peers to a client-block request (src/gateway/client_blocks.rs): what a response is,
-- the candidates that are asked, and which answer goes to the node. Left out: a frame's share of
-- the byte budget, the texts of failures, and the RPC peer that the node remembers after a win.

pub mod Best
pub mod Joined
mod Tests
use Prim.Native.String.{String}
use hypersync.Prelude.{
  ℕ, zero, suc, ◌+◌, ◌-◌, ◌*◌, Bool, true, false, ◌&&◌, ◌||◌, not, Option, none, some, List, [],
  ◌∷◌, ◌++◌, leb, ltb, ◌==◌, if◌then◌else◌, length, take, drop,
}
use hypersync.Protocol.Frames.{contains}
use hypersync.Peerd.Pool.{push_new}
use hypersync.Failover.Session.Tick.{rotated}
use hypersync.Gateway.Node.{ActivePeer, NodeState, active_is_current, clear_active_if_current}

-- b"Peer-only request"
abbrev peer_only_text : List ℕ
peer_only_text =
    80 ∷ 101 ∷ 101 ∷ 114 ∷ 45 ∷ 111 ∷ 110 ∷ 108 ∷ 121 ∷ 32 ∷ 114 ∷ 101 ∷ 113 ∷ 117 ∷ 101 ∷ 115 ∷ 116
    ∷ []

-- b"client block round too "
abbrev pub round_too : List ℕ
round_too =
    99 ∷ 108 ∷ 105 ∷ 101 ∷ 110 ∷ 116 ∷ 32 ∷ 98 ∷ 108 ∷ 111 ∷ 99 ∷ 107 ∷ 32 ∷ 114 ∷ 111 ∷ 117 ∷ 110
    ∷ 100 ∷ 32 ∷ 116 ∷ 111 ∷ 111 ∷ 32 ∷ []

-- b"no client blocks to serve"
abbrev no_client_blocks : List ℕ
no_client_blocks =
    110 ∷ 111 ∷ 32 ∷ 99 ∷ 108 ∷ 105 ∷ 101 ∷ 110 ∷ 116 ∷ 32 ∷ 98 ∷ 108 ∷ 111 ∷ 99 ∷ 107 ∷ 115 ∷ 32
    ∷ 116 ∷ 111 ∷ 32 ∷ 115 ∷ 101 ∷ 114 ∷ 118 ∷ 101 ∷ []

unfoldable pub response_is_peer_only : List ℕ → Bool
response_is_peer_only (zero ∷ suc zero ∷ zero ∷ []) = true
response_is_peer_only payload = contains peer_only_text payload

unfoldable pub response_has_no_client_blocks : List ℕ → Bool
response_has_no_client_blocks payload = contains no_client_blocks payload

unfoldable pub response_has_client_block_round_too_large : List ℕ → Bool
response_has_client_block_round_too_large payload =
    contains (round_too ++ (108 ∷ 97 ∷ 114 ∷ 103 ∷ 101 ∷ [])) payload

unfoldable pub response_has_client_block_round_too_small : List ℕ → Bool
response_has_client_block_round_too_small payload =
    contains (round_too ++ (115 ∷ 109 ∷ 97 ∷ 108 ∷ 108 ∷ [])) payload

unfoldable pub response_is_structured_round_too_large : List ℕ → Bool
response_is_structured_round_too_large
      (a ∷ b ∷ c ∷ d ∷ r0 ∷ r1 ∷ r2 ∷ r3 ∷ e ∷ t0 ∷ t1 ∷ t2 ∷ t3 ∷ []) =
    a == 0 && (b == 1 && (c == 6 && (d == 0xfc && e == 0xfc)))
response_is_structured_round_too_large payload = false

pub data ClientBlockUpstreamResponse : Type 0 where
  frames : List ℕ → ClientBlockUpstreamResponse
  peer_only : ClientBlockUpstreamResponse
  range_too_small : List ℕ → ClientBlockUpstreamResponse
  terminal_error : List ℕ → ClientBlockUpstreamResponse

-- A whole frame that a peer answered, its header included.
unfoldable pub classify_response : List ℕ → ClientBlockUpstreamResponse
unfolding response_is_peer_only response_has_no_client_blocks
    response_has_client_block_round_too_large response_is_structured_round_too_large
    response_has_client_block_round_too_small
classify_response frame =
    let rp = drop 5 frame in
    if response_is_peer_only rp
    then peer_only
    else if response_has_no_client_blocks rp
        || (response_has_client_block_round_too_large rp
            || response_is_structured_round_too_large rp)
    then terminal_error frame
    else if response_has_client_block_round_too_small rp
    then range_too_small frame
    else frames frame

-- The loop over the pool, up to the limit.
unfoldable pub fill_candidates : ℕ → List String → List String → List String
fill_candidates limit [] out = out
fill_candidates limit (ip ∷ ips) out = elim (leb limit (length out)) [
  | true ↦ out
  | false ↦ fill_candidates limit ips (push_new ip out)
]

-- `start` is the counter before it advances.
unfoldable pub client_block_peer_candidates : List String → List String → ℕ → ℕ → List String
unfolding fill_candidates
client_block_peer_candidates head peers start limit =
    if limit == 0
    then []
    else fill_candidates limit (rotated peers start (length peers)) (take limit head)

-- An attempt's end: the pinned peer it was made for, if any, and the response unless it failed.
pub record Attempt : Type 0 where
  pub tag : Option ActivePeer
  pub response : Option ClientBlockUpstreamResponse

-- The node, and the last resorts so far.
pub record Gathered : Type 0 where
  pub node : NodeState
  pub terminal : Option (List ℕ)
  pub too_small : Option (List ℕ)

abbrev pub or_first : Option (List ℕ) → List ℕ → Option (List ℕ)
or_first none frame = some frame
or_first (some kept) frame = some kept

abbrev pub is_stale : Option ActivePeer → NodeState → Bool
is_stale none node = false
is_stale (some peer) node = not (active_is_current peer node)

abbrev pub unpin : Option ActivePeer → NodeState → NodeState
unpin none node = node
unpin (some peer) node = clear_active_if_current peer node

-- A response that is not stale.
unfoldable pub note_response :
    Option ActivePeer → Option ClientBlockUpstreamResponse → Gathered → Gathered × Option (List ℕ)
note_response tag none g = (g, none)
note_response tag (some (frames frame)) g = (g, some frame)
note_response tag (some peer_only) g = (record g { node = unpin tag g.node }, none)
note_response tag (some (range_too_small frame)) g =
    (record g { too_small = or_first g.too_small frame }, none)
note_response tag (some (terminal_error frame)) g =
    (record g { terminal = or_first g.terminal frame }, none)

unfoldable pub note_client_block_result : Attempt → Gathered → Gathered × Option (List ℕ)
unfolding note_response
note_client_block_result a g =
    if is_stale a.tag g.node then (g, none) else note_response a.tag a.response g

-- The attempts in the order they end, until one wins.
unfoldable pub join_attempts : List Attempt → Gathered → Gathered × Option (List ℕ)
unfolding note_client_block_result
join_attempts [] g = (g, none)
join_attempts (a ∷ attempts) g =
    let (g', won) = note_client_block_result a g in
    elim won [ some frame ↦ (g', some frame) | none ↦ join_attempts attempts g' ]

abbrev pub last_resort : Gathered → Option (List ℕ)
last_resort g = elim g.terminal [ some frame ↦ some frame | none ↦ g.too_small ]

-- What the node gets: the winner's frame, else the last resort.
abbrev pub final_answer : Gathered × Option (List ℕ) → NodeState × Option (List ℕ)
final_answer (g, some frame) = (g.node, some frame)
final_answer (g, none) = (g.node, last_resort g)

abbrev pub has_answer : Option (List ℕ) → Bool
has_answer none = false
has_answer (some frame) = true

-- The pool's round of attempts, if the priority tier's gave no frame at all.
unfoldable pub join_pool :
    Bool → List Attempt → Gathered × Option (List ℕ) → NodeState × Option (List ℕ)
join_pool hedges pool (g, some frame) = final_answer (g, some frame)
join_pool hedges pool (g, none) =
    if hedges && (not (has_answer g.terminal) && not (has_answer g.too_small))
    then final_answer (join_attempts pool g)
    else final_answer (g, none)

-- The race, with the attempts that end in its first round and in the pool's; `hedges` says whether the
-- pool waited and is there.
unfoldable pub fetch_client_blocks_raced :
    Bool → List Attempt → List Attempt → NodeState → NodeState × Option (List ℕ)
unfolding join_attempts join_pool
fetch_client_blocks_raced hedges first pool node =
    join_pool hedges pool
      (join_attempts first (record { node = node; terminal = none; too_small = none }))
