-- ===== src/Gateway/Registry.antt =====
-- The registry of nodes (src/gateway/node.rs): NodeRegistry and node_state_evict_keys. An address
-- is a number in the order of `IpAddr`; a connection reaches its node's state by the address.
pub mod Room
use hypersync.Prelude.{
  ℕ, ◌+◌, ◌-◌, Bool, true, false, ◌&&◌, ◌||◌, not, Option, none, some, List, [], ◌∷◌, ◌++◌, leb,
  ltb, ◌==◌, if◌then◌else◌, length, take, min,
}
use hypersync.Maps
use hypersync.Gateway.Node
use hypersync.Gateway.Node.{NodeState}

abbrev pub node_state_cap : ℕ
node_state_cap = 256

abbrev pub node_state_ttl_secs : ℕ
node_state_ttl_secs = 3_600

-- One row of what node_state_evict_keys reads: an address, when it was last seen, and whether it
-- has open connections.
pub record Entry : Type 0 where
  pub ip : ℕ
  pub seen : ℕ
  pub held : Bool

abbrev pub is_expired : ℕ → ℕ → Entry → Bool
is_expired now ttl e = not e.held && ltb ttl (now - e.seen)

abbrev pub is_evictable : ℕ → ℕ → Entry → Bool
is_evictable now ttl e = not e.held && leb (now - e.seen) ttl

-- `filter`.
unfoldable pub select : (Entry → Bool) → List Entry → List Entry
select test [] = []
select test (e ∷ rest) = let kept = select test rest in if test e then e ∷ kept else kept

-- The order of `sort_by`: by when it was last seen, then by address.
abbrev pub is_before : Entry → Entry → Bool
is_before a b = ltb a.seen b.seen || (a.seen == b.seen && leb a.ip b.ip)

unfoldable pub insert_by_age : Entry → List Entry → List Entry
insert_by_age e [] = e ∷ []
insert_by_age e (f ∷ rest) = if is_before e f then e ∷ f ∷ rest else f ∷ insert_by_age e rest

unfoldable pub sort_by_age : List Entry → List Entry
unfolding insert_by_age
sort_by_age [] = []
sort_by_age (e ∷ rest) = insert_by_age e (sort_by_age rest)

-- The entries whose addresses node_state_evict_keys returns.
unfoldable pub evict_entries : List Entry → ℕ → ℕ → ℕ → List Entry
unfolding select sort_by_age
evict_entries entries now cap ttl =
    let evict = select (is_expired now ttl) entries in
    let evictable = select (is_evictable now ttl) entries in
    let kept = length entries - length evict in
    if ltb cap (kept + 1)
    then evict ++ take (min (kept + 1 - cap) (length evictable)) (sort_by_age evictable)
    else evict

unfoldable pub addresses : List Entry → List ℕ
addresses [] = []
addresses (e ∷ rest) = e.ip ∷ addresses rest

unfoldable pub node_state_evict_keys : List Entry → ℕ → ℕ → ℕ → List ℕ
unfolding evict_entries addresses
node_state_evict_keys entries now cap ttl = addresses (evict_entries entries now cap ttl)

unfoldable pub entries_of : List (ℕ × NodeState) → List Entry
entries_of [] = []
entries_of ((ip, s) ∷ nodes) =
    record { ip = ip; seen = s.last_seen_secs; held = ltb 0 s.open_conns } ∷ entries_of nodes

unfoldable pub remove_all : List ℕ → List (ℕ × NodeState) → List (ℕ × NodeState)
remove_all [] nodes = nodes
remove_all (ip ∷ rest) nodes = remove_all rest (Maps.remove ip nodes)

unfoldable pub opened : NodeState → NodeState
opened s = record s { open_conns = s.open_conns + 1 }

-- The registry with one more open connection of the node.
unfoldable pub get_or_insert : ℕ → ℕ → List (ℕ × NodeState) → List (ℕ × NodeState)
unfolding node_state_evict_keys entries_of remove_all opened
get_or_insert ip now nodes = elim (Maps.lookup ip nodes) [
  | some s ↦ Maps.put ip (opened (record s { last_seen_secs = now })) nodes
  | none ↦
      let evict = node_state_evict_keys (entries_of nodes) now node_state_cap node_state_ttl_secs in
      Maps.put ip (opened (Node.new ip now)) (remove_all evict nodes)
]

-- The drop of a NodeConnGuard. `fetch_sub` of an open connection, so the count is not 0.
unfoldable pub close_conn : ℕ → NodeState → NodeState
close_conn now s = record s { last_seen_secs = now; open_conns = s.open_conns - 1 }
