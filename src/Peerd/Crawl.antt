-- ===== src/Peerd/Crawl.antt =====
-- The crawl of the peer graph (src/peerd/crawl.rs) and is_routable (src/peerd/peers_file.rs). An
-- address is its four octets, where the source has the dotted text; what is left of a payload
-- behind an offset is a list of bytes.
pub mod Bounds
pub mod Parsed
use hypersync.Prelude.{
  ℕ, zero, suc, ◌+◌, ◌-◌, ◌*◌, Bool, true, false, ◌&&◌, ◌||◌, not, Option, none, some, List, [],
  ◌∷◌, ◌++◌, leb, ltb, ◌==◌, if◌then◌else◌, length, take, drop, from_le_bytes,
}

abbrev pub max_peers_per_query_response : ℕ
max_peers_per_query_response = 512

abbrev pub max_candidates : ℕ
max_candidates = 20_000

pub record Ip : Type 0 where
  pub a : ℕ
  pub b : ℕ
  pub c : ℕ
  pub d : ℕ

abbrev pub same_ip : Ip → Ip → Bool
same_ip x y = x.a == y.a && x.b == y.b && x.c == y.c && x.d == y.d

unfoldable pub is_routable : Ip → Bool
is_routable x =
    not (
      x.a == 0
      || x.a == 127
      || x.a == 10
      || (x.a == 192 && x.b == 168)
      || (x.a == 169 && x.b == 254)
      || x.a == 255)
    && not (x.a == 172 && leb 16 x.b && leb x.b 31)

-- The value, and the bytes behind it.
unfoldable pub read_hl_varint : List ℕ → Option (ℕ × List ℕ)
read_hl_varint [] = none
read_hl_varint (lead ∷ b) =
    if lead == 0xfb
    then read_u16 b
    else if lead == 0xfc
    then read_u32 b
    else if lead == 0xfd
    then read_u64 b
    else if lead == 0xfe
    then none
    else some (lead, b)
  where
    read_u16 : List ℕ → Option (ℕ × List ℕ)
    read_u16 (x0 ∷ x1 ∷ rest) = some (x0 + 256 * x1, rest)
    read_u16 _ = none

    read_u32 : List ℕ → Option (ℕ × List ℕ)
    read_u32 (x0 ∷ x1 ∷ x2 ∷ x3 ∷ rest) = some (from_le_bytes x0 x1 x2 x3, rest)
    read_u32 _ = none

    read_u64 : List ℕ → Option (ℕ × List ℕ)
    read_u64 (x0 ∷ x1 ∷ x2 ∷ x3 ∷ x4 ∷ x5 ∷ x6 ∷ x7 ∷ rest) =
        some (from_le_bytes x0 x1 x2 x3 + 4_294_967_296 * from_le_bytes x4 x5 x6 x7, rest)
    read_u64 _ = none

-- The loop over the entries.
unfoldable pub parse_entries : ℕ → List ℕ → List Ip
unfolding is_routable
parse_entries (suc count) (tag ∷ x0 ∷ x1 ∷ x2 ∷ x3 ∷ e0 ∷ e1 ∷ rest) =
    let ip : Ip = record { a = x0; b = x1; c = x2; d = x3 } in
    elim (tag == 0) [
      | false ↦ []
      | true ↦ if is_routable ip then ip ∷ parse_entries count rest else parse_entries count rest
    ]
parse_entries count payload = []

unfoldable pub parse_query_peers_response : List ℕ → List Ip
unfolding read_hl_varint parse_entries
parse_query_peers_response [] = []
parse_query_peers_response (tag ∷ payload) = elim (tag == 1) [
  | false ↦ []
  | true ↦ elim (read_hl_varint payload) [
    | none ↦ []
    | some (count, rest) ↦ parse_entries count rest
  ]
]

-- `contains` on a set.
unfoldable pub is_among : Ip → List Ip → Bool
is_among x [] = false
is_among x (y ∷ ys) = same_ip y x || is_among x ys

-- `HashSet::insert`: the new set, and whether the address is new.
unfoldable pub insert_new : Ip → List Ip → List Ip × Bool
unfolding is_among
insert_new x set = if is_among x set then (set, false) else (x ∷ set, true)

-- The seeds without the own addresses.
unfoldable pub without_self : List Ip → List Ip → List Ip
unfolding is_among
without_self self_ips [] = []
without_self self_ips (ip ∷ seeds) =
    let rest = without_self self_ips seeds in if is_among ip self_ips then rest else ip ∷ rest

-- The loop that selects a hop's targets, at most `remaining`.
unfoldable pub select_targets : ℕ → List Ip → List Ip → List Ip → List Ip × List Ip
unfolding insert_new
select_targets remaining [] visited targets = (visited, targets)
select_targets remaining (ip ∷ frontier) visited targets = elim (leb remaining (length targets)) [
  | true ↦ (visited, targets)
  | false ↦
      let (visited', fresh) = insert_new ip visited in
      select_targets remaining frontier visited' (if fresh then targets ++ (ip ∷ []) else targets)
]

-- What a hop has gathered: the addresses found, those queued for the next hop, and the queries.
pub record Hop : Type 0 where
  pub discovered : List Ip
  pub next : List Ip
  pub queries : ℕ

-- One advertised address. `queued` and `next` hold the same addresses.
unfoldable pub advertise : List Ip → List Ip → Ip → Hop → Hop
unfolding insert_new is_among
advertise self_ips visited p h =
    if is_among p self_ips
    then h
    else let discovered' =
        if ltb (length h.discovered) max_candidates
        then (insert_new p h.discovered).0
        else h.discovered in
      record h {
        discovered = discovered';
        next =
            if not (is_among p visited) && not (is_among p h.next)
            then h.next ++ (p ∷ [])
            else h.next;
      }

unfoldable pub advertise_all : List Ip → List Ip → List Ip → Hop → Hop
unfolding advertise
advertise_all self_ips visited [] h = h
advertise_all self_ips visited (p ∷ peers) h =
    advertise_all self_ips visited peers (advertise self_ips visited p h)

-- The answers of a hop, in the order they come; `none` is a task that failed.
unfoldable pub gather : List Ip → List Ip → List (Option (List Ip)) → Hop → Hop
unfolding advertise_all
gather self_ips visited [] h = h
gather self_ips visited (none ∷ answers) h =
    gather self_ips visited answers (record h { queries = h.queries + 1 })
gather self_ips visited (some peers ∷ answers) h = gather self_ips visited answers (
    advertise_all self_ips visited (take max_peers_per_query_response peers)
      (record h { queries = h.queries + 1 }))

-- The loop over the hops. `ask` stands for the queries of a hop's targets.
unfoldable pub crawl_hops :
    (List Ip → List (Option (List Ip))) → List Ip → ℕ → ℕ → List Ip → Hop → Hop
unfolding select_targets gather
crawl_hops ask self_ips max_queries zero visited h = h
crawl_hops ask self_ips max_queries (suc depth) visited h =
    elim (length h.next == 0 || leb max_queries h.queries) [
      | true ↦ h
      | false ↦
          let (visited', targets) = select_targets (max_queries - h.queries) h.next visited [] in
          elim (length targets == 0) [
            | true ↦ h
            | false ↦
                crawl_hops ask self_ips max_queries depth visited'
                  (gather self_ips visited' (ask targets) (record h { next = [] }))
          ]
    ]

unfoldable pub crawl_peers_with :
    (List Ip → List (Option (List Ip))) → List Ip → List Ip → ℕ → ℕ → Hop
unfolding crawl_hops without_self
crawl_peers_with ask seeds self_ips depth max_queries =
    crawl_hops ask self_ips max_queries depth []
      (record { discovered = []; next = without_self self_ips seeds; queries = 0 })
