-- ===== src/Peerd/Crawl/Bounds.antt =====
-- What one peer, and one crawl, can inject (src/peerd/crawl.rs).
use hypersync.Prelude.{
  ℕ, zero, suc, ◌+◌, ◌-◌, ◌≤◌, ◌≡◌, refl, inl, inr, false, ◌||◌, Option, none, some, List, [], ◌∷◌,
  ◌++◌, leb, ltb, ◌==◌, length, length-append, take, Bool-cases, arith,
}
use hypersync.Peerd.Crawl.{
  Ip, Hop, is_among, insert_new, select_targets, advertise, advertise_all, gather, crawl_hops,
  crawl_peers_with, max_candidates, max_peers_per_query_response,
}

abbrev pub AllOthers : List Ip → List Ip → Type 0
AllOthers self_ips [] = Unit
AllOthers self_ips (x ∷ rest) = (is_among x self_ips ≡ false) × AllOthers self_ips rest

-- Never an own address, and at most `max_candidates`.
abbrev pub IsSound : List Ip → List Ip → Type 0
IsSound self_ips found = (length found ≤ max_candidates) × AllOthers self_ips found

insert_new-AllOthers :
    (self_ips : List Ip) (p : Ip) (found : List Ip)
    → is_among p self_ips ≡ false
    → AllOthers self_ips found
    → AllOthers self_ips (insert_new p found).0
unfolding insert_new
insert_new-AllOthers self_ips p found o h = elim (Bool-cases (is_among p found)) [
  | inl there ↦ rw there h
  | inr fresh ↦ rw fresh (o, h)
]

length-insert_new : (p : Ip) (found : List Ip) → length (insert_new p found).0 ≤ length found + 1
unfolding insert_new
length-insert_new p found = elim (Bool-cases (is_among p found)) [
  | inl there ↦ rw there (omega arith)
  | inr fresh ↦ rw fresh (omega arith)
]

advertise-IsSound :
    (self_ips visited : List Ip) (p : Ip) (h : Hop)
    → IsSound self_ips h.discovered
    → IsSound self_ips (advertise self_ips visited p h).discovered
unfolding advertise
advertise-IsSound self_ips visited p h s = elim (Bool-cases (is_among p self_ips)) [
  | inl own ↦ rw own s
  | inr other ↦ elim (Bool-cases (ltb (length h.discovered) max_candidates)) [
    | inl room ↦
        let l = length-insert_new p h.discovered in
        rw (other, room) (ground arith, insert_new-AllOthers self_ips p h.discovered other s.1)
    | inr full ↦ rw (other, full) s
  ]
]

advertise-queries :
    (self_ips visited : List Ip) (p : Ip) (h : Hop)
    → (advertise self_ips visited p h).queries ≡ h.queries
unfolding advertise
advertise-queries self_ips visited p h = elim (Bool-cases (is_among p self_ips)) [
  | inl own ↦ rw own refl
  | inr other ↦ rw other refl
]

-- What holds after each step of a hop that started with `n` queries made.
abbrev HopHolds : List Ip → ℕ → Hop → Type 0
HopHolds self_ips n h = IsSound self_ips h.discovered × (h.queries ≡ n)

advertise_all-HopHolds :
    (self_ips visited peers : List Ip) (n : ℕ) (h : Hop)
    → HopHolds self_ips n h
    → HopHolds self_ips n (advertise_all self_ips visited peers h)
unfolding advertise_all
advertise_all-HopHolds self_ips visited [] n h s = s
advertise_all-HopHolds self_ips visited (p ∷ peers) n h s =
    let q = advertise-queries self_ips visited p h in
    advertise_all-HopHolds self_ips visited peers n (advertise self_ips visited p h)
      (advertise-IsSound self_ips visited p h s.0, omega arith)

gather-HopHolds :
    (self_ips visited : List Ip) (answers : List (Option (List Ip))) (n : ℕ) (h : Hop)
    → HopHolds self_ips n h
    → HopHolds self_ips (n + length answers) (gather self_ips visited answers h)
unfolding gather
gather-HopHolds self_ips visited [] n h s = (s.0, omega arith)
gather-HopHolds self_ips visited (none ∷ answers) n h s =
    let (k, q) =
      gather-HopHolds self_ips visited answers (n + 1) (record h { queries = h.queries + 1 })
        (s.0, omega arith) in
    (k, omega arith)
gather-HopHolds self_ips visited (some peers ∷ answers) n h s =
    let h' : Hop = record h { queries = h.queries + 1 } in
    let (k, q) =
      gather-HopHolds self_ips visited answers (n + 1)
        (advertise_all self_ips visited (take max_peers_per_query_response peers) h')
        (advertise_all-HopHolds self_ips visited (take max_peers_per_query_response peers) (n + 1)
          h' (s.0, omega arith)) in
    (k, omega arith)

length-select_targets :
    (remaining : ℕ) (frontier visited targets : List Ip)
    → length targets ≤ remaining
    → length (select_targets remaining frontier visited targets).1 ≤ remaining
unfolding select_targets
length-select_targets remaining [] visited targets h = h
length-select_targets remaining (ip ∷ frontier) visited targets h =
    elim (Bool-cases (leb remaining (length targets))) [
      | inl full ↦ rw (full, length) h
      | inr room ↦ elim (Bool-cases (is_among ip visited)) [
        | inl seen ↦
            rw (room, length, insert_new, seen)
              (length-select_targets remaining frontier visited targets h)
        | inr fresh ↦
            rw (room, length, insert_new, fresh)
              (length-select_targets remaining frontier (ip ∷ visited) (targets ++ (ip ∷ []))
                (let l = length-append targets (ip ∷ []) in ground arith))
      ]
    ]

crawl_hops-Bounded :
    (ask : List Ip → List (Option (List Ip))) (self_ips : List Ip) (max_queries depth : ℕ)
    (visited : List Ip) (h : Hop)
    → ((targets : List Ip) → length (ask targets) ≡ length targets)
    → IsSound self_ips h.discovered
    → h.queries ≤ max_queries
    → IsSound self_ips (crawl_hops ask self_ips max_queries depth visited h).discovered
      × ((crawl_hops ask self_ips max_queries depth visited h).queries ≤ max_queries)
unfolding crawl_hops
crawl_hops-Bounded ask self_ips max_queries zero visited h one s q = (s, q)
crawl_hops-Bounded ask self_ips max_queries (suc depth) visited h one s q =
    elim (Bool-cases (length h.next == 0 || leb max_queries h.queries)) [
      | inl over ↦ rw (over, crawl_hops) (s, q)
      | inr going ↦
          let picked : List Ip × List Ip =
            select_targets (max_queries - h.queries) h.next visited [] in
          let few =
            length-select_targets (max_queries - h.queries) h.next visited [] (omega arith) in
          let count = one picked.1 in
          elim (Bool-cases (length picked.1 == 0)) [
            | inl empty ↦ rw (going, crawl_hops, empty) (s, q)
            | inr some_left ↦
                let (k, n) =
                  gather-HopHolds self_ips picked.0 (ask picked.1) h.queries
                    (record h { next = [] }) (s, refl) in
                rw (going, crawl_hops, some_left)
                  (crawl_hops-Bounded ask self_ips max_queries depth picked.0 _ one k (omega arith))
          ]
    ]

-- With one answer for each query, whatever the answers and their order, a crawl makes at most the
-- allowed queries and finds at most 20,000 addresses, none of them its own.
pub crawl_peers_with-Bounded :
    (ask : List Ip → List (Option (List Ip))) (seeds self_ips : List Ip) (depth max_queries : ℕ)
    → ((targets : List Ip) → length (ask targets) ≡ length targets)
    → IsSound self_ips (crawl_peers_with ask seeds self_ips depth max_queries).discovered
      × ((crawl_peers_with ask seeds self_ips depth max_queries).queries ≤ max_queries)
unfolding crawl_peers_with
crawl_peers_with-Bounded ask seeds self_ips depth max_queries one =
    crawl_hops-Bounded ask self_ips max_queries depth [] _ one (omega arith, tt) (omega arith)
