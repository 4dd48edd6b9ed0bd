-- ===== src/Peerd/Tests.antt =====
-- Runs of the models of the peer daemon, and each of their theorems at an input.
use hypersync.Prelude.{
  ℕ, ◌+◌, ◌≡◌, ◌≤◌, ◌⊎◌, inr, refl, true, false, Option, some, List, [], ◌∷◌, length, arith,
}
use hypersync.Peerd.Pool.{
  is_in, push_new, add_unfailed, add_failed, merge_kept_pool, take_previous, scan_all,
  select_probe_candidates, empty_pool_sleep_secs, should_keep_previous_peer_pool,
  min_live_servers_to_overwrite, retain, previous_live_pool,
}
use hypersync.Peerd.Pool.Merged.{merge_kept_pool-keeps, merge_kept_pool-full}
use hypersync.Peerd.Crawl.{
  Ip, is_routable, read_hl_varint, parse_entries, parse_query_peers_response, is_among, insert_new,
  without_self, select_targets, advertise, advertise_all, gather, crawl_hops, crawl_peers_with,
}
use hypersync.Peerd.Crawl.Parsed.{Fits, parse_query_peers_response-Fits}
use hypersync.Peerd.Crawl.Bounds.{IsSound, crawl_peers_with-Bounded}

run : Unit {0}
unfolding is_in push_new add_unfailed add_failed merge_kept_pool take_previous scan_all
    select_probe_candidates empty_pool_sleep_secs should_keep_previous_peer_pool retain
    previous_live_pool is_routable read_hl_varint parse_entries parse_query_peers_response is_among
    insert_new without_self select_targets advertise advertise_all gather crawl_hops
    crawl_peers_with
run = tt

-- The address that was there once keeps its place, and a failed one comes last.
merged : merge_kept_pool ("a" ∷ []) ("b" ∷ "a" ∷ "c" ∷ []) ("b" ∷ []) ≡ "a" ∷ "c" ∷ "b" ∷ []
unfolding run
merged = refl

asleep : empty_pool_sleep_secs 60 2 1_000 ≡ 240
unfolding run
asleep = refl

probed : select_probe_candidates ("a" ∷ "b" ∷ "c" ∷ []) ("c" ∷ "z" ∷ []) 2 4 ≡ ("c" ∷ "b" ∷ [], 2)
unfolding run
probed = refl

unfailed : (is_in "c" ("b" ∷ "c" ∷ []) ≡ true) × (is_in "c" ("b" ∷ []) ≡ false)
unfolding run
unfailed = (refl, refl)

merge_kept_pool-keeps_example :
    is_in "c" (merge_kept_pool ("a" ∷ []) ("b" ∷ "c" ∷ []) ("b" ∷ [])) ≡ true
merge_kept_pool-keeps_example =
    merge_kept_pool-keeps ("a" ∷ []) ("b" ∷ "c" ∷ []) ("b" ∷ []) "c" (inr unfailed)

there : is_in "b" ("b" ∷ "c" ∷ []) ≡ true
unfolding run
there = refl

merge_kept_pool-full_example :
    (is_in "b" (merge_kept_pool ("a" ∷ []) ("b" ∷ "c" ∷ []) ("b" ∷ [])) ≡ true)
    ⊎ (min_live_servers_to_overwrite
        ≤ length (merge_kept_pool ("a" ∷ []) ("b" ∷ "c" ∷ []) ("b" ∷ [])))
merge_kept_pool-full_example = merge_kept_pool-full ("a" ∷ []) ("b" ∷ "c" ∷ []) ("b" ∷ []) "b" there

-- A private address is left out, and a truncated entry ends the parse.
parsed :
    parse_query_peers_response
      (1 ∷ 3 ∷ 0 ∷ 10 ∷ 0 ∷ 0 ∷ 1 ∷ 1 ∷ 1 ∷ 0 ∷ 8 ∷ 8 ∷ 8 ∷ 8 ∷ 1 ∷ 1 ∷ 0 ∷ 9 ∷ [])
    ≡ record { a = 8; b = 8; c = 8; d = 8 } ∷ []
unfolding run
parsed = refl

abbrev greedy : List ℕ
greedy = 1 ∷ 250 ∷ 0 ∷ 8 ∷ 8 ∷ 8 ∷ 8 ∷ 1 ∷ 1 ∷ 0 ∷ 9 ∷ []

parse_query_peers_response-Fits_example : Fits greedy (parse_query_peers_response greedy)
parse_query_peers_response-Fits_example = parse_query_peers_response-Fits greedy

abbrev host : ℕ → Ip
host n = record { a = 203; b = 0; c = 113; d = n }

-- Each peer advertises the own address and the one after it.
abbrev ask : List Ip → List (Option (List Ip))
ask [] = []
ask (x ∷ targets) = some (host 0 ∷ record x { d = x.d + 1 } ∷ []) ∷ ask targets

one_answer : (targets : List Ip) → length (ask targets) ≡ length targets
one_answer [] = refl
one_answer (x ∷ targets) = let h = one_answer targets in omega arith

crawled :
    (crawl_peers_with ask (host 0 ∷ host 1 ∷ []) (host 0 ∷ []) 3 2).discovered
    ≡ host 3 ∷ host 2 ∷ []
unfolding run
crawled = refl

crawl_peers_with-Bounded_example :
    IsSound (host 0 ∷ []) (crawl_peers_with ask (host 0 ∷ host 1 ∷ []) (host 0 ∷ []) 3 2).discovered
    × ((crawl_peers_with ask (host 0 ∷ host 1 ∷ []) (host 0 ∷ []) 3 2).queries ≤ 2)
crawl_peers_with-Bounded_example =
    crawl_peers_with-Bounded ask (host 0 ∷ host 1 ∷ []) (host 0 ∷ []) 3 2 one_answer
