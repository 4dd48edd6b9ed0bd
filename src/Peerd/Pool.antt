-- ===== src/Peerd/Pool.antt =====
-- The pool that the peer daemon publishes (src/peerd/daemon.rs). A set is a list without regard to
-- order; a usize is not bounded.
pub mod Merged
pub mod Chosen
use Prim.Native.String.{String}
use text.Mathlib.Text.{◌==◌ as str_eq}
use hypersync.Prelude.{
  ℕ, zero, suc, ◌+◌, ◌-◌, ◌*◌, ◌/◌, ◌%◌, ◌^◌, Bool, true, false, ◌&&◌, ◌||◌, not, Option, none,
  some, List, [], ◌∷◌, ◌++◌, leb, ltb, ◌==◌, if◌then◌else◌, length, get_or, saturating_add, max,
  min,
}
use hypersync.Protocol.Cluster.{corroborated_clustered_round}

abbrev pub min_live_servers_to_overwrite : ℕ
min_live_servers_to_overwrite = 8

abbrev pub max_live_round_lag : ℕ
max_live_round_lag = 50_000

unfoldable pub should_keep_previous_peer_pool : ℕ → ℕ → Bool → Bool
should_keep_previous_peer_pool current_live previous_live previous_trusted =
    previous_trusted
    && ltb 0 previous_live
    && (current_live == 0
        || (ltb current_live min_live_servers_to_overwrite
            && leb min_live_servers_to_overwrite previous_live))

-- What the choice reads of a probe: its peer and its round.
pub record Probed : Type 0 where
  pub ip : String
  pub max_round : Option ℕ

abbrev cons_round : Option ℕ → List ℕ → List ℕ
cons_round none rounds = rounds
cons_round (some r) rounds = r ∷ rounds

unfoldable pub rounds_of : List Probed → List ℕ
rounds_of [] = []
rounds_of (p ∷ probes) = cons_round p.max_round (rounds_of probes)

unfoldable pub clustered_probe_tip : List Probed → Option ℕ
unfolding rounds_of
clustered_probe_tip probes = corroborated_clustered_round (rounds_of probes) 2 max_live_round_lag

abbrev pub is_near_tip : ℕ → Option ℕ → Bool
is_near_tip tip none = false
is_near_tip tip (some round) =
    leb tip (saturating_add round max_live_round_lag)
    && leb round (saturating_add tip max_live_round_lag)

-- The loop of split_live_by_tip.
unfoldable pub split_by : ℕ → List Probed → List Probed × List String
split_by tip [] = ([], [])
split_by tip (p ∷ probed_live) =
    let (live, lagged) = split_by tip probed_live in
    if is_near_tip tip p.max_round then (p ∷ live, lagged) else (live, p.ip ∷ lagged)

unfoldable pub split_live_by_tip : List Probed → Option ℕ → List Probed × List String
unfolding split_by
split_live_by_tip probed_live none = (probed_live, [])
split_live_by_tip probed_live (some tip) = split_by tip probed_live

abbrev pub u64_max : ℕ
u64_max = 18_446_744_073_709_551_615

abbrev clamp : ℕ → ℕ → ℕ → ℕ
clamp low high n = min (max n low) high

unfoldable pub empty_pool_sleep_secs : ℕ → ℕ → ℕ → ℕ
empty_pool_sleep_secs interval empty_live_streak max_backoff =
    if empty_live_streak == 0
    then interval
    else clamp interval (max max_backoff interval)
        (min (interval * 2 ^ min empty_live_streak 3) u64_max)

unfoldable pub next_empty_live_streak : ℕ → Bool → Bool → ℕ
next_empty_live_streak streak ranked_empty kept_previous =
    if ranked_empty && not kept_previous then saturating_add streak 1 else 0

-- `contains` on a set or a vector.
unfoldable pub is_in : String → List String → Bool
is_in ip [] = false
is_in ip (q ∷ ips) = str_eq q ip || is_in ip ips

-- The first loop of select_probe_candidates, with what is selected so far.
unfoldable pub take_previous : ℕ → List String → List String → List String → List String
unfolding is_in
take_previous limit all [] selected = selected
take_previous limit all (ip ∷ previous) selected = elim (leb limit (length selected)) [
  | true ↦ selected
  | false ↦
      take_previous limit all previous
        (if is_in ip all && not (is_in ip selected) then selected ++ (ip ∷ []) else selected)
]

-- The second loop, from `off`, with the number of entries left: what is selected, and how many
-- entries were scanned.
unfoldable pub scan_all : List String → ℕ → ℕ → ℕ → ℕ → ℕ → List String → List String × ℕ
unfolding is_in
scan_all all start remaining zero off added selected = (selected, off)
scan_all all start remaining (suc left) off added selected =
    let ip = get_or all ((start + off) % length all) "" in
    elim (is_in ip selected) [
      | true ↦ scan_all all start remaining left (off + 1) added selected
      | false ↦ elim (leb remaining (added + 1)) [
        | true ↦ (selected ++ (ip ∷ []), off + 1)
        | false ↦ scan_all all start remaining left (off + 1) (added + 1) (selected ++ (ip ∷ []))
      ]
    ]

-- What is selected, and the new cursor.
unfoldable pub select_probe_candidates : List String → List String → ℕ → ℕ → List String × ℕ
unfolding take_previous scan_all
select_probe_candidates all_candidates previous_live max_per_cycle cursor =
    let max_per_cycle' = max max_per_cycle 1 in
    let selected = take_previous (max (max_per_cycle' / 2) 1) all_candidates previous_live [] in
    let remaining = max_per_cycle' - length selected in
    let n = length all_candidates in
    if remaining == 0 || n == 0
    then (selected, cursor)
    else let start = cursor % n in
      let (selected', scanned) = scan_all all_candidates start remaining n 0 0 selected in
      (selected', (start + scanned) % n)

unfoldable pub peer_pool_to_write : List String → List String → Bool → Bool → Option (List String)
peer_pool_to_write ranked previous_pruned false tainted = some ranked
peer_pool_to_write ranked previous_pruned true true = some previous_pruned
peer_pool_to_write ranked previous_pruned true false = none

-- `retain` of what is not excluded.
unfoldable pub retain : List String → List String → List String
unfolding is_in
retain excluded [] = []
retain excluded (ip ∷ ips) =
    let kept = retain excluded ips in if is_in ip excluded then kept else ip ∷ kept

-- The counts are an association list.
unfoldable pub retain_counts : List String → List (String × ℕ) → List (String × ℕ)
unfolding is_in
retain_counts excluded [] = []
retain_counts excluded ((ip, n) ∷ counts) =
    let kept = retain_counts excluded counts in if is_in ip excluded then kept else (ip, n) ∷ kept

unfoldable pub drop_excluded :
    List String → List (String × ℕ) → List String → (List String × List (String × ℕ)) × ℕ
unfolding retain retain_counts
drop_excluded candidates fail_counts excluded =
    let candidates' = retain excluded candidates in
    ((candidates', retain_counts excluded fail_counts), length candidates - length candidates')

-- `previous` is what extract_ipv4 reads in the previous file.
unfoldable pub previous_live_pool : List String → List String → List String × Bool
unfolding retain
previous_live_pool previous excluded =
    let ips = retain excluded previous in (ips, ltb (length ips) (length previous))

unfoldable pub push_new : String → List String → List String
unfolding is_in
push_new ip out = if is_in ip out then out else out ++ (ip ∷ [])

-- The first loop of merge_kept_pool.
unfoldable pub add_unfailed : List String → List String → List String → List String
unfolding is_in push_new
add_unfailed failed [] out = out
add_unfailed failed (ip ∷ previous) out =
    add_unfailed failed previous (if is_in ip failed then out else push_new ip out)

-- The second loop.
unfoldable pub add_failed : List String → List String → List String → List String
unfolding is_in push_new
add_failed failed [] out = out
add_failed failed (ip ∷ previous) out =
    let out' =
      if not (is_in ip failed) || leb min_live_servers_to_overwrite (length out)
      then out
      else push_new ip out in
    add_failed failed previous out'

unfoldable pub merge_kept_pool : List String → List String → List String → List String
unfolding add_unfailed add_failed
merge_kept_pool ranked previous failed =
    add_failed failed previous (add_unfailed failed previous ranked)
