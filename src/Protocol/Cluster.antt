-- ===== src/Protocol/Cluster.antt =====
-- Clusters of rounds that peers report (src/protocol.rs): best_round_cluster,
-- max_clustered_round and corroborated_clustered_round.
use hypersync.Prelude.{
  ℕ, zero, suc, ◌+◌, ◌-◌, ◌/◌, Bool, ◌&&◌, ◌||◌, Option, none, some, List, [], ◌∷◌, leb, ltb, ◌==◌,
  if◌then◌else◌, length, get_or, take, drop, max,
}
use mathlib.Core.Option

-- `sort_unstable` on numbers: any two sorts give the same list.
unfoldable pub insert_sorted : ℕ → List ℕ → List ℕ
insert_sorted x [] = x ∷ []
insert_sorted x (y ∷ ys) = if leb x y then x ∷ y ∷ ys else y ∷ insert_sorted x ys

unfoldable pub sort : List ℕ → List ℕ
unfolding insert_sorted
sort [] = []
sort (x ∷ xs) = insert_sorted x (sort xs)

-- The loop's variables.
pub record Runs : Type 0 where
  pub best_start : ℕ
  pub best_len : ℕ
  pub cur_start : ℕ

-- Is index `i` in one run with the index below it?
unfoldable pub continues : List ℕ → ℕ → ℕ → Bool
continues rounds max_gap i =
    ltb i (length rounds) && leb (get_or rounds i 0 - get_or rounds (i - 1) 0) max_gap

-- The body of the loop.
unfoldable pub visit : List ℕ → ℕ → ℕ → Runs → Runs
visit rounds max_gap i s =
    if continues rounds max_gap i
    then s
    else let t =
        if leb s.best_len (i - s.cur_start)
        then record s { best_start = s.cur_start; best_len = i - s.cur_start }
        else s in
      record t { cur_start = i }

-- `for i in 1..=rounds.len()`, with the number of rounds left.
unfoldable pub visit_from : List ℕ → ℕ → ℕ → ℕ → Runs → Runs
unfolding visit continues
visit_from rounds max_gap zero i s = s
visit_from rounds max_gap (suc left) i s =
    visit_from rounds max_gap left (i + 1) (visit rounds max_gap i s)

unfoldable pub best_run : List ℕ → ℕ → Runs
unfolding visit_from
best_run sorted max_gap =
    visit_from sorted max_gap (length sorted) 1
      (record { best_start = 0; best_len = 1; cur_start = 0 })

unfoldable pub best_round_cluster : List ℕ → ℕ → ℕ → Option (List ℕ)
unfolding sort best_run
best_round_cluster rounds min_cluster max_gap =
    if ltb (length rounds) min_cluster || min_cluster == 0
    then none
    else let sorted = sort rounds in
      let s = best_run sorted max_gap in
      if leb min_cluster s.best_len then some (take s.best_len (drop s.best_start sorted)) else none

unfoldable pub max_clustered_round : List ℕ → ℕ → ℕ → Option ℕ
max_clustered_round rounds min_cluster max_gap =
    Option.map (λ (c : List ℕ). get_or c (length c - 1) 0)
      (best_round_cluster rounds min_cluster max_gap)

unfoldable pub corroborated_clustered_round : List ℕ → ℕ → ℕ → Option ℕ
corroborated_clustered_round rounds min_cluster max_gap =
    Option.map (λ (c : List ℕ). get_or c ((length c - 1) / 2) 0)
      (best_round_cluster rounds (max min_cluster 2) max_gap)
