-- ===== src/Gateway/Catchup.antt =====
-- The catch-up of a node by client blocks (src/gateway/node.rs): mark_client_blocks_response,
-- client_blocks_stalled and client_blocks_run_since. The samples are a list, oldest first.
pub mod Still
pub mod Capped
use hypersync.Prelude.{
  ℕ, zero, suc, ◌+◌, ◌-◌, ◌/◌, Bool, true, false, ◌&&◌, not, Option, none, some, List, [], ◌∷◌,
  ◌++◌, leb, ltb, if◌then◌else◌, length, get_or, take, drop, max, min,
}
use hypersync.Protocol.Cluster.{sort}

-- 60 s.
abbrev pub catchup_run_gap : ℕ
catchup_run_gap = 60_000_000_000

abbrev pub catchup_progress_rounds : ℕ
catchup_progress_rounds = 150

abbrev pub catchup_closing_rounds : ℕ
catchup_closing_rounds = 50

abbrev pub catchup_loop_max_width : ℕ
catchup_loop_max_width = 64

-- 5 min.
abbrev pub catchup_sample_span : ℕ
catchup_sample_span = 300_000_000_000

abbrev pub catchup_max_samples : ℕ
catchup_max_samples = 1024

unfoldable pub median : List ℕ → ℕ
unfolding sort
median v = get_or (sort v) (length v / 2) 0

-- One batch: when, its distance behind, and its range's width.
pub record Sample : Type 0 where
  pub at : ℕ
  pub behind : Option ℕ
  pub width : ℕ

pub record ClientBlockRun : Type 0 where
  pub since : ℕ
  pub last : ℕ
  pub samples : List Sample

-- The loop that pops samples past the span.
unfoldable pub drop_old : ℕ → List Sample → List Sample
drop_old now [] = []
drop_old now (s ∷ rest) =
    if ltb catchup_sample_span (now - s.at) then drop_old now rest else s ∷ rest

-- The loop that pops samples past the count, which moves the start of the run: `excess` passes.
unfoldable pub drop_excess : ℕ → ℕ → List Sample → ℕ × List Sample
drop_excess zero since samples = (since, samples)
drop_excess (suc excess) since [] = (since, [])
drop_excess (suc excess) since (s ∷ rest) = drop_excess excess (max since s.at) rest

unfoldable pub extend_run : ℕ → Option ℕ → ℕ → ClientBlockRun → ClientBlockRun
unfolding drop_old drop_excess
extend_run now behind width r =
    let kept =
      drop_old now (r.samples ++ (record { at = now; behind = behind; width = width } ∷ [])) in
    let (since, samples) = drop_excess (length kept - catchup_max_samples) r.since kept in
    record { since = since; last = now; samples = samples }

unfoldable pub start_run : ℕ → Option ℕ → ℕ → ClientBlockRun
start_run now behind width = record {
  since = now;
  last = now;
  samples = record { at = now; behind = behind; width = width } ∷ [];
}

unfoldable pub mark_client_blocks_response :
    ℕ → Option ℕ → ℕ → Option ClientBlockRun → ClientBlockRun
unfolding extend_run start_run
mark_client_blocks_response now behind width none = start_run now behind width
mark_client_blocks_response now behind width (some r) =
    if ltb (now - r.last) catchup_run_gap
    then extend_run now behind width r
    else start_run now behind width

unfoldable pub last_behind : List Sample → Option ℕ
last_behind [] = none
last_behind (s ∷ []) = s.behind
last_behind (s ∷ t ∷ rest) = last_behind (t ∷ rest)

-- `filter(|(t, _, _)| *t > from)`.
unfoldable pub in_window : ℕ → List Sample → List Sample
in_window from [] = []
in_window from (s ∷ rest) =
    let kept = in_window from rest in if ltb from s.at then s ∷ kept else kept

abbrev cons_some : Option ℕ → Option (List ℕ) → Option (List ℕ)
cons_some (some b) (some d) = some (b ∷ d)
cons_some _ _ = none

-- `map(|(_, b, _)| *b).collect()` into an `Option<Vec<_>>`.
unfoldable pub distances : List Sample → Option (List ℕ)
distances [] = some []
distances (s ∷ rest) = cons_some s.behind (distances rest)

unfoldable pub widths : List Sample → List ℕ
widths [] = []
widths (s ∷ rest) = s.width ∷ widths rest

unfoldable pub lowest : ℕ → List ℕ → ℕ
lowest x [] = x
lowest x (y ∷ ys) = lowest (min x y) ys

unfoldable pub highest : ℕ → List ℕ → ℕ
highest x [] = x
highest x (y ∷ ys) = highest (max x y) ys

unfoldable pub is_closing : List ℕ → Bool
unfolding median
is_closing d =
    let third = max (length d / 3) 1 in
    leb catchup_closing_rounds (median (take third d) - median (drop (length d - third) d))

-- From the distances in the window.
unfoldable pub is_still : Option (List ℕ) → List ℕ → Bool
unfolding lowest highest is_closing median
is_still none ws = false
is_still (some []) ws = false
is_still (some (x ∷ d)) ws =
    ltb (highest x d - lowest x d) catchup_progress_rounds
    && not (is_closing (x ∷ d))
    && ltb (median ws) catchup_loop_max_width

unfoldable pub client_blocks_stalled : ℕ → ℕ → ℕ → Option ClientBlockRun → Option (Bool × Option ℕ)
unfolding last_behind in_window distances widths is_still
client_blocks_stalled now quiet window none = none
client_blocks_stalled now quiet window (some r) =
    if not (ltb (now - r.last) quiet)
    then none
    else let behind = last_behind r.samples in
      if ltb now window
      then some (false, behind)
      else if ltb (now - window) r.since
      then some (false, behind)
      else let seen = in_window (now - window) r.samples in
        some (is_still (distances seen) (widths seen), behind)

unfoldable pub client_blocks_run_since : ℕ → ℕ → Option ClientBlockRun → Option ℕ
client_blocks_run_since now quiet none = none
client_blocks_run_since now quiet (some r) = if ltb (now - r.last) quiet then some r.since else none
