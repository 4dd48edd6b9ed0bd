-- ===== src/Gateway/Cache.antt =====
-- The bootstrap cache (src/gateway/cache.rs): how long it is fresh, when a node gets it, what is
-- installed, and what is loaded from disk. A file is its modification time and its bytes; times are
-- in seconds.
pub mod Tap
pub mod Fetch
mod Tests
use hypersync.Prelude.{
  ℕ, ◌+◌, ◌-◌, ◌*◌, Bool, true, false, ◌&&◌, ◌||◌, not, Option, none, some, List, [], ◌∷◌, leb, ltb,
  ◌==◌, if◌then◌else◌, length, set, min, max, saturating_add,
}
use hypersync.Protocol.Rounds.{
  complete_bootstrap_at_frame_boundary, min_complete_bootstrap_bytes, active_round_max_lag,
}
use hypersync.Protocol.Frames.{complete_frame_count, max_block_round_in_frames}

abbrev pub cache_replay_cooldown_secs : ℕ
cache_replay_cooldown_secs = 30

abbrev pub max_bootstrap_cache_age_secs : ℕ
max_bootstrap_cache_age_secs = 480

abbrev pub cache_refresh_retry_secs : ℕ
cache_refresh_retry_secs = 30

abbrev pub cache_refresh_force_before_expiry_secs : ℕ
cache_refresh_force_before_expiry_secs = 90

abbrev pub min_live_peers_for_cache_refresh : ℕ
min_live_peers_for_cache_refresh = 4

abbrev pub max_bootstrap_capture_bytes : ℕ
max_bootstrap_capture_bytes = 9_000_000_000

abbrev pub fresh_bootstrap_refresh_max_secs : ℕ
fresh_bootstrap_refresh_max_secs = 300

abbrev pub cold_bootstrap_refresh_max_secs : ℕ
cold_bootstrap_refresh_max_secs = 900

unfoldable pub is_bootstrap_cache_fresh : ℕ → ℕ → Bool
is_bootstrap_cache_fresh now cached_at =
    not (cached_at == 0) && leb (now - cached_at) max_bootstrap_cache_age_secs

unfoldable pub should_delay_cache_refresh_for_live_pool : ℕ → ℕ → ℕ → Bool
should_delay_cache_refresh_for_live_pool now cached_at live_count =
    if leb min_live_peers_for_cache_refresh live_count
    then false
    else ltb cache_refresh_force_before_expiry_secs
        (max_bootstrap_cache_age_secs - (now - cached_at))

unfoldable pub fresh_cache_retry_delay_secs : ℕ → ℕ → ℕ
fresh_cache_retry_delay_secs now cached_at =
    let seconds_left = max_bootstrap_cache_age_secs - (now - cached_at) in
    if leb seconds_left cache_refresh_force_before_expiry_secs
    then 1
    else min (max (seconds_left - cache_refresh_force_before_expiry_secs) 1)
        cache_refresh_retry_secs

unfoldable pub bootstrap_capture_deadline_secs : Bool → ℕ
bootstrap_capture_deadline_secs have_fresh_cache =
    if have_fresh_cache then fresh_bootstrap_refresh_max_secs else cold_bootstrap_refresh_max_secs

unfoldable pub cache_replay_allowed : ℕ → ℕ → Bool
cache_replay_allowed now last = last == 0 || leb cache_replay_cooldown_secs (now - last)

unfoldable pub should_replay_cache : ℕ → ℕ → Bool → ℕ → Bool
unfolding is_bootstrap_cache_fresh cache_replay_allowed
should_replay_cache now last has_active_session cached_at =
    not has_active_session
    && (is_bootstrap_cache_fresh now cached_at && cache_replay_allowed now last)

-- The new floor, and whether it rose.
unfoldable pub raise_round_floor : ℕ → ℕ → ℕ × Bool
raise_round_floor floor round = if ltb floor round then (round, true) else (floor, false)

unfoldable pub live_greeting_for : List ℕ → List ℕ
live_greeting_for greet = set greet 5 0

-- Zero is no floor.
unfoldable pub bounded_cache_floor : ℕ → ℕ → ℕ
bounded_cache_floor cache_floor net_tip =
    if not (net_tip == 0) && ltb (saturating_add net_tip active_round_max_lag) cache_floor
    then 0
    else cache_floor

-- The blob in memory, and when it was captured.
pub record CacheSink : Type 0 where
  pub boot_blob : Option (List ℕ)
  pub boot_blob_cached_at : ℕ

pub data Refusal : Type 0 where
  too_old : Refusal
  too_small : Refusal
  cut_frame : Refusal
  incomplete : Refusal
  no_live_tail : Refusal

pub data Loaded : Type 0 where
  missing : Loaded
  refused : Refusal → Loaded
  loaded : List ℕ → ℕ → Loaded

module _ (decompress_size_prepended : List ℕ → Option (List ℕ)) where
  unfoldable pub has_live_tail : List ℕ → Bool
  has_live_tail blob = elim (max_block_round_in_frames decompress_size_prepended blob) [
    | none ↦ false
    | some round ↦ true
  ]

  -- `now` is the time of the installation.
  unfoldable pub install_bootstrap_cache : List ℕ → ℕ → CacheSink → CacheSink
  unfolding has_live_tail
  install_bootstrap_cache blob now sink =
      if has_live_tail blob
      then record { boot_blob = some blob; boot_blob_cached_at = now }
      else sink

  unfoldable pub load_bootstrap_cache : Option (ℕ × List ℕ) → ℕ → Loaded
  unfolding has_live_tail
  load_bootstrap_cache none now = missing
  load_bootstrap_cache (some (cached_at, blob)) now =
      if not (is_bootstrap_cache_fresh now cached_at)
      then refused too_old
      else if ltb (length blob) min_complete_bootstrap_bytes
      then refused too_small
      else elim (complete_frame_count blob) [
        | none ↦ refused cut_frame
        | some frames ↦
            if not (complete_bootstrap_at_frame_boundary (length blob) frames)
            then refused incomplete
            else if not (has_live_tail blob)
            then refused no_live_tail
            else loaded blob cached_at
      ]
