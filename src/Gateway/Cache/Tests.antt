-- ===== src/Gateway/Cache/Tests.antt =====
-- Runs of the cache's model, and the theorem on the tap at a relay of two frames.
use hypersync.Prelude.{ℕ, ◌≡◌, refl, replicate, true, false, Option, none, some, List, [], ◌∷◌}
use hypersync.Gateway.Cache.{CacheSink, is_bootstrap_cache_fresh, fresh_cache_retry_delay_secs}
use hypersync.Gateway.Cache.Tap.{Arrival, in_time, failed, Progress, go_on, start, relay}
use hypersync.Gateway.Cache.Fetch
use hypersync.Gateway.Cache.Fetch.{Incoming, not_serving, fetch_bootstrap}
use hypersync.Gateway.Cache.Fetch.Whole.{IsFetched, fetch_bootstrap-IsFetched}
use hypersync.Gateway.Cache.Tap.Loads.{IsTapped}
use hypersync.Gateway.Cache.Tap.Whole.{relay-IsTapped}

fresh_to_the_limit : is_bootstrap_cache_fresh 1_480 1_000 ≡ true
unfolding is_bootstrap_cache_fresh
fresh_to_the_limit = refl

stale_after_it : is_bootstrap_cache_fresh 1_481 1_000 ≡ false
unfolding is_bootstrap_cache_fresh
stale_after_it = refl

short_wait : fresh_cache_retry_delay_secs 1_389 1_000 ≡ 1
unfolding fresh_cache_retry_delay_secs
short_wait = refl

abbrev no_decoder : List ℕ → Option (List ℕ)
no_decoder bytes = none

abbrev empty : CacheSink
empty = record { boot_blob = none; boot_blob_cached_at = 0 }

abbrev first : Arrival
first = record {
  begins = 0;
  ends = 10;
  unix_secs = 1_000;
  head = failed;
  header_written = true;
  prefix_written = true;
  chunks = record { now = 1; bytes = 8 ∷ 9 ∷ []; written = true } ∷ [];
}

abbrev second : Arrival
second = record {
  begins = 20;
  ends = 30;
  unix_secs = 1_000;
  head = in_time 0 0 0 1 1;
  header_written = true;
  prefix_written = true;
  chunks = record { now = 25; bytes = 5 ∷ 6 ∷ []; written = true } ∷ [];
}

abbrev outcome : Progress
outcome = relay no_decoder 0 0 0 3 0 (7 ∷ []) first (second ∷ []) (start 0 1_800_000_000_000 empty)

captured :
    outcome
    ≡ go_on (record {
      tap = some (0 ∷ 0 ∷ 0 ∷ 3 ∷ 0 ∷ 7 ∷ 8 ∷ 9 ∷ 0 ∷ 0 ∷ 0 ∷ 1 ∷ 1 ∷ 5 ∷ []);
      frames = 2;
      win = 0;
      win_bytes = 14;
      slow = 0;
      capture_deadline = 1_800_000_000_000;
      delivered = 14;
      sink = empty;
    })
unfolding relay start
captured = refl

relay-IsTapped_example : IsTapped no_decoder outcome
relay-IsTapped_example =
    relay-IsTapped no_decoder 0 0 0 3 0 (7 ∷ []) first (second ∷ []) 0 1_800_000_000_000 empty tt

-- A frame of 4,000,000 bytes is no state, one byte more is.
abbrev declining : Incoming
declining = record { head = some (0, 61, 9, 0, 0); parts = []; small = some []; now = 5 }

declined : fetch_bootstrap 0 (declining ∷ []) ≡ Fetch.failed not_serving
unfolding fetch_bootstrap
declined = refl

abbrev serving : Incoming
serving = record {
  head = some (0, 61, 9, 1, 0);
  parts = [];
  small = some (replicate 4_000_001 7);
  now = 5;
}

fetch_bootstrap-IsFetched_example : IsFetched (fetch_bootstrap 0 (serving ∷ []))
fetch_bootstrap-IsFetched_example = fetch_bootstrap-IsFetched 0 (serving ∷ [])
