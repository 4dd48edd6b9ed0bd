-- ===== src/Push/Freshest.antt =====
-- The freshest round of the gateway's streams (src/push/live.rs, FreshestRound). An `Instant` is a
-- count of nanoseconds; the shared network tip is a field, read at each call.
pub mod Order
pub mod Agreed
use Prim.Native.String.{String}
use text.Mathlib.Text.{◌==◌ as str_eq}
use hypersync.Prelude.{
  ℕ, ◌+◌, ◌-◌, Bool, true, false, ◌&&◌, ◌||◌, not, Option, none, some, List, [], ◌∷◌, leb, ltb,
  ◌==◌, if◌then◌else◌, get_elem?, max, saturating_add,
}
use hypersync.Maps

abbrev pub max_active_round_jump : ℕ
max_active_round_jump = 20_000

abbrev pub freshest_tip_slack : ℕ
freshest_tip_slack = max_active_round_jump

-- One stream's entry: its peer, its highest round and when that last rose.
pub record Stream : Type 0 where
  pub peer : String
  pub round : ℕ
  pub at : ℕ

pub record FreshestRound : Type 0 where
  pub streams : List (ℕ × Stream)
  pub net_tip : ℕ
  pub lag_rounds : ℕ
  pub grace : ℕ
  pub stale : ℕ

unfoldable pub new : ℕ → ℕ → ℕ → ℕ → FreshestRound
new lag_rounds grace stale net_tip = record {
  streams = [];
  net_tip = net_tip;
  lag_rounds = lag_rounds;
  grace = grace;
  stale = stale;
}

-- `retain` on the age of an entry.
unfoldable pub retain_fresh : ℕ → ℕ → List (ℕ × Stream) → List (ℕ × Stream)
retain_fresh now stale [] = []
retain_fresh now stale ((id, s) ∷ m) =
    let rest = retain_fresh now stale m in if leb (now - s.at) stale then (id, s) ∷ rest else rest

-- The entry of a stream that offers a round.
unfoldable pub raised : Option Stream → String → ℕ → ℕ → Stream
raised none peer round now = record { peer = peer; round = round; at = now }
raised (some e) peer round now =
    if ltb e.round round then record e { round = round; at = now } else e

unfoldable pub offer : ℕ → String → ℕ → ℕ → FreshestRound → FreshestRound
unfolding retain_fresh raised
offer id peer round now f =
    if f.net_tip == 0 || ltb (saturating_add f.net_tip freshest_tip_slack) round
    then f
    else let streams' = retain_fresh now f.stale f.streams in
      record f { streams = Maps.put id (raised (Maps.lookup id streams') peer round now) streams' }

-- The end of a stream (the drop of its FreshestFeed).
unfoldable pub drop_feed : ℕ → FreshestRound → FreshestRound
drop_feed id f = record f { streams = Maps.remove id f.streams }

-- `*best = (*best).max(round)` at the peer's entry.
unfoldable pub raise_peer : String → ℕ → List (String × ℕ) → List (String × ℕ)
raise_peer peer round [] = (peer, round) ∷ []
raise_peer peer round ((q, r) ∷ m) =
    if str_eq q peer then (q, max r round) ∷ m else (q, r) ∷ raise_peer peer round m

unfoldable pub counts : ℕ → ℕ → ℕ → Stream → Bool
counts now max_age ceiling s = leb (now - s.at) max_age && leb s.round ceiling

-- The loop over the streams.
unfoldable pub per_peer : ℕ → ℕ → ℕ → List (ℕ × Stream) → List (String × ℕ) → List (String × ℕ)
unfolding raise_peer counts
per_peer now max_age ceiling [] best = best
per_peer now max_age ceiling ((id, s) ∷ m) best =
    per_peer now max_age ceiling m
      (if counts now max_age ceiling s then raise_peer s.peer s.round best else best)

-- `sort_unstable_by(|a, b| b.cmp(a))`.
unfoldable pub insert_down : ℕ → List ℕ → List ℕ
insert_down x [] = x ∷ []
insert_down x (y ∷ ys) = if leb y x then x ∷ y ∷ ys else y ∷ insert_down x ys

unfoldable pub sort_down : List (String × ℕ) → List ℕ
unfolding insert_down
sort_down [] = []
sort_down ((q, r) ∷ m) = insert_down r (sort_down m)

unfoldable pub get_within : ℕ → ℕ → FreshestRound → Option ℕ
unfolding per_peer sort_down
get_within now max_age f =
    if f.net_tip == 0
    then none
    else let ceiling = saturating_add f.net_tip freshest_tip_slack in
      get_elem? (sort_down (per_peer now max_age ceiling f.streams [])) 1

unfoldable pub get : ℕ → FreshestRound → Option ℕ
unfolding get_within
get now f = get_within now f.stale f

unfoldable pub select_floor : ℕ → FreshestRound → ℕ
unfolding get_within
select_floor now f = elim (get_within now (f.stale - f.grace) f) [
  | none ↦ 0
  | some r ↦ r - f.lag_rounds
]
