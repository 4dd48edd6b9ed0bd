-- ===== src/Failover/Upstream.antt =====
-- One upstream of the failover core (src/failover/core.rs, struct Upstream). An `Instant` is a count
-- of nanoseconds, and a frame is its list of bytes.
pub mod Held
use Prim.Native.String.{String}
use hypersync.Prelude.{
  ℕ, zero, suc, ◌+◌, ◌-◌, ◌*◌, ◌/◌, ◌^◌, Bool, true, false, ◌||◌, not, Option, none, some, List, [],
  ◌∷◌, ◌++◌, leb, ltb, ◌==◌, if◌then◌else◌, length, get_elem?, max, saturating_add,
}
use hypersync.Prelude.Int.{ℤ, pos, negsuc, ltb_ℤ}
use hypersync.Maps.{lookup, remove, insert, range_from, pop_last}
use mathlib.Core.List.{tail}

abbrev pub min_verified : ℕ
min_verified = 3

abbrev pub max_mismatches : ℕ
max_mismatches = 3

abbrev pub lead_window : ℕ
lead_window = 40

abbrev pub lead_min_samples : ℕ
lead_min_samples = 20

abbrev pub ahead_keep : ℕ
ahead_keep = 512

abbrev pub ahead_max_bytes : ℕ
ahead_max_bytes = 33_554_432

pub record Ahead : Type 0 where
  pub parent : ℕ
  pub hash : ℕ
  pub at : ℕ
  pub frame : List ℕ

pub record Upstream : Type 0 where
  pub ip : String
  pub verified : ℕ
  pub mismatches : ℕ
  pub ahead : List (ℕ × Ahead)
  pub ahead_bytes : ℕ
  pub dropped_max : ℕ
  pub leads : List ℤ
  pub last_rx : Option ℕ
  pub preferred : Bool

unfoldable pub new : String → Upstream
new ip = record {
  ip = ip;
  verified = 0;
  mismatches = 0;
  ahead = [];
  ahead_bytes = 0;
  dropped_max = 0;
  leads = [];
  last_rx = none;
  preferred = false;
}

unfoldable pub push_lead : ℤ → Upstream → Upstream
push_lead ms u = record u {
  leads = (if length u.leads == lead_window then tail u.leads else u.leads) ++ ms ∷ [];
}

-- The new upstream, and whether it is to be dropped. The counters are unbounded here: `u32` in the
-- source, which `verified` would pass after 2 ^ 32 matches in a row.
unfoldable pub compared : Bool → ℤ → Upstream → Upstream × Bool
compared matched lead_ms u =
    if matched
    then (push_lead lead_ms (record u { verified = u.verified + 1; mismatches = 0 }), false)
    else (
      record u { verified = 0; mismatches = u.mismatches + 1 },
      leb max_mismatches (u.mismatches + 1),
    )

unfoldable pub over_limits : Upstream → Bool
over_limits u = ltb ahead_keep (length u.ahead) || ltb ahead_max_bytes u.ahead_bytes

-- The `while` of insert_ahead. Each round takes an entry, so their number bounds the rounds.
unfoldable pub trim_highest : ℕ → Upstream → Upstream
trim_highest zero u = u
trim_highest (suc fuel) u = elim (over_limits u) [
  | false ↦ u
  | true ↦ elim (pop_last u.ahead) [
    | none ↦ u
    | some ((r, a), rest) ↦ trim_highest fuel (record u {
      ahead = rest;
      ahead_bytes = u.ahead_bytes - length a.frame;
      dropped_max = max u.dropped_max r;
    })
  ]
]

-- The bytes of the block that an insertion replaces.
unfoldable pub replaced_bytes : ℕ → List (ℕ × Ahead) → ℕ
replaced_bytes round ahead = elim (lookup round ahead) [ some old ↦ length old.frame | none ↦ 0 ]

unfoldable pub insert_ahead : ℕ → Ahead → Upstream → Upstream
insert_ahead round a u =
    let v = record u {
      ahead = insert round a u.ahead;
      ahead_bytes = u.ahead_bytes + length a.frame - replaced_bytes round u.ahead;
    } in
    trim_highest (length v.ahead) v

unfoldable pub take_ahead : ℕ → Upstream → Option (Ahead × Upstream)
take_ahead round u = elim (lookup round u.ahead) [
  | none ↦ none
  | some a ↦
      some
        (a, record u { ahead = remove round u.ahead; ahead_bytes = u.ahead_bytes - length a.frame })
]

-- The `while` of trim_ahead.
unfoldable pub trim_low : ℕ → List (ℕ × Ahead) → ℕ → List (ℕ × Ahead) × ℕ
trim_low floor [] bytes = ([], bytes)
trim_low floor ((r, a) ∷ rest) bytes = elim (leb r floor) [
  | true ↦ trim_low floor rest (bytes - length a.frame)
  | false ↦ ((r, a) ∷ rest, bytes)
]

unfoldable pub trim_ahead : ℕ → Upstream → Upstream
trim_ahead floor u =
    let (ahead', bytes') = trim_low floor u.ahead u.ahead_bytes in
    record u { ahead = ahead'; ahead_bytes = bytes' }

-- `sort_unstable` on `i64`.
unfoldable pub insert_lead : ℤ → List ℤ → List ℤ
insert_lead x [] = x ∷ []
insert_lead x (y ∷ ys) = if ltb_ℤ y x then y ∷ insert_lead x ys else x ∷ y ∷ ys

unfoldable pub sort_leads : List ℤ → List ℤ
unfolding insert_lead
sort_leads [] = []
sort_leads (x ∷ xs) = insert_lead x (sort_leads xs)

unfoldable pub median_lead : Upstream → Option ℤ
unfolding sort_leads
median_lead u =
    if ltb (length u.leads) lead_min_samples
    then none
    else let v = sort_leads u.leads in get_elem? v (length v / 2)

unfoldable pub can_continue : Upstream → ℕ → Bool
can_continue u from = leb u.dropped_max from

-- The loop of chain_len.
unfoldable pub chain_walk : ℕ → ℕ → Option ℕ → List (ℕ × Ahead) → ℕ × Option ℕ
chain_walk cur n first_at [] = (n, first_at)
chain_walk cur n first_at ((r, a) ∷ rest) = elim (a.parent == cur) [
  | false ↦ (n, first_at)
  | true ↦ chain_walk r (n + 1) (elim first_at [ none ↦ some a.at | some t ↦ some t ]) rest
]

unfoldable pub chain_len : Upstream → ℕ → ℕ × Option ℕ
unfolding chain_walk
chain_len u from =
    if not (can_continue u from)
    then (0, none)
    else chain_walk from 0 none (range_from (saturating_add from 1) u.ahead)
