-- ===== src/Failover/Core.antt =====
-- The decision core (src/failover/core.rs, struct Core): its state and the arrival of blocks. The map of upstreams stands in some order.
pub mod Verify
pub mod Bounds
pub mod Safe
use Prim.Native.String.{String}
use hypersync.Prelude.{
  ℕ, zero, suc, ◌+◌, ◌-◌, ◌*◌, ◌/◌, ◌^◌, Bool, true, false, ◌&&◌, ◌||◌, not, Option, none, some,
  List, [], ◌∷◌, ◌++◌, map, leb, ltb, ◌==◌, if◌then◌else◌, length, saturating_add, ns_per_ms,
}
use hypersync.Prelude.Int.{ℤ, pos, negsuc, ltb_ℤ, ◌-ℤ◌, neg_part, pos_part}
use hypersync.Maps
use hypersync.Maps.{lookup, insert, put, range_from}
use hypersync.Failover.Upstream
use hypersync.Failover.Upstream.{
  Ahead, Upstream, min_verified, compared, insert_ahead, take_ahead, trim_ahead, median_lead,
  can_continue, chain_len,
}
use mathlib.Core.Option

pub data SwitchReason : Type 0 where
  stall lag active_dead preferred : SwitchReason

pub data StandbyVerdict : Type 0 where
  ok : StandbyVerdict
  mismatch : ℕ → StandbyVerdict

abbrev pub forwarded_keep : ℕ
forwarded_keep = 1024

-- `stall_after`, `lag_after` and `min_dwell` are the durations of the configuration.
pub record Core : Type 0 where
  pub last_forwarded : ℕ
  pub forwarded : List (ℕ × (ℕ × ℕ))
  pub active : ℕ
  pub ups : List (ℕ × Upstream)
  pub last_switch : Option ℕ
  pub stall_after : ℕ
  pub lag_after : ℕ
  pub min_dwell : ℕ

unfoldable pub new : ℕ → String → ℕ → ℕ → ℕ → ℕ → Core
new active active_ip last_forwarded stall_after lag_after min_dwell = record {
  last_forwarded = last_forwarded;
  forwarded = [];
  active = active;
  ups = put active (Upstream.new active_ip) [];
  last_switch = none;
  stall_after = stall_after;
  lag_after = lag_after;
  min_dwell = min_dwell;
}

unfoldable pub add_standby : ℕ → String → Core → Core
add_standby id ip c = record c { ups = put id (Upstream.new ip) c.ups }

unfoldable pub mark_preferred : ℕ → Core → Core
mark_preferred id c = elim (lookup id c.ups) [
  | none ↦ c
  | some u ↦ record c { ups = put id (record u { preferred = true }) c.ups }
]

unfoldable pub remove : ℕ → Core → Core × Option String
remove id c =
    (record c { ups = Maps.remove id c.ups }, Option.map (λ (u : Upstream). u.ip) (lookup id c.ups))

-- `while self.forwarded.len() > keep { pop_first }`.
unfoldable pub pop_over {ℓ} : {V : Type ℓ} → ℕ → List (ℕ × V) → List (ℕ × V)
pop_over keep [] = []
pop_over keep (e ∷ m) = elim (ltb keep (length (e ∷ m))) [ true ↦ pop_over keep m | false ↦ e ∷ m ]

unfoldable pub record_forwarded : ℕ → ℕ → ℕ → Core → Core
record_forwarded round hash at c = record c {
  last_forwarded = round;
  forwarded = pop_over forwarded_keep (insert round (hash, at) c.forwarded);
}

-- `saturating_duration_since` in milliseconds, as an `i64`: an `Instant` span is far below its range.
abbrev pub ms_since : ℕ → ℕ → ℤ
ms_since later earlier = pos ((later - earlier) / ns_per_ms)

-- The body of settle_standbys for one standby, and whether it is to be dropped.
unfoldable pub settle : ℕ → ℕ → ℕ → ℕ → Upstream → Upstream × Bool
settle floor round hash at u =
    let (v, bad) : Upstream × Bool = elim (take_ahead round u) [
      | none ↦ (u, false)
      | some (a, w) ↦ compared (a.hash == hash) (ms_since at a.at) w
    ] in
    (trim_ahead floor v, bad)

-- Its loop.
unfoldable pub settle_all :
    ℕ → ℕ → ℕ → ℕ → ℕ → List (ℕ × Upstream) → List (ℕ × Upstream) × List (ℕ × ℕ)
settle_all active floor round hash at [] = ([], [])
settle_all active floor round hash at ((id, u) ∷ m) =
    let (rest, bads) = settle_all active floor round hash at m in
    if id == active
    then ((id, u) ∷ rest, bads)
    else let (v, bad) = settle floor round hash at u in
      ((id, v) ∷ rest, if bad then (id, round) ∷ bads else bads)

unfoldable pub settle_standbys : ℕ → ℕ → ℕ → Core → Core × List (ℕ × ℕ)
settle_standbys round hash at c =
    let (ups', bads) = settle_all c.active c.last_forwarded round hash at c.ups in
    (record c { ups = ups' }, bads)

-- The time of the last block of an upstream, if it is known.
unfoldable pub touch : ℕ → ℕ → Core → Core
touch id at c = elim (lookup id c.ups) [
  | none ↦ c
  | some u ↦ record c { ups = put id (record u { last_rx = some at }) c.ups }
]

unfoldable pub on_active_block : ℕ → ℕ → ℕ → Core → Core × (Bool × List (ℕ × ℕ))
on_active_block round hash at c =
    let d = touch c.active at c in
    if not (d.last_forwarded == 0) && leb round d.last_forwarded
    then (d, (false, []))
    else let (e, bads) = settle_standbys round hash at (record_forwarded round hash at d) in
      (e, (true, bads))

-- The block of a standby at or below the node's tip.
unfoldable pub check_forwarded : Option (ℕ × ℕ) → ℕ → ℕ → ℕ → Upstream → Upstream × StandbyVerdict
check_forwarded none round hash at u = (u, ok)
check_forwarded (some (h, fat)) round hash at u =
    let (v, bad) = compared (h == hash) (pos 0 -ℤ ms_since at fat) u in
    (v, if bad then mismatch round else ok)

unfoldable pub on_standby_block : ℕ → ℕ → ℕ → ℕ → ℕ → List ℕ → Core → Core × StandbyVerdict
on_standby_block id round parent hash at frame c = elim (lookup id c.ups) [
  | none ↦ (c, ok)
  | some u ↦
      let v = record u { last_rx = some at } in
      if leb round c.last_forwarded
      then (let (w, verdict) = check_forwarded (lookup round c.forwarded) round hash at v in
          (record c { ups = put id w c.ups }, verdict))
      else let a : Ahead = record { parent = parent; hash = hash; at = at; frame = frame } in
        (record c { ups = put id (insert_ahead round a v) c.ups }, ok)
]
