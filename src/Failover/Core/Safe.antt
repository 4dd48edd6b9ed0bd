-- ===== src/Failover/Core/Safe.antt =====
-- What the arrival of blocks keeps (src/failover/core.rs): on_active_block, on_standby_block.
use hypersync.Prelude.{
  ℕ, ◌≡◌, ◌≢◌, refl, sym, inl, inr, Bool, true, false, ◌&&◌, not, Option, none, some, List, [], ◌∷◌,
  leb, ◌==◌, if◌then◌else◌, Bool-cases, subst, arith,
}
use hypersync.Prelude.Int.{ℤ, pos, ◌-ℤ◌}
use hypersync.Maps.{lookup, put}
use hypersync.Maps.Laws.{AllAbove}
use hypersync.Failover.Upstream.{Ahead, Upstream, push_lead, compared, insert_ahead}
use hypersync.Failover.Upstream.Held.{IsBounded, insert_ahead-IsBounded, insert_ahead-AllAbove}
use hypersync.Failover.Core.{
  Core, StandbyVerdict, ok, record_forwarded, ms_since, settle_standbys, touch, on_active_block,
  check_forwarded, on_standby_block,
}
use hypersync.Failover.Core.Bounds.{
  AllBounded, AllClear, AllBounded-put, lookup-AllBounded, settle_all-AllBounded, last_rx-IsBounded,
  check_forwarded-IsBounded,
}

-- Every buffer is within its bounds, and no standby holds a block that the node has.
pub record IsSafe (c : Core) : Type 0 where
  pub bounded : AllBounded c.ups
  pub clear : AllClear c.active c.last_forwarded c.ups

AllClear-put :
    (active floor id : ℕ) (u : Upstream) (m : List (ℕ × Upstream))
    → (id ≢ active → AllAbove floor u.ahead)
    → AllClear active floor m
    → AllClear active floor (put id u m)
unfolding put
AllClear-put active floor id u [] above h = (above, tt)
AllClear-put active floor id u ((j, v) ∷ m) above h = elim (Bool-cases (j == id)) [
  | inl same ↦ rw same (above, h.1)
  | inr other ↦ rw other (h.0, AllClear-put active floor id u m above h.1)
]

lookup-AllClear :
    (active floor id : ℕ) (u : Upstream) (m : List (ℕ × Upstream))
    → AllClear active floor m
    → lookup id m ≡ some u
    → id ≢ active
    → AllAbove floor u.ahead
unfolding lookup
lookup-AllClear active floor id u [] h e ne = absurd (none≢some e)
  where
    none≢some : ◌≡◌ {A = Option Upstream} none (some u) → ⊥
    none≢some = λ e. cc
lookup-AllClear active floor id u ((j, v) ∷ m) h e ne = elim (Bool-cases (j == id)) [
  | inl same ↦
      let key : j ≡ id = ground arith in
      subst (λ w. AllAbove floor w.ahead) (same_value (rw same at e)) (h.0 (rw key ne))
  | inr other ↦ lookup-AllClear active floor id u m h.1 (rw other at e) ne
]
  where
    same_value : some v ≡ some u → v ≡ u
    same_value = λ e. cc

touch-IsSafe : (id at : ℕ) (c : Core) → IsSafe c → IsSafe (touch id at c)
unfolding touch
touch-IsSafe id at c s = go (lookup id c.ups) refl
  where
    go :
        (o : Option Upstream)
        → lookup id c.ups ≡ o
        → IsSafe (elim o [
          | none ↦ c
          | some u ↦ record c { ups = put id (record u { last_rx = some at }) c.ups }
        ])
    go none e = s
    go (some u) e = record {
      bounded =
          AllBounded-put id (record u { last_rx = some at }) c.ups
            (last_rx-IsBounded at u (lookup-AllBounded id u c.ups s.bounded e)) s.bounded;
      clear =
          AllClear-put c.active c.last_forwarded id (record u { last_rx = some at }) c.ups
            (lookup-AllClear c.active c.last_forwarded id u c.ups s.clear e) s.clear;
    }

-- A block of the active upstream keeps every standby's buffer within its bounds, and leaves no block
-- there that the node has, its new tip included.
pub on_active_block-IsSafe :
    (round hash at : ℕ) (c : Core) → IsSafe c → IsSafe (on_active_block round hash at c).0
unfolding on_active_block settle_standbys record_forwarded
on_active_block-IsSafe round hash at c s =
    let d : Core = touch c.active at c in
    let t : IsSafe d = touch-IsSafe c.active at c s in
    elim (Bool-cases (not (d.last_forwarded == 0) && leb round d.last_forwarded)) [
      | inl old ↦ rw old t
      | inr fresh ↦
          let (p, q) = settle_all-AllBounded d.active round round hash at d.ups t.bounded in
          rw fresh (record { bounded = p; clear = q })
    ]

compared-ahead :
    (matched : Bool) (lead : ℤ) (u : Upstream) → (compared matched lead u).0.ahead ≡ u.ahead
unfolding compared push_lead
compared-ahead true lead u = refl
compared-ahead false lead u = refl

check_forwarded-ahead :
    (o : Option (ℕ × ℕ)) (round hash at : ℕ) (u : Upstream)
    → (check_forwarded o round hash at u).0.ahead ≡ u.ahead
unfolding check_forwarded
check_forwarded-ahead none round hash at u = refl
check_forwarded-ahead (some (h, fat)) round hash at u =
    compared-ahead (h == hash) (pos 0 -ℤ ms_since at fat) u

-- So does a block of a standby, of whatever round and size, and it leaves the node's tip and the
-- active upstream as they are.
pub on_standby_block-IsSafe :
    (id round parent hash at : ℕ) (frame : List ℕ) (c : Core)
    → IsSafe c
    → IsSafe (on_standby_block id round parent hash at frame c).0
      × ((on_standby_block id round parent hash at frame c).0.last_forwarded ≡ c.last_forwarded)
      × ((on_standby_block id round parent hash at frame c).0.active ≡ c.active)
unfolding on_standby_block
on_standby_block-IsSafe id round parent hash at frame c s = go (lookup id c.ups) refl
  where
    seen : Upstream → Upstream
    seen u = record u { last_rx = some at }

    Kept : Core → Type 0
    Kept d = IsSafe d × (d.last_forwarded ≡ c.last_forwarded) × (d.active ≡ c.active)

    kept :
        (w : Upstream)
        → IsBounded w
        → (id ≢ c.active → AllAbove c.last_forwarded w.ahead)
        → Kept (record c { ups = put id w c.ups })
    kept w b above = (
      record {
        bounded = AllBounded-put id w c.ups b s.bounded;
        clear = AllClear-put c.active c.last_forwarded id w c.ups above s.clear;
      },
      refl,
      refl,
    )

    found : (u : Upstream) → lookup id c.ups ≡ some u → IsBounded (seen u)
    found u e = last_rx-IsBounded at u (lookup-AllBounded id u c.ups s.bounded e)

    go :
        (o : Option Upstream)
        → lookup id c.ups ≡ o
        → Kept (
            let x : Core × StandbyVerdict = elim o [
              | none ↦ (c, ok)
              | some u ↦
                  let v = record u { last_rx = some at } in
                  if leb round c.last_forwarded
                  then (let (w, verdict) =
                        check_forwarded (lookup round c.forwarded) round hash at v in
                      (record c { ups = put id w c.ups }, verdict))
                  else let a : Ahead = record {
                    parent = parent;
                    hash = hash;
                    at = at;
                    frame = frame;
                  } in
                    (record c { ups = put id (insert_ahead round a v) c.ups }, ok)
            ] in
            x.0)
    go none e = (s, refl, refl)
    go (some u) e = elim (Bool-cases (leb round c.last_forwarded)) [
      | inl old ↦ rw old (
          kept (check_forwarded (lookup round c.forwarded) round hash at (seen u)).0
            (check_forwarded-IsBounded (lookup round c.forwarded) round hash at (seen u)
              (found u e))
            (λ ne.
              subst (AllAbove c.last_forwarded)
                (sym (check_forwarded-ahead (lookup round c.forwarded) round hash at (seen u)))
                (lookup-AllClear c.active c.last_forwarded id u c.ups s.clear e ne)))
      | inr fresh ↦
          let a : Ahead = record { parent = parent; hash = hash; at = at; frame = frame } in
          rw fresh (
            kept (insert_ahead round a (seen u))
              (insert_ahead-IsBounded round a (seen u) (found u e).held)
              (λ ne.
                insert_ahead-AllAbove c.last_forwarded round a (seen u) (ground arith)
                  (lookup-AllClear c.active c.last_forwarded id u c.ups s.clear e ne)))
    ]
