-- ===== src/Failover/Core/Bounds.antt =====
-- The memory that the failover core of src/failover/core.rs holds per standby stays bounded.
use hypersync.Prelude.{
  ℕ, ◌≡◌, ◌≢◌, inl, inr, Bool, true, false, Option, none, some, List, [], ◌∷◌, ◌==◌, Bool-cases,
  subst, arith,
}
use hypersync.Prelude.Int.{ℤ, pos, ◌-ℤ◌}
use hypersync.Maps.{lookup, put}
use hypersync.Maps.Laws.{AllAbove}
use hypersync.Failover.Upstream.{Ahead, Upstream, push_lead, compared, take_ahead, trim_ahead}
use hypersync.Failover.Upstream.Held.{
  IsBounded, take_ahead-IsBounded, trim_ahead-IsBounded, upstream_of,
}
use hypersync.Failover.Core.{ms_since, settle, settle_all, check_forwarded}

abbrev pub AllBounded : List (ℕ × Upstream) → Type 0
AllBounded [] = Unit
AllBounded ((id, u) ∷ m) = IsBounded u × AllBounded m

-- Every standby holds only rounds above the floor.
abbrev pub AllClear : ℕ → ℕ → List (ℕ × Upstream) → Type 0
AllClear active floor [] = Unit
AllClear active floor ((id, u) ∷ m) =
    (id ≢ active → AllAbove floor u.ahead) × AllClear active floor m

pub AllBounded-put :
    (id : ℕ) (u : Upstream) (m : List (ℕ × Upstream))
    → IsBounded u
    → AllBounded m
    → AllBounded (put id u m)
unfolding put
AllBounded-put id u [] b h = (b, tt)
AllBounded-put id u ((j, v) ∷ m) b h = elim (Bool-cases (j == id)) [
  | inl same ↦ rw same (b, h.1)
  | inr other ↦ rw other (h.0, AllBounded-put id u m b h.1)
]

pub lookup-AllBounded :
    (id : ℕ) (u : Upstream) (m : List (ℕ × Upstream))
    → AllBounded m
    → lookup id m ≡ some u
    → IsBounded u
unfolding lookup
lookup-AllBounded id u [] h e = absurd (none≢some e)
  where
    none≢some : ◌≡◌ {A = Option Upstream} none (some u) → ⊥
    none≢some = λ e. cc
lookup-AllBounded id u ((j, v) ∷ m) h e = elim (Bool-cases (j == id)) [
  | inl same ↦ subst IsBounded (same_value (rw same at e)) h.0
  | inr other ↦ lookup-AllBounded id u m h.1 (rw other at e)
]
  where
    same_value : some v ≡ some u → v ≡ u
    same_value = λ e. cc

pub compared-IsBounded :
    (matched : Bool) (lead : ℤ) (u : Upstream) → IsBounded u → IsBounded (compared matched lead u).0
unfolding compared push_lead
compared-IsBounded true lead u b = record {
  held = record { ascending = b.held.ascending; counted = b.held.counted };
  few = b.few;
  small = b.small;
}
compared-IsBounded false lead u b = record {
  held = record { ascending = b.held.ascending; counted = b.held.counted };
  few = b.few;
  small = b.small;
}

settle-IsBounded :
    (floor round hash at : ℕ) (u : Upstream)
    → IsBounded u
    → IsBounded (settle floor round hash at u).0
      × AllAbove floor (settle floor round hash at u).0.ahead
unfolding settle
settle-IsBounded floor round hash at u b = go (take_ahead round u) (take_ahead-IsBounded round u b)
  where
    go :
        (o : Option (Ahead × Upstream))
        → IsBounded (upstream_of u o)
        → (let v : Upstream × Bool = elim o [
          | none ↦ (u, false)
          | some (a, w) ↦ compared (a.hash == hash) (ms_since at a.at) w
        ] in
            IsBounded (trim_ahead floor v.0) × AllAbove floor (trim_ahead floor v.0).ahead)
    go none h = trim_ahead-IsBounded floor u b
    go (some (a, w)) h =
        trim_ahead-IsBounded floor (compared (a.hash == hash) (ms_since at a.at) w).0
          (compared-IsBounded (a.hash == hash) (ms_since at a.at) w h)

pub settle_all-AllBounded :
    (active floor round hash at : ℕ) (m : List (ℕ × Upstream))
    → AllBounded m
    → AllBounded (settle_all active floor round hash at m).0
      × AllClear active floor (settle_all active floor round hash at m).0
unfolding settle_all
settle_all-AllBounded active floor round hash at [] h = (tt, tt)
settle_all-AllBounded active floor round hash at ((id, u) ∷ m) h =
    let (p, q) = settle_all-AllBounded active floor round hash at m h.1 in
    elim (Bool-cases (id == active)) [
      | inl same ↦
          let e : id ≡ active = ground arith in rw same ((h.0, p), ((λ ne. absurd (ne e)), q))
      | inr other ↦
          let (s, t) = settle-IsBounded floor round hash at u h.0 in
          rw other ((s, p), ((λ ne. t), q))
    ]

pub last_rx-IsBounded :
    (at : ℕ) (u : Upstream) → IsBounded u → IsBounded (record u { last_rx = some at })
last_rx-IsBounded at u b = record {
  held = record { ascending = b.held.ascending; counted = b.held.counted };
  few = b.few;
  small = b.small;
}

pub check_forwarded-IsBounded :
    (o : Option (ℕ × ℕ)) (round hash at : ℕ) (u : Upstream)
    → IsBounded u
    → IsBounded (check_forwarded o round hash at u).0
unfolding check_forwarded
check_forwarded-IsBounded none round hash at u b = b
check_forwarded-IsBounded (some (h, fat)) round hash at u b =
    compared-IsBounded (h == hash) (pos 0 -ℤ ms_since at fat) u b
