-- ===== src/Failover/Switch/Ranked.antt =====
-- What pick_switch of src/failover/core.rs chooses from.
use hypersync.Prelude.{
  ℕ, ◌-◌, ◌/◌, ◌≤◌, ◌≡◌, ◌≢◌, refl, inl, inr, Bool, false, ◌&&◌, ◌||◌, not, Option, none, some,
  List, [], ◌∷◌, leb, ltb, ◌==◌, if◌then◌else◌, Bool-cases, subst, ns_per_ms, arith,
}
use hypersync.Prelude.Int.{ℤ, pos, ltb_ℤ}
use hypersync.Maps.{lookup}
use hypersync.Maps.Laws.{In, here, there, IsMap, lookup-In}
use hypersync.Failover.Upstream.{Upstream, min_verified, median_lead, chain_len}
use hypersync.Failover.Core.{Core, SwitchReason, stall, lag, active_dead, preferred}
use hypersync.Failover.Switch.{
  Best, Scene, ranks_above, leads_above, lead_or, i64_min, rank_stall, rank_preferred, rank_lag,
  consider, consider_all, choose, scene_of, no_best, pick_switch,
}

-- What the loop asks of a standby before it ranks it.
pub record IsEligible (c : Core) (id : ℕ) (u : Upstream) : Type 0 where
  pub standby : id ≢ c.active
  pub verified : min_verified ≤ u.verified
  pub continues : (t : ℕ) × ((chain_len u c.last_forwarded).1 ≡ some t)

module _ (c : Core) (P : ℕ → Type 0) where
  abbrev OfStall : Option (ℕ × ℤ × ℕ × ℕ) → Type 0
  OfStall none = Unit
  OfStall (some (id, _, _, _)) = P id

  abbrev OfLead : Option (ℕ × ℤ) → Type 0
  OfLead none = Unit
  OfLead (some (id, _)) = P id

  -- Each candidate so far has the property.
  abbrev AllBest : Best → Type 0
  AllBest b = OfStall b.stall_best × OfLead b.lag_best × OfLead b.preferred_best

  rank_stall-AllBest :
      (s : Scene) (id : ℕ) (u : Upstream) (n t : ℕ) (b : Best)
      → P id
      → AllBest b
      → AllBest (rank_stall c s id u n t b)
  unfolding rank_stall
  rank_stall-AllBest s id u n t b p h =
      elim (Bool-cases (
        (s.dead || leb c.stall_after (s.now - t))
        && ranks_above (lead_or i64_min (median_lead u)) n t b.stall_best)) [
          | inl better ↦ rw better (p, h.1, h.2)
          | inr worse ↦ rw worse h
        ]

  rank_preferred-AllBest :
      (s : Scene) (id : ℕ) (u : Upstream) (b : Best)
      → P id
      → AllBest b
      → AllBest (rank_preferred s id u b)
  unfolding rank_preferred
  rank_preferred-AllBest s id u b p h =
      elim (Bool-cases (
        s.dwell_ok
        && u.preferred
        && not s.active_preferred
        && leads_above (lead_or i64_min (median_lead u)) b.preferred_best)) [
          | inl better ↦ rw better (h.0, h.1, p)
          | inr worse ↦ rw worse h
        ]

  rank_lag-AllBest :
      (s : Scene) (id : ℕ) (u : Upstream) (b : Best)
      → P id
      → AllBest b
      → AllBest (rank_lag c s id u b)
  unfolding rank_lag
  rank_lag-AllBest s id u b p h =
      elim (Bool-cases (s.dwell_ok && (u.preferred || not s.active_preferred))) [
        | inr shut ↦ rw shut h
        | inl allowed ↦ rw allowed (go (median_lead u))
      ]
    where
      go :
          (o : Option ℤ)
          → AllBest (elim o [
            | none ↦ b
            | some m ↦
                if not (ltb_ℤ m (pos (c.lag_after / ns_per_ms))) && leads_above m b.lag_best
                then record b { lag_best = some (id, m) }
                else b
          ])
      go none = h
      go (some m) =
          elim (Bool-cases
            (not (ltb_ℤ m (pos (c.lag_after / ns_per_ms))) && leads_above m b.lag_best)) [
              | inl better ↦ rw better (h.0, p, h.2)
              | inr worse ↦ rw worse h
            ]

  consider-AllBest :
      (s : Scene) (id : ℕ) (u : Upstream) (b : Best)
      → (IsEligible c id u → P id)
      → AllBest b
      → AllBest (consider c s id u b)
  unfolding consider
  consider-AllBest s id u b p h =
      elim (Bool-cases (id == c.active || ltb u.verified min_verified)) [
        | inl skipped ↦ rw skipped h
        | inr fit ↦ rw fit (go fit (chain_len u c.last_forwarded).1 refl)
      ]
    where
      go :
          (id == c.active || ltb u.verified min_verified) ≡ false
          → (o : Option ℕ) → (chain_len u c.last_forwarded).1 ≡ o
          → AllBest (elim o [
            | none ↦ b
            | some t ↦
                rank_lag c s id u
                  (rank_preferred s id u (rank_stall c s id u (chain_len u c.last_forwarded).0 t b))
          ])
      go fit none e = h
      go fit (some t) e =
          let n : ℕ = (chain_len u c.last_forwarded).0 in
          let q : P id =
            p (record { standby = ground arith; verified = ground arith; continues = (t, e) }) in
          rank_lag-AllBest s id u (rank_preferred s id u (rank_stall c s id u n t b)) q (
            rank_preferred-AllBest s id u (rank_stall c s id u n t b) q
              (rank_stall-AllBest s id u n t b q h))

  consider_all-AllBest :
      (s : Scene) (m : List (ℕ × Upstream)) (b : Best)
      → ((id : ℕ) (u : Upstream) → In id u m → IsEligible c id u → P id)
      → AllBest b
      → AllBest (consider_all c s m b)
  unfolding consider_all
  consider_all-AllBest s [] b p h = h
  consider_all-AllBest s ((id, u) ∷ m) b p h =
      consider_all-AllBest s m (consider c s id u b) (λ i v x. p i v (there x))
        (consider-AllBest s id u b (p id u here) h)

  choose-AllBest :
      (dead : Bool) (b : Best) (id : ℕ) (why : SwitchReason)
      → AllBest b
      → choose dead b ≡ some (id, why)
      → P id
  unfolding choose
  choose-AllBest dead b id why h e = stalled b.stall_best h.0 e
    where
      by_id :
          (i j : ℕ) (x y : SwitchReason)
          → P i
          → ◌≡◌ {A = Option (ℕ × SwitchReason)} (some (i, x)) (some (j, y))
          → P j
      by_id i j x y p e = let q : i ≡ j = cc in subst P q p

      none_case :
          (j : ℕ) (y : SwitchReason) → ◌≡◌ {A = Option (ℕ × SwitchReason)} none (some (j, y)) → ⊥
      none_case j y e = cc

      lagged :
          (o : Option (ℕ × ℤ))
          → OfLead o
          → ◌≡◌ {A = Option (ℕ × SwitchReason)}
              (elim o [ some (i, _) ↦ some (i, lag) | none ↦ none ])
              (some (id, why))
          → P id
      lagged none h e = absurd (none_case id why e)
      lagged (some (i, m)) h e = by_id i id lag why h e

      preferring :
          (o : Option (ℕ × ℤ))
          → OfLead o
          → ◌≡◌ {A = Option (ℕ × SwitchReason)}
              (elim o [
                | some (i, _) ↦ some (i, preferred)
                | none ↦ elim b.lag_best [ some (i, _) ↦ some (i, lag) | none ↦ none ]
              ])
              (some (id, why))
          → P id
      preferring none h' e = lagged b.lag_best h.1 e
      preferring (some (i, m)) h' e = by_id i id preferred why h' e

      stalled :
          (o : Option (ℕ × ℤ × ℕ × ℕ))
          → OfStall o
          → ◌≡◌ {A = Option (ℕ × SwitchReason)}
              (elim o [
                | some (i, _, _, _) ↦ some (i, if dead then active_dead else stall)
                | none ↦ elim b.preferred_best [
                  | some (i, _) ↦ some (i, preferred)
                  | none ↦ elim b.lag_best [ some (i, _) ↦ some (i, lag) | none ↦ none ]
                ]
              ])
              (some (id, why))
          → P id
      stalled none h' e = preferring b.preferred_best h.2 e
      stalled (some (i, l, n, t)) h' e = by_id i id (if dead then active_dead else stall) why h' e

-- The standby that is chosen.
abbrev pub IsPickable : Core → ℕ → Type 0
IsPickable c id = (u : Upstream) × (lookup id c.ups ≡ some u) × IsEligible c id u

pub pick_switch-IsPickable :
    (c : Core) (now : ℕ) (dead : Bool) (id : ℕ) (why : SwitchReason)
    → IsMap c.ups
    → pick_switch c now dead ≡ some (id, why)
    → IsPickable c id
unfolding pick_switch
pick_switch-IsPickable c now dead id why maps e = elim (Bool-cases (c.last_forwarded == 0)) [
  | inl unknown ↦ absurd (none≢some (rw (unknown, pick_switch) at e))
  | inr known ↦
      choose-AllBest c (IsPickable c) dead (consider_all c (scene_of c now dead) c.ups no_best) id
        why
        (consider_all-AllBest c (IsPickable c) (scene_of c now dead) c.ups no_best
          (λ i u x fit. (u, lookup-In x maps, fit)) (tt, tt, tt))
        (rw (known, pick_switch) at e)
]
  where
    none≢some : ◌≡◌ {A = Option (ℕ × SwitchReason)} none (some (id, why)) → ⊥
    none≢some = λ e. cc
