-- ===== src/Failover/Session/Kept.antt =====
-- What a failover session keeps of its upstreams (src/failover/core.rs): buffers within their bounds,
-- and each block held under the round that its frame has.
use hypersync.Prelude.{
  ℕ, zero, suc, ◌-◌, ◌≡◌, refl, inl, inr, Bool, true, false, not, ◌&&◌, Option, none, some, List,
  [], ◌∷◌, length, leb, ◌==◌, max, if◌then◌else◌, Bool-cases, subst, ◌<◌, u32_max,
}
use hypersync.Prelude.Int.{ℤ, pos, ◌-ℤ◌}
use hypersync.Maps.{lookup, remove, put, pop_last}
use hypersync.Maps.Laws.{Popped, pop_last-Popped}
use hypersync.Maps.Entries.{
  AllEntries, AllEntries-insert, AllEntries-put, AllEntries-remove, AllEntries-init,
  lookup-AllEntries,
}
use hypersync.Failover.Upstream.{
  Ahead, Upstream, push_lead, compared, over_limits, trim_highest, insert_ahead, take_ahead,
  trim_low, trim_ahead,
}
use hypersync.Failover.Upstream.Held.{
  IsBounded, upstream_of, insert_ahead-IsBounded, take_ahead-IsBounded, trim_ahead-IsBounded,
}
use hypersync.Failover.Core.{
  Core, StandbyVerdict, ok, ms_since, settle, settle_all, settle_standbys, check_forwarded,
  record_forwarded, touch, on_active_block, on_standby_block,
}
use hypersync.Failover.Core.Bounds.{compared-IsBounded, last_rx-IsBounded}

module _ (classify : List ℕ → Option (ℕ × ℕ × ℕ)) where
  -- The frame of a held block has its round, parent and hash, and the round is not `u32::MAX`.
  abbrev pub Fits : ℕ → Ahead → Type 0
  Fits round a = (classify a.frame ≡ some (round, a.parent, a.hash)) × (round < u32_max)

  pub record IsKept (u : Upstream) : Type 0 where
    pub bounded : IsBounded u
    pub fitting : AllEntries Fits u.ahead

  abbrev pub AllKept : List (ℕ × Upstream) → Type 0
  AllKept = AllEntries (λ id u. IsKept u)

  compared-IsKept :
      (matched : Bool) (lead : ℤ) (u : Upstream) → IsKept u → IsKept (compared matched lead u).0
  unfolding compared push_lead
  compared-IsKept true lead u h = record {
    bounded = compared-IsBounded true lead u h.bounded;
    fitting = h.fitting;
  }
  compared-IsKept false lead u h = record {
    bounded = compared-IsBounded false lead u h.bounded;
    fitting = h.fitting;
  }

  trim_highest-Fits :
      (fuel : ℕ) (u : Upstream)
      → AllEntries Fits u.ahead
      → AllEntries Fits (trim_highest fuel u).ahead
  unfolding trim_highest
  trim_highest-Fits zero u h = h
  trim_highest-Fits (suc fuel) u h = elim (Bool-cases (over_limits u)) [
    | inl over ↦
        rw (over, trim_highest)
          (go (pop_last u.ahead) (pop_last-Popped u.ahead) (trim_highest-Fits fuel))
    | inr within ↦ rw (within, trim_highest) h
  ]
    where
      go :
          (o : Option ((ℕ × Ahead) × List (ℕ × Ahead)))
          → Popped u.ahead o
          → ((v : Upstream) → AllEntries Fits v.ahead → AllEntries Fits (trim_highest fuel v).ahead)
          → (let x : Upstream = elim o [
            | none ↦ u
            | some ((r, a), rest) ↦ trim_highest fuel (record u {
              ahead = rest;
              ahead_bytes = u.ahead_bytes - length a.frame;
              dropped_max = max u.dropped_max r;
            })
          ] in
              AllEntries Fits x.ahead)
      go none p ih = h
      go (some ((r, a), rest)) p ih =
          ih _ (AllEntries-init Fits rest (r, a) (subst (AllEntries Fits) p h))

  insert_ahead-IsKept :
      (r : ℕ) (a : Ahead) (u : Upstream) → Fits r a → IsKept u → IsKept (insert_ahead r a u)
  unfolding insert_ahead
  insert_ahead-IsKept r a u p h = record {
    bounded = insert_ahead-IsBounded r a u h.bounded.held;
    fitting = trim_highest-Fits _ _ (AllEntries-insert Fits r a u.ahead p h.fitting);
  }

  pub take_ahead-IsKept :
      (r : ℕ) (u : Upstream) → IsKept u → IsKept (upstream_of u (take_ahead r u))
  unfolding take_ahead
  take_ahead-IsKept r u h = record {
    bounded = take_ahead-IsBounded r u h.bounded;
    fitting = held (lookup r u.ahead);
  }
    where
      held :
          (o : Option Ahead)
          → AllEntries Fits
              (upstream_of u (elim o [
                | none ↦ none
                | some a ↦ some (
                  a,
                  record u {
                    ahead = remove r u.ahead;
                    ahead_bytes = u.ahead_bytes - length a.frame;
                  },
                )
              ])).ahead
      held none = h.fitting
      held (some a) = AllEntries-remove Fits r u.ahead h.fitting

  trim_low-Fits :
      (floor : ℕ) (m : List (ℕ × Ahead)) (bytes : ℕ)
      → AllEntries Fits m
      → AllEntries Fits (trim_low floor m bytes).0
  unfolding trim_low
  trim_low-Fits floor [] bytes h = tt
  trim_low-Fits floor ((r, a) ∷ m) bytes h = elim (Bool-cases (leb r floor)) [
    | inl old ↦ rw (old, trim_low) (trim_low-Fits floor m (bytes - length a.frame) h.1)
    | inr fresh ↦ rw (fresh, trim_low) h
  ]

  trim_ahead-IsKept : (floor : ℕ) (u : Upstream) → IsKept u → IsKept (trim_ahead floor u)
  unfolding trim_ahead
  trim_ahead-IsKept floor u h = record {
    bounded = (trim_ahead-IsBounded floor u h.bounded).0;
    fitting = trim_low-Fits floor u.ahead u.ahead_bytes h.fitting;
  }

  settle-IsKept :
      (floor round hash at : ℕ) (u : Upstream) → IsKept u → IsKept (settle floor round hash at u).0
  unfolding settle
  settle-IsKept floor round hash at u h = go (take_ahead round u) (take_ahead-IsKept round u h)
    where
      go :
          (o : Option (Ahead × Upstream))
          → IsKept (upstream_of u o)
          → (let v : Upstream × Bool = elim o [
            | none ↦ (u, false)
            | some (a, w) ↦ compared (a.hash == hash) (ms_since at a.at) w
          ] in
              IsKept (trim_ahead floor v.0))
      go none k = trim_ahead-IsKept floor u h
      go (some (a, w)) k =
          trim_ahead-IsKept floor (compared (a.hash == hash) (ms_since at a.at) w).0
            (compared-IsKept (a.hash == hash) (ms_since at a.at) w k)

  pub settle_all-AllKept :
      (active floor round hash at : ℕ) (m : List (ℕ × Upstream))
      → AllKept m
      → AllKept (settle_all active floor round hash at m).0
  unfolding settle_all
  settle_all-AllKept active floor round hash at [] h = tt
  settle_all-AllKept active floor round hash at ((id, u) ∷ m) h =
      let rest = settle_all-AllKept active floor round hash at m h.1 in
      elim (Bool-cases (id == active)) [
        | inl same ↦ rw same (h.0, rest)
        | inr other ↦ rw other (settle-IsKept floor round hash at u h.0, rest)
      ]

  last_rx-IsKept : (at : ℕ) (u : Upstream) → IsKept u → IsKept (record u { last_rx = some at })
  last_rx-IsKept at u h = record { bounded = last_rx-IsBounded at u h.bounded; fitting = h.fitting }

  touch-AllKept : (id at : ℕ) (c : Core) → AllKept c.ups → AllKept (touch id at c).ups
  unfolding touch
  touch-AllKept id at c h = go (lookup id c.ups) refl
    where
      go :
          (o : Option Upstream)
          → lookup id c.ups ≡ o
          → (let d : Core = elim o [
            | none ↦ c
            | some u ↦ record c { ups = put id (record u { last_rx = some at }) c.ups }
          ] in
              AllKept d.ups)
      go none e = h
      go (some u) e =
          AllEntries-put (λ id u. IsKept u) id (record u { last_rx = some at }) c.ups
            (last_rx-IsKept at u (lookup-AllEntries (λ id u. IsKept u) id u c.ups h e)) h

  pub on_active_block-AllKept :
      (round hash at : ℕ) (c : Core)
      → AllKept c.ups
      → AllKept (on_active_block round hash at c).0.ups
  unfolding on_active_block settle_standbys record_forwarded
  on_active_block-AllKept round hash at c h =
      let d : Core = touch c.active at c in
      let t = touch-AllKept c.active at c h in
      elim (Bool-cases (not (d.last_forwarded == 0) && leb round d.last_forwarded)) [
        | inl old ↦ rw old t
        | inr fresh ↦ rw fresh (settle_all-AllKept d.active round round hash at d.ups t)
      ]

  check_forwarded-IsKept :
      (o : Option (ℕ × ℕ)) (round hash at : ℕ) (u : Upstream)
      → IsKept u
      → IsKept (check_forwarded o round hash at u).0
  unfolding check_forwarded
  check_forwarded-IsKept none round hash at u h = h
  check_forwarded-IsKept (some (g, fat)) round hash at u h =
      compared-IsKept (g == hash) (pos 0 -ℤ ms_since at fat) u h

  -- The upstreams after a standby's block, whose frame has that round, parent and hash.
  pub on_standby_block-AllKept :
      (id round parent hash at : ℕ) (bytes : List ℕ) (c : Core)
      → (classify bytes ≡ some (round, parent, hash)) × (round < u32_max)
      → AllKept c.ups
      → AllKept (on_standby_block id round parent hash at bytes c).0.ups
  unfolding on_standby_block
  on_standby_block-AllKept id round parent hash at bytes c p h = go (lookup id c.ups) refl
    where
      seen : Upstream → Upstream
      seen u = record u { last_rx = some at }

      go :
          (o : Option Upstream)
          → lookup id c.ups ≡ o
          → AllKept (
              let x : Core × StandbyVerdict = elim o [
                | none ↦ (c, ok)
                | some u ↦
                    let v = record u { last_rx = some at } in
                    if leb round c.last_forwarded
                    then (let (w, verdict) =
                          check_forwarded (lookup round c.forwarded) round hash at v in
                        (record c { ups = put id w c.ups }, verdict))
                    else let a : Ahead = record {
                      parent = parent;
                      hash = hash;
                      at = at;
                      frame = bytes;
                    } in
                      (record c { ups = put id (insert_ahead round a v) c.ups }, ok)
              ] in
              x.0.ups)
      go none e = h
      go (some u) e =
          let k = last_rx-IsKept at u (lookup-AllEntries (λ id u. IsKept u) id u c.ups h e) in
          elim (Bool-cases (leb round c.last_forwarded)) [
            | inl old ↦ rw old (
                AllEntries-put (λ id u. IsKept u) id _ c.ups
                  (check_forwarded-IsKept (lookup round c.forwarded) round hash at (seen u) k) h)
            | inr fresh ↦
                let a : Ahead = record { parent = parent; hash = hash; at = at; frame = bytes } in
                rw fresh (
                  AllEntries-put (λ id u. IsKept u) id _ c.ups
                    (insert_ahead-IsKept round a (seen u) p k) h)
          ]
