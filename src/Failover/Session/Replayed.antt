-- ===== src/Failover/Session/Replayed.antt =====
-- What a switch does to a session's upstreams and sends to the node (src/failover/core.rs, switch_to).
use hypersync.Prelude.{
  Climbs, ℕ, zero, suc, ◌<◌, ◌≡◌, refl, inl, inr, true, false, Option, none, some, List, [], ◌∷◌,
  length, ◌==◌, saturating_add, u32_max, Bool-cases, arith,
}
use hypersync.Maps.{lookup, put, range_from}
use hypersync.Maps.Laws.{AllBelow}
use hypersync.Maps.Entries.{AllEntries, AllEntries-put, lookup-AllEntries}
use hypersync.Failover.Upstream.{Ahead, Upstream, can_continue, take_ahead}
use hypersync.Failover.Upstream.Held.{upstream_of}
use hypersync.Failover.Core.{Core, record_forwarded, settle_standbys}
use hypersync.Failover.Switch.{
  take_chain, replay, clear_leads, become_active, switch_with, switch_to,
}
use hypersync.Failover.Switch.Taken.{Linked, frames_of, last_round, AllHeld}
use hypersync.Failover.Switch.Chain.{Switched, switch_to-Switched}
use hypersync.Failover.Session.Kept.{Fits, IsKept, AllKept, settle_all-AllKept, take_ahead-IsKept}

module _ (classify : List ℕ → Option (ℕ × ℕ × ℕ)) where
  -- The rounds of the live blocks among some frames.
  abbrev round_of : Option (ℕ × ℕ × ℕ) → List ℕ → List ℕ
  round_of none rest = rest
  round_of (some (round, _, _)) rest = round ∷ rest

  abbrev pub block_rounds : List (List ℕ) → List ℕ
  block_rounds [] = []
  block_rounds (bytes ∷ frames) = round_of (classify bytes) (block_rounds frames)

  take_chain-IsKept :
      (fuel cur : ℕ) (u : Upstream) → IsKept classify u → IsKept classify (take_chain fuel cur u).1
  unfolding take_chain
  take_chain-IsKept zero cur u h = h
  take_chain-IsKept (suc fuel) cur u h =
      go (range_from (saturating_add cur 1) u.ahead) (take_chain-IsKept fuel)
    where
      taken :
          (r : ℕ) (o : Option (Ahead × Upstream))
          → IsKept classify (upstream_of u o)
          → ((cur' : ℕ) (v : Upstream)
              → IsKept classify v
              → IsKept classify (take_chain fuel cur' v).1)
          → (let x : List (ℕ × Ahead) × Upstream = elim o [
            | none ↦ ([], u)
            | some (b, v) ↦ let (chain, w) = take_chain fuel r v in ((r, b) ∷ chain, w)
          ] in
              IsKept classify x.1)
      taken r none k ih = h
      taken r (some (b, v)) k ih = ih r v k

      go :
          (m : List (ℕ × Ahead))
          → ((cur' : ℕ) (v : Upstream)
              → IsKept classify v
              → IsKept classify (take_chain fuel cur' v).1)
          → (let x : List (ℕ × Ahead) × Upstream = elim m [
            | [] ↦ ([], u)
            | (r, a) ∷ _ ↦ elim (a.parent == cur) [
              | false ↦ ([], u)
              | true ↦ elim (take_ahead r u) [
                | none ↦ ([], u)
                | some (b, v) ↦ let (chain, w) = take_chain fuel r v in ((r, b) ∷ chain, w)
              ]
            ]
          ] in
              IsKept classify x.1)
      go [] ih = h
      go ((r, a) ∷ rest) ih = elim (Bool-cases (a.parent == cur)) [
        | inr other ↦ rw other h
        | inl child ↦ rw child (taken r (take_ahead r u) (take_ahead-IsKept classify r u h) ih)
      ]

  replay-AllKept :
      (chain : List (ℕ × Ahead)) (c : Core)
      → AllKept classify c.ups
      → AllKept classify (replay chain c).0.ups
  unfolding replay record_forwarded settle_standbys
  replay-AllKept [] c h = h
  replay-AllKept ((r, a) ∷ chain) c h =
      replay-AllKept chain (settle_standbys r a.hash a.at (record_forwarded r a.hash a.at c)).0
        (settle_all-AllKept classify c.active r r a.hash a.at c.ups h)

  clear_leads-AllKept :
      (m : List (ℕ × Upstream)) → AllKept classify m → AllKept classify (clear_leads m)
  unfolding clear_leads
  clear_leads-AllKept [] h = tt
  clear_leads-AllKept ((id, u) ∷ m) h = (
    record {
      bounded = record {
        held = record {
          ascending = h.0.bounded.held.ascending;
          counted = h.0.bounded.held.counted;
        };
        few = h.0.bounded.few;
        small = h.0.bounded.small;
      };
      fitting = h.0.fitting;
    },
    clear_leads-AllKept m h.1,
  )

  become_active-AllKept :
      (id now : ℕ) (chain : List (ℕ × Ahead)) (u : Upstream) (c : Core)
      → IsKept classify u
      → AllKept classify c.ups
      → AllKept classify (become_active id now chain u c).0.ups
  unfolding become_active
  become_active-AllKept id now chain u c k h =
      let d : Core = record c { ups = put id u c.ups; active = id; last_switch = some now } in
      clear_leads-AllKept (replay chain d).0.ups
        (replay-AllKept chain d (AllEntries-put (λ id u. IsKept classify u) id u c.ups k h))

  switch_with-AllKept :
      (id now : ℕ) (u : Upstream) (c : Core)
      → IsKept classify u
      → AllKept classify c.ups
      → AllKept classify (switch_with id now u c).0.ups
  unfolding switch_with
  switch_with-AllKept id now u c k h = elim (Bool-cases (can_continue u c.last_forwarded)) [
    | inr hole ↦ rw hole h
    | inl whole ↦ rw whole (go (take_chain (length u.ahead) c.last_forwarded u).0)
  ]
    where
      left : IsKept classify (take_chain (length u.ahead) c.last_forwarded u).1
      left = take_chain-IsKept (length u.ahead) c.last_forwarded u k

      go :
          (chain : List (ℕ × Ahead))
          → (let v : Upstream = (take_chain (length u.ahead) c.last_forwarded u).1 in
              let x : Core × Option (List (List ℕ) × List (ℕ × ℕ)) = elim chain [
                | [] ↦ (record c { ups = put id v c.ups }, none)
                | e ∷ es ↦ let (d, sent) = become_active id now (e ∷ es) v c in (d, some sent)
              ] in
              AllKept classify x.0.ups)
      go [] = AllEntries-put (λ id u. IsKept classify u) id _ c.ups left h
      go (e ∷ es) = become_active-AllKept id now (e ∷ es) _ c left h

  pub switch_to-AllKept :
      (id now : ℕ) (c : Core) → AllKept classify c.ups → AllKept classify (switch_to id now c).0.ups
  unfolding switch_to
  switch_to-AllKept id now c h = go (lookup id c.ups) refl
    where
      go :
          (o : Option Upstream)
          → lookup id c.ups ≡ o
          → (let x : Core × Option (List (List ℕ) × List (ℕ × ℕ)) = elim o [
            | none ↦ (c, none)
            | some u ↦ switch_with id now u c
          ] in
              AllKept classify x.0.ups)
      go none e = h
      go (some u) e =
          switch_with-AllKept id now u c
            (lookup-AllEntries (λ id u. IsKept classify u) id u c.ups h e) h

  AllBelow-Fits : (m : List (ℕ × Ahead)) → AllEntries (Fits classify) m → AllBelow u32_max m
  AllBelow-Fits [] h = tt
  AllBelow-Fits ((r, a) ∷ m) h = (h.0.1, AllBelow-Fits m h.1)

  frames_of-Climbs :
      (u : Upstream) (chain : List (ℕ × Ahead)) (cur : ℕ)
      → IsKept classify u
      → cur < u32_max
      → Linked cur chain
      → AllHeld u chain
      → Climbs cur (block_rounds (frames_of chain)) (last_round cur chain)
        × (last_round cur chain < u32_max)
  frames_of-Climbs u [] cur k small l held = (omega arith, small)
  frames_of-Climbs u ((r, a) ∷ chain) cur k small l held =
      let fits = lookup-AllEntries (Fits classify) r a u.ahead k.fitting held.0 in
      let (climbs, top) = frames_of-Climbs u chain r k fits.1 l.2 held.1 in
      rw fits.0 ((l.1, climbs), top)

  -- What a switch says of the node's tip and of the frames it sends, if any.
  abbrev pub Sends : Core → Core × Option (List (List ℕ) × List (ℕ × ℕ)) → Type 0
  Sends c (d, none) = d.last_forwarded ≡ c.last_forwarded
  Sends c (d, some (frames, bads)) =
      Climbs c.last_forwarded (block_rounds frames) d.last_forwarded × (d.last_forwarded < u32_max)

  Switched-Sends :
      (id : ℕ) (u : Upstream) (c : Core) (x : Core × Option (List (List ℕ) × List (ℕ × ℕ)))
      → IsKept classify u
      → c.last_forwarded < u32_max
      → Switched id u c x
      → Sends c x
  Switched-Sends id u c (d, none) k small e = rw e refl
  Switched-Sends id u c (d, some (frames, bads)) k small (chain, ne, l, held, f, t, a) =
      let (climbs, top) = frames_of-Climbs u chain c.last_forwarded k small l held in
      rw (f, t) (climbs, top)

  pub switch_to-Sends :
      (id now : ℕ) (c : Core)
      → AllKept classify c.ups
      → c.last_forwarded < u32_max
      → Sends c (switch_to id now c)
  unfolding switch_to
  switch_to-Sends id now c h small = go (lookup id c.ups) refl
    where
      go : (o : Option Upstream) → lookup id c.ups ≡ o → Sends c (switch_to id now c)
      go none e = rw (e, switch_to) refl
      go (some u) e =
          let k = lookup-AllEntries (λ id u. IsKept classify u) id u c.ups h e in
          Switched-Sends id u c (switch_to id now c) k small (
            switch_to-Switched id now u c e
              (record {
                ascending = k.bounded.held.ascending;
                in_range = AllBelow-Fits u.ahead k.fitting;
              })
              small)
