-- ===== src/Failover/Session/Climbs.antt =====
-- Which rounds a failover session sends the node (src/failover/session.rs, serve_failover).
use hypersync.Prelude.{
  Climbs, Climbs-le, ℕ, zero, suc, ◌<◌, ◌≡◌, refl, ap, inl, inr, Option, List, [], ◌∷◌, ◌++◌,
  u32_max, Option-cases, arith,
}
use hypersync.Maps.{lookup}
use hypersync.Maps.Entries.{AllEntries-remove}
use hypersync.Failover.Core
use hypersync.Failover.Core.{
  Core, StandbyVerdict, ok, mismatch, on_active_block, on_standby_block, touch, record_forwarded,
  settle_standbys,
}
use hypersync.Failover.Session.{
  Session, Outcome, stay, queue_frames, send_frames, drop_upstream, drop_known, drop_bads,
}
use hypersync.Failover.Session.Kept.{IsKept, AllKept}
use hypersync.Failover.Session.Replayed.{block_rounds}

module _ (classify : List ℕ → Option (ℕ × ℕ × ℕ)) where
  -- The core's upstreams are kept and its tip is below `u32::MAX`.
  pub record IsSound (c : Core) : Type 0 where
    pub kept : AllKept classify c.ups
    pub small : c.last_forwarded < u32_max

  -- An outcome of a state whose tip was `low`.
  pub record IsFine (low : ℕ) (o : Outcome) : Type 0 where
    pub sound : IsSound o.session.core
    pub climbs : Climbs low (block_rounds classify o.sent) o.session.core.last_forwarded

  pub block_rounds-append :
      (a b : List (List ℕ))
      → block_rounds classify (a ++ b) ≡ block_rounds classify a ++ block_rounds classify b
  block_rounds-append [] b = refl
  block_rounds-append (bytes ∷ a) b =
      let rest = block_rounds-append a b in
      elim (Option-cases (classify bytes)) [
        | inl other ↦ rw other rest
        | inr ((round, parent, hash), e) ↦ rw e (ap (λ t. round ∷ t) rest)
      ]

  pub queue_frames-Climbs :
      (room low high : ℕ) (frames : List (List ℕ))
      → Climbs low (block_rounds classify frames) high
      → Climbs low (block_rounds classify (queue_frames room frames).0) high
  unfolding queue_frames
  queue_frames-Climbs room low high [] h = h
  queue_frames-Climbs zero low high (bytes ∷ frames) h = Climbs-le low high _ h
  queue_frames-Climbs (suc room) low high (bytes ∷ frames) h =
      elim (Option-cases (classify bytes)) [
        | inl other ↦ rw other (queue_frames-Climbs room low high frames (rw other at h))
        | inr ((round, parent, hash), e) ↦
            let h' : (low < round) × Climbs round (block_rounds classify frames) high = rw e at h in
            rw e (h'.0, queue_frames-Climbs room round high frames h'.1)
      ]

  pub send_frames-IsFine :
      (room low : ℕ) (frames : List (List ℕ)) (s : Session)
      → IsSound s.core
      → Climbs low (block_rounds classify frames) s.core.last_forwarded
      → IsFine low (send_frames room frames s)
  unfolding send_frames
  send_frames-IsFine room low frames s sound h = record {
    sound = sound;
    climbs = queue_frames-Climbs room low s.core.last_forwarded frames h;
  }

  -- A sound state whose tip is `n`.
  abbrev pub At : ℕ → Session → Type 0
  At n s = IsSound s.core × (s.core.last_forwarded ≡ n)

  pub stay-IsFine : (n : ℕ) (s : Session) → At n s → IsFine n (stay s)
  stay-IsFine n s (sound, tip) = record { sound = sound; climbs = omega arith }

  pub remove-IsSound : (id : ℕ) (c : Core) → IsSound c → IsSound (Core.remove id c).0
  unfolding Core.remove
  remove-IsSound id c h = record {
    kept = AllEntries-remove (λ id u. IsKept classify u) id c.ups h.kept;
    small = h.small;
  }

  pub drop_upstream-At : (n id until : ℕ) (s : Session) → At n s → At n (drop_upstream id until s)
  unfolding drop_upstream Core.remove
  drop_upstream-At n id until s (sound, tip) = (remove-IsSound id s.core sound, tip)

  pub drop_bads-At :
      (n until : ℕ) (bads : List (ℕ × ℕ)) (s : Session) → At n s → At n (drop_bads bads until s)
  unfolding drop_bads
  drop_bads-At n until [] s h = h
  drop_bads-At n until ((id, r) ∷ bads) s h =
      drop_bads-At n until bads (drop_upstream id until s) (drop_upstream-At n id until s h)

  pub drop_known-At : (n id until : ℕ) (s : Session) → At n s → At n (drop_known id until s)
  unfolding drop_known
  drop_known-At n id until s h = elim (Option-cases (lookup id s.core.ups)) [
    | inl absent ↦ rw (absent, drop_known) h
    | inr found ↦ rw (found.1, drop_known) (drop_upstream-At n id until s h)
  ]

  pub touch-tip : (id at : ℕ) (c : Core) → (touch id at c).last_forwarded ≡ c.last_forwarded
  unfolding touch
  touch-tip id at c = elim (Option-cases (lookup id c.ups)) [
    | inl absent ↦ rw (absent, touch) refl
    | inr found ↦ rw (found.1, touch) refl
  ]
