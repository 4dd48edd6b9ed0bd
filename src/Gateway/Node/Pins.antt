-- ===== src/Gateway/Node/Pins.antt =====
-- The pin of a node over all operations on its state (src/gateway/node.rs).
use Prim.Native.String.{String}
use hypersync.Prelude.{
  ℕ, ◌≤◌, ◌<◌, ◌≡◌, refl, Bool, false, Option, none, some, List, [], ◌∷◌, ◌==◌, inl, inr,
  Bool-cases, arith,
}
use hypersync.Gateway.Prefetch.{Prefetch}
use hypersync.Gateway.Node.{
  ActivePeer, NodeState, pin_active, pin_lazy_active, pin_lazy_over, unpin_blacklisted,
  active_snapshot, active_session_snapshot, clear_active_if_current, has_active_session,
  forget_repin_attempt, claim_repin_attempt, claim_catchup_cut, same_peer, pin_generation,
  take_prefetch, expire_prefetch, install_prefetch,
}

pub data Op : Type 0 where
  pin : String → Op
  pin_lazy : String → Op
  snapshot : Op
  session_snapshot : Op
  has_session : Op
  clear : ActivePeer → Op
  forget_repin : Op
  claim_repin : ℕ → ℕ → Op
  claim_cut : ℕ → ℕ → Op
  take_range : ℕ → ℕ → ℕ → Op
  expire : ℕ → Op
  install : Prefetch → ℕ → Op

module _ (listed : String → Bool) where
  unfoldable pub step : Op → NodeState → NodeState
  step (pin ip) s = (pin_active ip s).0
  step (pin_lazy ip) s = (pin_lazy_active listed ip s).0
  step snapshot s = (active_snapshot listed s).0
  step session_snapshot s = (active_session_snapshot listed s).0
  step has_session s = (has_active_session listed s).0
  step (clear p) s = clear_active_if_current p s
  step forget_repin s = forget_repin_attempt s
  step (claim_repin now retry) s = (claim_repin_attempt now retry s).0
  step (claim_cut now retry) s = (claim_catchup_cut now retry s).0
  step (take_range start end now) s = (take_prefetch start end now s).0
  step (expire id) s = expire_prefetch id s
  step (install p generation) s = install_prefetch p generation s

  -- Newest operation first.
  abbrev pub steps : List Op → NodeState → NodeState
  steps [] s = s
  steps (o ∷ older) s = step o (steps older s)

  abbrev NewerPin : ℕ → Option ActivePeer → Type 0
  NewerPin e none = Unit
  NewerPin e (some p) = e < p.epoch

  -- No pin up to epoch `e` is there, nor will a new one get such an epoch.
  record IsPast (e : ℕ) (s : NodeState) : Type 0 where
    counted : e ≤ s.next_active_epoch
    newer : NewerPin e s.active

  unpin-NewerPin :
      (e : ℕ) (o : Option ActivePeer) → NewerPin e o → NewerPin e (unpin_blacklisted listed o)
  unfolding unpin_blacklisted
  unpin-NewerPin e none h = tt
  unpin-NewerPin e (some p) h = elim (Bool-cases (listed p.ip)) [
    | inl black ↦ rw (black, NewerPin) tt
    | inr white ↦ rw (white, NewerPin) h
  ]

  lazy-IsPast :
      (e : ℕ) (o : Option ActivePeer) (ip : String) (s : NodeState)
      → e ≤ s.next_active_epoch
      → NewerPin e o
      → IsPast e (pin_lazy_over o ip s).0
  unfolding pin_lazy_over
  lazy-IsPast e none ip s c h = record { counted = omega arith; newer = omega arith }
  lazy-IsPast e (some p) ip s c h = record { counted = c; newer = h }

  clear-IsPast :
      (e : ℕ) (p : ActivePeer) (s : NodeState) → IsPast e s → IsPast e (clear_active_if_current p s)
  unfolding clear_active_if_current
  clear-IsPast e p s h = elim (Bool-cases (same_peer s.active p)) [
    | inl same ↦ rw same (record { counted = h.counted; newer = tt })
    | inr other ↦ rw other h
  ]

  install-IsPast :
      (e : ℕ) (p : Prefetch) (generation : ℕ) (s : NodeState)
      → IsPast e s
      → IsPast e (install_prefetch p generation s)
  unfolding install_prefetch pin_generation
  install-IsPast e p generation s h = elim (Bool-cases (s.next_active_epoch == generation)) [
    | inl same ↦ rw same (record { counted = h.counted; newer = h.newer })
    | inr other ↦ rw other h
  ]

  step-IsPast : (e : ℕ) (o : Op) (s : NodeState) → IsPast e s → IsPast e (step o s)
  unfolding step pin_active pin_lazy_active active_snapshot active_session_snapshot
      has_active_session forget_repin_attempt claim_repin_attempt claim_catchup_cut take_prefetch
      expire_prefetch
  step-IsPast e (pin ip) s h =
      let c : e ≤ s.next_active_epoch = h.counted in
      record { counted = omega arith; newer = omega arith }
  step-IsPast e (pin_lazy ip) s h =
      lazy-IsPast e (unpin_blacklisted listed s.active) ip s h.counted
        (unpin-NewerPin e s.active h.newer)
  step-IsPast e snapshot s h = record {
    counted = h.counted;
    newer = unpin-NewerPin e s.active h.newer;
  }
  step-IsPast e session_snapshot s h = record {
    counted = h.counted;
    newer = unpin-NewerPin e s.active h.newer;
  }
  step-IsPast e has_session s h = record {
    counted = h.counted;
    newer = unpin-NewerPin e s.active h.newer;
  }
  step-IsPast e (clear p) s h = clear-IsPast e p s h
  step-IsPast e forget_repin s h = record { counted = h.counted; newer = h.newer }
  step-IsPast e (claim_repin now retry) s h = record { counted = h.counted; newer = h.newer }
  step-IsPast e (claim_cut now retry) s h = record { counted = h.counted; newer = h.newer }
  step-IsPast e (take_range start end now) s h = record { counted = h.counted; newer = h.newer }
  step-IsPast e (expire id) s h = record { counted = h.counted; newer = h.newer }
  step-IsPast e (install p generation) s h = install-IsPast e p generation s h

  steps-IsPast : (e : ℕ) (ops : List Op) (s : NodeState) → IsPast e s → IsPast e (steps ops s)
  steps-IsPast e [] s h = h
  steps-IsPast e (o ∷ older) s h = step-IsPast e o (steps older s) (steps-IsPast e older s h)

  not_same :
      (e : ℕ) (o : Option ActivePeer) (p : ActivePeer)
      → p.epoch ≤ e
      → NewerPin e o
      → same_peer o p ≡ false
  not_same e none p le h = refl
  not_same e (some q) p le h = ground arith

  -- The guard of a pin, dropped after a newer pin was made and after any operations since, changes
  -- nothing: it cannot clear a pin that is not its own.
  pub stale_clear_lem :
      (p : ActivePeer) (ip : String) (ops : List Op) (s : NodeState)
      → p.epoch ≤ s.next_active_epoch
      → clear_active_if_current p (steps ops (pin_active ip s).0) ≡ steps ops (pin_active ip s).0
  unfolding clear_active_if_current pin_active
  stale_clear_lem p ip ops s le =
      let past =
        steps-IsPast s.next_active_epoch ops (pin_active ip s).0
          (record { counted = omega arith; newer = omega arith }) in
      rw (not_same s.next_active_epoch (steps ops (pin_active ip s).0).active p le past.newer) refl
