-- ===== src/Push/Progress/Gates.antt =====
-- When a stream is cut (src/push/live.rs): BlockProgress and StalledBehind over a whole session.
use hypersync.Prelude.{
  ℕ, suc, ◌-◌, ◌≤◌, ◌<◌, ◌≡◌, refl, ◌∙◌, inl, inr, Bool, false, ◌&&◌, ◌||◌, Option, none, some,
  List, [], ◌∷◌, leb, ltb, ◌==◌, if◌then◌else◌, saturating_add, Bool-cases, subst, arith,
}
use hypersync.Push.Progress.{
  BlockProgress, behind_by, since_or, lagging_at, StalledBehind, mark_or, check,
}

-- What one look at a stream sees: its own round, the freshest one, whether the node holds it back.
pub record Look : Type 0 where
  pub own : ℕ
  pub freshest : Option ℕ
  pub backed_up : Bool
  pub now : ℕ

-- The stream has a round, the node does not hold it back, and it is at least `least` rounds behind.
pub record IsBehind (least : ℕ) (l : Look) : Type 0 where
  pub known : 0 < l.own
  pub draining : l.backed_up ≡ false
  pub behind : least ≤ behind_by l.freshest l.own

-- `Unbroken least looks t n`: of the looks, newest first, all back to one at time `t`, when the
-- stream was `n` rounds behind, saw it at least `least` behind.
pub data Unbroken (least : ℕ) : List Look → ℕ → ℕ → Type 0 where
  start :
      (l : Look) (older : List Look)
      → IsBehind least l
      → Unbroken least (l ∷ older) l.now (behind_by l.freshest l.own)
  still :
      (l : Look) (older : List Look) (t n : ℕ)
      → IsBehind least l
      → Unbroken least older t n
      → Unbroken least (l ∷ older) t n

module _ (lag_rounds grace : ℕ) where
  abbrev look_at : Look → BlockProgress → BlockProgress × Option ℕ
  look_at l p =
      lagging_at l.freshest lag_rounds grace l.backed_up l.now (record p { last_round = l.own })

  -- The state after a session's looks, newest first.
  abbrev pub after_looks : List Look → BlockProgress → BlockProgress
  after_looks [] p = p
  after_looks (l ∷ older) p = (look_at l (after_looks older p)).0

  -- The timer of a session is that of an unbroken run of looks.
  abbrev Timed : List Look → Option ℕ → Type 0
  Timed looks none = Unit
  Timed looks (some t) = (n : ℕ) × Unbroken (suc lag_rounds) looks t n

  sound_look :
      (l : Look)
      → (l.own == 0 || l.backed_up || leb (behind_by l.freshest l.own) lag_rounds) ≡ false
      → IsBehind (suc lag_rounds) l
  sound_look l h = record { known = ground arith; draining = ground arith; behind = ground arith }

  go_on :
      (l : Look) (older : List Look) (o : Option ℕ)
      → IsBehind (suc lag_rounds) l
      → Timed older o
      → Timed (l ∷ older) (some (since_or l.now o))
  go_on l older none b t = (behind_by l.freshest l.own, start l older b)
  go_on l older (some s) b (n, u) = (n, still l older s n b u)

  after_looks-Timed :
      (looks : List Look) (p : BlockProgress)
      → p.lag_since ≡ none
      → Timed looks (after_looks looks p).lag_since
  unfolding lagging_at
  after_looks-Timed [] p e = rw e tt
  after_looks-Timed (l ∷ older) p e =
      elim (Bool-cases (l.own == 0 || l.backed_up || leb (behind_by l.freshest l.own) lag_rounds)) [
        | inl fine ↦ rw (fine, Timed) tt
        | inr bad ↦
            rw (bad, Timed)
              (go_on l older (after_looks older p).lag_since (sound_look l bad)
                (after_looks-Timed older p e))
      ]

  -- A stream is reported as lagging, by the rounds that it is behind, only if every look at it since
  -- some time at least the grace period ago found it more than the limit behind, with the node
  -- draining its queue.
  pub lagging_at-Unbroken :
      (l : Look) (older : List Look) (p : BlockProgress) (rounds : ℕ)
      → p.lag_since ≡ none
      → (look_at l (after_looks older p)).1 ≡ some rounds
      → (t : ℕ) × (n : ℕ) × Unbroken (suc lag_rounds) (l ∷ older) t n
        × (grace ≤ l.now - t)
        × (rounds ≡ behind_by l.freshest l.own)
  unfolding lagging_at
  lagging_at-Unbroken l older p rounds e r =
      elim (Bool-cases (l.own == 0 || l.backed_up || leb (behind_by l.freshest l.own) lag_rounds)) [
        | inl fine ↦ absurd (none≢some (rw (fine, lagging_at) at r))
        | inr bad ↦
            let since : ℕ = since_or l.now (after_looks older p).lag_since in
            let (n, u) =
              go_on l older (after_looks older p).lag_since (sound_look l bad)
                (after_looks-Timed older p e) in
            let (g, s) = flagged grace since (rw (bad, lagging_at) at r) in (since, n, u, g, s)
      ]
    where
      none≢some : ◌≡◌ {A = Option ℕ} none (some rounds) → ⊥
      none≢some = λ e. cc

      flagged :
          (g since : ℕ)
          → (if leb g (l.now - since) then some (behind_by l.freshest l.own) else none)
            ≡ some rounds
          → (g ≤ l.now - since) × (rounds ≡ behind_by l.freshest l.own)
      flagged g since h = ground arith

-- The faster cut, on a timer.
module _ (limits : StalledBehind) where
  abbrev check_at : Look → StalledBehind → StalledBehind × Option ℕ
  check_at l s = check l.own l.freshest l.backed_up l.now s

  abbrev pub after_checks : List Look → StalledBehind
  after_checks [] = record limits { since = none }
  after_checks (l ∷ older) = (check_at l (after_checks older)).0

  check-limits :
      (l : Look) (s : StalledBehind)
      → ((check_at l s).0.rounds ≡ s.rounds)
        × ((check_at l s).0.grace ≡ s.grace)
        × ((check_at l s).0.widen ≡ s.widen)
  unfolding check
  check-limits l s = ground arith

  after_checks-limits :
      (looks : List Look)
      → ((after_checks looks).rounds ≡ limits.rounds)
        × ((after_checks looks).grace ≡ limits.grace)
        × ((after_checks looks).widen ≡ limits.widen)
  after_checks-limits [] = (refl, refl, refl)
  after_checks-limits (l ∷ older) =
      let (a, b, c) = check-limits l (after_checks older) in
      let (x, y, z) = after_checks-limits older in (a ∙ x, b ∙ y, c ∙ z)

  abbrev Marked : List Look → Option (ℕ × ℕ) → Type 0
  Marked looks none = Unit
  Marked looks (some (t, n)) = Unbroken limits.rounds looks t n

  sound_check :
      (l : Look)
      → (l.own == 0 || l.backed_up || ltb (behind_by l.freshest l.own) limits.rounds) ≡ false
      → IsBehind limits.rounds l
  sound_check l h = record { known = ground arith; draining = ground arith; behind = ground arith }

  mark_on :
      (l : Look) (older : List Look) (o : Option (ℕ × ℕ))
      → IsBehind limits.rounds l
      → Marked older o
      → Unbroken limits.rounds
          (l ∷ older)
          (mark_or (l.now, behind_by l.freshest l.own) o).0
          (mark_or (l.now, behind_by l.freshest l.own) o).1
  mark_on l older none b m = start l older b
  mark_on l older (some (t, n)) b m = still l older t n b m

  after_checks-Marked : (looks : List Look) → Marked looks (after_checks looks).since
  unfolding check
  after_checks-Marked [] = tt
  after_checks-Marked (l ∷ older) =
      let (x, y, z) = after_checks-limits older in
      elim (Bool-cases (
        l.own == 0
        || l.backed_up
        || ltb (behind_by l.freshest l.own) (after_checks older).rounds)) [
          | inl fine ↦ rw (fine, Marked) tt
          | inr bad ↦
              rw (bad, Marked)
                (mark_on l older (after_checks older).since (sound_check l (rw x at bad))
                  (after_checks-Marked older))
        ]

  -- A stream is reported as stalled behind only if every check since some time at least the grace
  -- period ago found it at least `rounds` behind, with the node draining its queue, and it fell by
  -- at least `widen` rounds more since then (as far as a `u32` counts).
  pub check-Unbroken :
      (l : Look) (older : List Look) (rounds : ℕ)
      → (check_at l (after_checks older)).1 ≡ some rounds
      → (t : ℕ) × (n : ℕ) × Unbroken limits.rounds (l ∷ older) t n
        × (limits.grace ≤ l.now - t)
        × (saturating_add n limits.widen ≤ rounds)
        × (rounds ≡ behind_by l.freshest l.own)
  unfolding check
  check-Unbroken l older rounds r =
      let (x, y, z) = after_checks-limits older in
      elim (Bool-cases (
        l.own == 0
        || l.backed_up
        || ltb (behind_by l.freshest l.own) (after_checks older).rounds)) [
          | inl fine ↦ absurd (none≢some (rw (fine, check) at r))
          | inr bad ↦
              let mark : ℕ × ℕ =
                mark_or (l.now, behind_by l.freshest l.own) (after_checks older).since in
              let u =
                mark_on l older (after_checks older).since (sound_check l (rw x at bad))
                  (after_checks-Marked older) in
              let (g, w, s) =
                flagged (after_checks older).grace (after_checks older).widen mark.0 mark.1
                  (rw (bad, check) at r) in
              (mark.0, mark.1, u, omega arith, subst (λ k. saturating_add mark.1 k ≤ rounds) z w, s)
        ]
    where
      none≢some : ◌≡◌ {A = Option ℕ} none (some rounds) → ⊥
      none≢some = λ e. cc

      flagged :
          (g w t n : ℕ)
          → (if leb g (l.now - t) && leb (saturating_add n w) (behind_by l.freshest l.own)
              then some (behind_by l.freshest l.own)
              else none)
            ≡ some rounds
          → (g ≤ l.now - t) × (saturating_add n w ≤ rounds) × (rounds ≡ behind_by l.freshest l.own)
      flagged g w t n h = ground arith
