-- ===== src/Gateway/Catchup/Still.antt =====
-- When a catch-up counts as standing still (src/gateway/node.rs, client_blocks_stalled).
use hypersync.Prelude.{
  ℕ, ◌+◌, ◌-◌, ◌≤◌, ◌<◌, ◌≡◌, refl, sym, subst, inl, inr, true, Option, none, some, List, [], ◌∷◌,
  ltb, max, min, Bool-cases, arith,
}
use hypersync.Gateway.Catchup.{
  Sample, ClientBlockRun, in_window, distances, widths, lowest, highest, is_still,
  client_blocks_stalled, catchup_progress_rounds, cons_some,
}

-- A sample is among those of a run.
pub data Among (s : Sample) : List Sample → Type 0 where
  first : (rest : List Sample) → Among s (s ∷ rest)
  later : (t : Sample) (rest : List Sample) → Among s rest → Among s (t ∷ rest)

data Holds (b : ℕ) : List ℕ → Type 0 where
  head : (rest : List ℕ) → Holds b (b ∷ rest)
  tail : (c : ℕ) (rest : List ℕ) → Holds b rest → Holds b (c ∷ rest)

Among-in_window :
    (from : ℕ) (s : Sample) (samples : List Sample)
    → from < s.at
    → Among s samples
    → Among s (in_window from samples)
unfolding in_window
Among-in_window from s _ lt (first rest) =
    let e : ltb from s.at ≡ true = ground arith in rw e (first (in_window from rest))
Among-in_window from s _ lt (later t rest a) = elim (Bool-cases (ltb from t.at)) [
  | inl kept ↦ rw kept (later t (in_window from rest) (Among-in_window from s rest lt a))
  | inr gone ↦ rw gone (Among-in_window from s rest lt a)
]

cons_some-some :
    (x : Option ℕ) (y : Option (List ℕ)) (d : List ℕ)
    → cons_some x y ≡ some d
    → (b : ℕ) × (e : List ℕ) × (x ≡ some b) × (y ≡ some e) × (d ≡ b ∷ e)
cons_some-some none y d h = absurd (none≢some d h)
  where
    none≢some : (d : List ℕ) → ◌≡◌ {A = Option (List ℕ)} none (some d) → ⊥
    none≢some d = λ e. cc
cons_some-some (some b) none d h = absurd (none≢some d h)
  where
    none≢some : (d : List ℕ) → ◌≡◌ {A = Option (List ℕ)} none (some d) → ⊥
    none≢some d = λ e. cc
cons_some-some (some b) (some e) d h = (b, e, refl, refl, cc)

Among-distances :
    (s : Sample) (samples : List Sample) (d : List ℕ)
    → distances samples ≡ some d
    → Among s samples
    → (b : ℕ) × (s.behind ≡ some b) × Holds b d
unfolding distances
Among-distances s _ d h (first rest) =
    let (b, e, x, y, z) = cons_some-some s.behind (distances rest) d h in
    (b, x, subst (Holds b) (sym z) (head e))
Among-distances s _ d h (later t rest a) =
    let (b, e, x, y, z) = cons_some-some t.behind (distances rest) d h in
    let (c, k, m) = Among-distances s rest e y a in (c, k, subst (Holds c) (sym z) (tail b e m))

lowest-le : (x : ℕ) (d : List ℕ) → lowest x d ≤ x
unfolding lowest
lowest-le x [] = omega arith
lowest-le x (y ∷ d) = let h = lowest-le (min x y) d in omega arith

le-highest : (x : ℕ) (d : List ℕ) → x ≤ highest x d
unfolding highest
le-highest x [] = omega arith
le-highest x (y ∷ d) = let h = le-highest (max x y) d in omega arith

Holds-between : (b x : ℕ) (d : List ℕ) → Holds b d → (lowest x d ≤ b) × (b ≤ highest x d)
unfolding lowest highest
Holds-between b x _ (head rest) =
    let h = lowest-le (min x b) rest in
    let k = le-highest (max x b) rest in (omega arith, omega arith)
Holds-between b x _ (tail c rest m) =
    ((Holds-between b (min x c) rest m).0, (Holds-between b (max x c) rest m).1)

abbrev Near : ℕ → ℕ → Type 0
Near a b = (a < b + catchup_progress_rounds) × (b < a + catchup_progress_rounds)

is_still-Near :
    (d ws : List ℕ) → is_still (some d) ws ≡ true → (a b : ℕ) → Holds a d → Holds b d → Near a b
unfolding is_still
is_still-Near [] ws h a b p q = elim p [ ]
is_still-Near (x ∷ d) ws h a b p q =
    let (la, ha) = bound a p in
    let (lb, hb) = bound b q in
    let gap : highest x d - lowest x d < catchup_progress_rounds = ground arith in
    (omega arith, omega arith)
  where
    bound : (c : ℕ) → Holds c (x ∷ d) → (lowest x d ≤ c) × (c ≤ highest x d)
    bound c (head _) = (lowest-le x d, le-highest x d)
    bound c (tail _ _ m) = Holds-between c x d m

still-distances :
    (o : Option (List ℕ)) (ws : List ℕ)
    → is_still o ws ≡ true
    → (d : List ℕ) × (o ≡ some d) × (is_still (some d) ws ≡ true)
unfolding is_still
still-distances none ws h = absurd (ground arith)
still-distances (some d) ws h = (d, refl, h)

-- What a verdict of `client_blocks_stalled` says of the run.
stalled_parts :
    (now quiet window : ℕ) (r : ClientBlockRun) (b : Option ℕ)
    → client_blocks_stalled now quiet window (some r) ≡ some (true, b)
    → (now - r.last < quiet)
      × (r.since + window ≤ now)
      × (is_still
            (distances (in_window (now - window) r.samples))
            (widths (in_window (now - window) r.samples))
          ≡ true)
unfolding client_blocks_stalled
stalled_parts now quiet window r b h = ground arith

-- A catch-up is reported as still only if its run is alive and at least a window old, and
-- any two batches in the window had known distances behind within 150 rounds of each other.
pub client_blocks_stalled-Near :
    (now quiet window : ℕ) (r : ClientBlockRun) (b : Option ℕ) (s t : Sample)
    → client_blocks_stalled now quiet window (some r) ≡ some (true, b)
    → Among s r.samples
    → Among t r.samples
    → now - window < s.at
    → now - window < t.at
    → (now - r.last < quiet)
      × (r.since + window ≤ now)
      × (c : ℕ) × (d : ℕ) × (s.behind ≡ some c)
      × (t.behind ≡ some d)
      × (c < d + catchup_progress_rounds)
      × (d < c + catchup_progress_rounds)
client_blocks_stalled-Near now quiet window r b s t h a a' lt lt' =
    let seen : List Sample = in_window (now - window) r.samples in
    let (recent, old, still) = stalled_parts now quiet window r b h in
    let (ds, e, still') = still-distances (distances seen) (widths seen) still in
    let (c, x, m) = Among-distances s seen ds e (Among-in_window (now - window) s r.samples lt a) in
    let (d, y, n) =
      Among-distances t seen ds e (Among-in_window (now - window) t r.samples lt' a') in
    let (low, high) = is_still-Near ds (widths seen) still' c d m n in
    (recent, old, c, d, x, y, low, high)
