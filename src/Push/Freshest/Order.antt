-- ===== src/Push/Freshest/Order.antt =====
-- The second highest of a list of rounds (src/push/live.rs, get_within).
use Prim.Native.String.{String}
use hypersync.Prelude.{
  ℕ, suc, ◌≤◌, ◌≡◌, refl, inl, inr, Option, none, some, List, [], ◌∷◌, leb, if◌then◌else◌,
  get_elem?, Bool-cases, arith,
}
use hypersync.Push.Freshest.{insert_down, sort_down}

abbrev AllAtMost : ℕ → List ℕ → Type 0
AllAtMost b [] = Unit
AllAtMost b (x ∷ xs) = (x ≤ b) × AllAtMost b xs

abbrev IsDown : List ℕ → Type 0
IsDown [] = Unit
IsDown (x ∷ xs) = AllAtMost x xs × IsDown xs

-- How many of the rounds reach `f`.
abbrev pub reaching : ℕ → List ℕ → ℕ
reaching f [] = 0
reaching f (x ∷ xs) = let n = reaching f xs in if leb f x then suc n else n

AllAtMost-trans : (a b : ℕ) (xs : List ℕ) → a ≤ b → AllAtMost a xs → AllAtMost b xs
AllAtMost-trans a b [] h l = tt
AllAtMost-trans a b (x ∷ xs) h l = (omega arith, AllAtMost-trans a b xs h l.1)

AllAtMost-insert_down :
    (b x : ℕ) (xs : List ℕ) → x ≤ b → AllAtMost b xs → AllAtMost b (insert_down x xs)
unfolding insert_down
AllAtMost-insert_down b x [] h l = (h, tt)
AllAtMost-insert_down b x (y ∷ ys) h l = elim (Bool-cases (leb y x)) [
  | inl above ↦ rw above (h, l)
  | inr below ↦ rw below (l.0, AllAtMost-insert_down b x ys h l.1)
]

IsDown-insert_down : (x : ℕ) (xs : List ℕ) → IsDown xs → IsDown (insert_down x xs)
unfolding insert_down
IsDown-insert_down x [] d = (tt, tt)
IsDown-insert_down x (y ∷ ys) d = elim (Bool-cases (leb y x)) [
  | inl above ↦ rw above ((ground arith, AllAtMost-trans y x ys (ground arith) d.0), d)
  | inr below ↦
      rw below (AllAtMost-insert_down y x ys (ground arith) d.0, IsDown-insert_down x ys d.1)
]

IsDown-sort_down : (m : List (String × ℕ)) → IsDown (sort_down m)
unfolding sort_down
IsDown-sort_down [] = tt
IsDown-sort_down ((q, r) ∷ m) = IsDown-insert_down r (sort_down m) (IsDown-sort_down m)

reaching-insert_down : (f x : ℕ) (xs : List ℕ) → reaching f (insert_down x xs) ≡ reaching f (x ∷ xs)
unfolding insert_down
reaching-insert_down f x [] = refl
reaching-insert_down f x (y ∷ ys) = ground (arith, reaching-insert_down f x ys)

-- How many of the peers reach `f`.
abbrev pub peers_reaching : ℕ → List (String × ℕ) → ℕ
peers_reaching f [] = 0
peers_reaching f ((q, r) ∷ m) = let n = peers_reaching f m in if leb f r then suc n else n

reaching-sort_down : (f : ℕ) (m : List (String × ℕ)) → reaching f (sort_down m) ≡ peers_reaching f m
unfolding sort_down
reaching-sort_down f [] = refl
reaching-sort_down f ((q, r) ∷ m) =
    ground (arith, reaching-insert_down f r (sort_down m), reaching-sort_down f m)

second_reached : (f : ℕ) (xs : List ℕ) → IsDown xs → get_elem? xs 1 ≡ some f → 2 ≤ reaching f xs
second_reached f [] d e = absurd (none≢some e)
  where
    none≢some : ◌≡◌ {A = Option ℕ} none (some f) → ⊥
    none≢some = λ e. cc
second_reached f (x ∷ []) d e = absurd (none≢some e)
  where
    none≢some : ◌≡◌ {A = Option ℕ} none (some f) → ⊥
    none≢some = λ e. cc
second_reached f (x ∷ y ∷ ys) d e = ground arith

-- At least two peers reach the second highest of their rounds.
pub second-peers_reaching :
    (f : ℕ) (m : List (String × ℕ)) → get_elem? (sort_down m) 1 ≡ some f → 2 ≤ peers_reaching f m
second-peers_reaching f m e =
    omega (arith, reaching-sort_down f m, second_reached f (sort_down m) (IsDown-sort_down m) e)
