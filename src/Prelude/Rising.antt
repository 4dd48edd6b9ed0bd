-- ===== src/Prelude/Rising.antt =====
-- Lists of rounds that climb.
use Prim.Native.Nat.{ℕ, ◌≤◌, ◌<◌}
use mathlib.Core.List.{List, [], ◌∷◌, ◌++◌}
use native.Mathlib.Omega.{arith}

-- The rounds ascend strictly, above `low` and up to `high`.
abbrev pub Climbs : ℕ → List ℕ → ℕ → Type 0
Climbs low [] high = low ≤ high
Climbs low (r ∷ rounds) high = (low < r) × Climbs r rounds high

Climbs-weaken :
    (low mid high : ℕ) (rounds : List ℕ)
    → low ≤ mid
    → Climbs mid rounds high
    → Climbs low rounds high
Climbs-weaken low mid high [] le h = omega arith
Climbs-weaken low mid high (r ∷ rounds) le h = (omega (arith, h.0), h.1)

pub Climbs-append :
    (low mid high : ℕ) (a b : List ℕ)
    → Climbs low a mid
    → Climbs mid b high
    → Climbs low (a ++ b) high
Climbs-append low mid high [] b h k = Climbs-weaken low mid high b h k
Climbs-append low mid high (r ∷ a) b h k = (h.0, Climbs-append r mid high a b h.1 k)

pub Climbs-le : (low high : ℕ) (rounds : List ℕ) → Climbs low rounds high → low ≤ high
Climbs-le low high [] h = h
Climbs-le low high (r ∷ rounds) h = let k = Climbs-le r high rounds h.1 in omega (arith, h.0)
