-- ===== src/Failover/Switch/Pick.antt =====
-- What pick_switch chooses, and that the switch to it succeeds (src/failover/core.rs).
use hypersync.Prelude.{
  ℕ, suc, ◌+◌, ◌-◌, ◌≤◌, ◌≡◌, ◌≢◌, refl, inl, inr, Bool, true, false, Option, none, some, List, [],
  ◌∷◌, length, ◌==◌, saturating_add, Bool-cases,
}
use hypersync.Maps.{lookup, range_from, remove}
use hypersync.Maps.Laws.{IsMap, IsAscending, range_from-head}
use hypersync.Failover.Upstream.{Ahead, Upstream, min_verified, can_continue, chain_walk, chain_len}
use hypersync.Failover.Core.{Core, SwitchReason}
use hypersync.Failover.Core.Bounds.{AllBounded, lookup-AllBounded}
use hypersync.Failover.Switch.{pick_switch, take_chain, switch_with, switch_to}
use hypersync.Failover.Switch.Taken.{take_ahead-eq}
use hypersync.Failover.Switch.Ranked.{pick_switch-IsPickable}

-- If the standby has a chain for the node, its length says so, and so does the take.
walk_first :
    (cur : ℕ) (t : ℕ) (m : List (ℕ × Ahead))
    → (chain_walk cur 0 none m).1 ≡ some t
    → (r : ℕ) × (a : Ahead) × (rest : List (ℕ × Ahead)) × (m ≡ (r, a) ∷ rest)
      × ((a.parent == cur) ≡ true)
unfolding chain_walk
walk_first cur t [] e = absurd (none≢some e)
  where
    none≢some : ◌≡◌ {A = Option ℕ} none (some t) → ⊥
    none≢some = λ e. cc
walk_first cur t ((r, a) ∷ rest) e = (r, a, rest, refl, go (a.parent == cur) refl e)
  where
    go :
        (child : Bool)
        → (a.parent == cur) ≡ child
        → (let x : ℕ × Option ℕ = elim child [
          | false ↦ (0, none)
          | true ↦ chain_walk r (0 + 1) (some a.at) rest
        ] in
            x.1)
          ≡ some t
        → (a.parent == cur) ≡ true
    go true e' f = e'
    go false e' f = absurd (none≢some f)
      where
        none≢some : ◌≡◌ {A = Option ℕ} none (some t) → ⊥
        none≢some = λ e. cc

chain_len-first :
    (u : Upstream) (from t : ℕ)
    → (chain_len u from).1 ≡ some t
    → (can_continue u from ≡ true)
      × ((r : ℕ) × (a : Ahead) × (rest : List (ℕ × Ahead)) × (range_from
              (saturating_add from 1)
              u.ahead
            ≡ (r, a) ∷ rest)
          × ((a.parent == from) ≡ true))
unfolding chain_len
chain_len-first u from t e = elim (Bool-cases (can_continue u from)) [
  | inr hole ↦ absurd (none≢some (rw (hole, chain_len) at e))
  | inl whole ↦ (
    whole,
    walk_first from t (range_from (saturating_add from 1) u.ahead) (rw (whole, chain_len) at e),
  )
]
  where
    none≢some : ◌≡◌ {A = Option ℕ} none (some t) → ⊥
    none≢some = λ e. cc

length-pos :
    (m : List (ℕ × Ahead)) (r : ℕ) (a : Ahead) → lookup r m ≡ some a → (n : ℕ) × (length m ≡ suc n)
unfolding lookup
length-pos [] r a e = absurd (none≢some e)
  where
    none≢some : ◌≡◌ {A = Option Ahead} none (some a) → ⊥
    none≢some = λ e. cc
length-pos (x ∷ m) r a e = (length m, refl)

-- The switch goes through.
abbrev pub Sends : Core × Option (List (List ℕ) × List (ℕ × ℕ)) → Type 0
Sends (d, none) = ⊥
Sends (d, some sent) = Unit

take_chain_first :
    (fuel from r : ℕ) (a : Ahead) (rest : List (ℕ × Ahead)) (u : Upstream)
    → range_from (saturating_add from 1) u.ahead ≡ (r, a) ∷ rest
    → (a.parent == from) ≡ true
    → lookup r u.ahead ≡ some a
    → (x : ℕ × Ahead) × (xs : List (ℕ × Ahead)) × ((take_chain (suc fuel) from u).0 ≡ x ∷ xs)
unfolding take_chain
take_chain_first fuel from r a rest u e child found = (
  (r, a),
  (take_chain fuel r
      (record u { ahead = remove r u.ahead; ahead_bytes = u.ahead_bytes - length a.frame })).0,
  rw (e, take_chain, child, take_ahead-eq r a u found) refl,
)

switch_with-Sends :
    (id now : ℕ) (u : Upstream) (c : Core)
    → IsAscending u.ahead
    → (t : ℕ) → (chain_len u c.last_forwarded).1 ≡ some t
    → Sends (switch_with id now u c)
unfolding switch_with
switch_with-Sends id now u c asc t e =
    let (whole, (r, a, rest, range, child)) = chain_len-first u c.last_forwarded t e in
    let (above, found) =
      range_from-head (saturating_add c.last_forwarded 1) r a u.ahead rest asc range in
    let (n, size) = length-pos u.ahead r a found in
    let (x, xs, taken) = take_chain_first n c.last_forwarded r a rest u range child found in
    rw (whole, size, switch_with) (rw taken tt)

-- What pick_switch chooses is a verified standby, not the active upstream, and the switch to it
-- goes through: it has a gap-free chain for the node.
pub pick_switch-switch_to :
    (c : Core) (now : ℕ) (dead : Bool) (id : ℕ) (why : SwitchReason)
    → IsMap c.ups
    → AllBounded c.ups
    → pick_switch c now dead ≡ some (id, why)
    → (id ≢ c.active)
      × ((u : Upstream) × (lookup id c.ups ≡ some u) × (min_verified ≤ u.verified))
      × Sends (switch_to id now c)
unfolding switch_to
pick_switch-switch_to c now dead id why maps bounded e =
    let (u, found, fit) = pick_switch-IsPickable c now dead id why maps e in
    (
      fit.standby,
      (u, found, fit.verified),
      rw (found, switch_to)
          (switch_with-Sends id now u c (lookup-AllBounded id u c.ups bounded found).held.ascending
            fit.continues.0 fit.continues.1),
    )
