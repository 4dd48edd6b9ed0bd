-- ===== src/Failover/Upstream/Held.antt =====
-- The blocks that a standby holds ahead of the node (src/failover/core.rs): bounds and accounting.
use hypersync.Prelude.{
  ℕ, zero, suc, ◌+◌, ◌-◌, ◌≤◌, ◌<◌, ◌≡◌, refl, inl, inr, false, Option, none, some, List, [], ◌∷◌,
  ◌++◌, ap, subst, max, length-append, length, leb, Bool-cases, arith,
}
use native.Mathlib.Nat.{le_refl}
use hypersync.Maps.{lookup, remove, insert, pop_last}
use hypersync.Maps.Laws.{
  IsAscending, AllAbove, AllAbove-trans, AllAbove-insert, AllAbove-init, IsAscending-insert,
  lookup-AllAbove, IsAscending-remove, Popped, pop_last-Popped, IsAscending-init,
}
use hypersync.Failover.Upstream.{
  Ahead, Upstream, ahead_keep, ahead_max_bytes, over_limits, trim_highest, replaced_bytes,
  insert_ahead, take_ahead, trim_low, trim_ahead,
}

-- The bytes of all the blocks held.
abbrev pub frame_bytes : List (ℕ × Ahead) → ℕ
frame_bytes [] = 0
frame_bytes ((r, a) ∷ m) = length a.frame + frame_bytes m

frame_bytes-insert :
    (r : ℕ) (a : Ahead) (m : List (ℕ × Ahead))
    → IsAscending m
    → frame_bytes (insert r a m) + replaced_bytes r m ≡ frame_bytes m + length a.frame
unfolding insert replaced_bytes lookup
frame_bytes-insert r a [] h = omega arith
frame_bytes-insert r a ((j, w) ∷ m) h =
    ground (arith, lookup-AllAbove r j m, frame_bytes-insert r a m h.1)

-- What the blocks held satisfy between two operations.
pub record IsHeld (u : Upstream) : Type 0 where
  pub ascending : IsAscending u.ahead
  pub counted : u.ahead_bytes ≡ frame_bytes u.ahead

-- And what bounds them.
pub record IsBounded (u : Upstream) : Type 0 where
  pub held : IsHeld u
  pub few : length u.ahead ≤ ahead_keep
  pub small : frame_bytes u.ahead ≤ ahead_max_bytes

frame_bytes-append :
    (m : List (ℕ × Ahead)) (r : ℕ) (a : Ahead)
    → frame_bytes (m ++ (r, a) ∷ []) ≡ frame_bytes m + length a.frame
frame_bytes-append [] r a = omega arith
frame_bytes-append ((j, w) ∷ m) r a = omega (arith, frame_bytes-append m r a)

length_zero : (m : List (ℕ × Ahead)) → length m ≤ 0 → m ≡ []
length_zero [] h = refl
length_zero (e ∷ m) h = absurd (omega arith)

within_IsBounded : (u : Upstream) → IsHeld u → over_limits u ≡ false → IsBounded u
unfolding over_limits
within_IsBounded u held w =
    let c : u.ahead_bytes ≡ frame_bytes u.ahead = held.counted in
    record { held = held; few = ground arith; small = ground arith }

empty_IsBounded : (u : Upstream) → u.ahead ≡ [] → IsHeld u → IsBounded u
empty_IsBounded u e held = record {
  held = held;
  few = omega (arith, ap length e);
  small = omega (arith, ap frame_bytes e);
}

trim_highest-IsBounded :
    (fuel : ℕ) (u : Upstream) → length u.ahead ≤ fuel → IsHeld u → IsBounded (trim_highest fuel u)
unfolding trim_highest
trim_highest-IsBounded zero u h held = empty_IsBounded u (length_zero u.ahead h) held
trim_highest-IsBounded (suc fuel) u h held = elim (Bool-cases (over_limits u)) [
  | inl over ↦
      rw (over, trim_highest)
        (go (pop_last u.ahead) (pop_last-Popped u.ahead) (trim_highest-IsBounded fuel))
  | inr within ↦ rw (within, trim_highest) (within_IsBounded u held within)
]
  where
    go :
        (o : Option ((ℕ × Ahead) × List (ℕ × Ahead)))
        → Popped u.ahead o
        → ((v : Upstream) → length v.ahead ≤ fuel → IsHeld v → IsBounded (trim_highest fuel v))
        → IsBounded (elim o [
          | none ↦ u
          | some ((r, a), rest) ↦ trim_highest fuel (record u {
            ahead = rest;
            ahead_bytes = u.ahead_bytes - length a.frame;
            dropped_max = max u.dropped_max r;
          })
        ])
    go none p ih = empty_IsBounded u p held
    go (some ((r, a), rest)) p ih =
        ih _ (omega (arith, ap length p, length-append rest ((r, a) ∷ []))) (record {
          ascending = IsAscending-init rest (r, a) (subst IsAscending p held.ascending);
          counted =
              (let c : u.ahead_bytes ≡ frame_bytes u.ahead = held.counted in
                omega (arith, ap frame_bytes p, frame_bytes-append rest r a));
        })

-- However large the block that arrives, an insertion leaves at most 512 blocks and 32 MiB behind, in
-- ascending order and with their bytes counted.
pub insert_ahead-IsBounded :
    (r : ℕ) (a : Ahead) (u : Upstream) → IsHeld u → IsBounded (insert_ahead r a u)
unfolding insert_ahead
insert_ahead-IsBounded r a u held = trim_highest-IsBounded _ _ (le_refl _) (record {
  ascending = IsAscending-insert r a u.ahead held.ascending;
  counted =
      (let c : u.ahead_bytes ≡ frame_bytes u.ahead = held.counted in
        omega (arith, frame_bytes-insert r a u.ahead held.ascending));
})

frame_bytes-remove :
    (r : ℕ) (a : Ahead) (m : List (ℕ × Ahead))
    → lookup r m ≡ some a
    → frame_bytes (remove r m) + length a.frame ≡ frame_bytes m
unfolding lookup remove
frame_bytes-remove r a [] e = cc
frame_bytes-remove r a ((j, w) ∷ m) e = ground (arith, frame_bytes-remove r a m)

length-remove : (r : ℕ) (m : List (ℕ × Ahead)) → length (remove r m) ≤ length m
unfolding remove
length-remove r [] = omega arith
length-remove r ((j, w) ∷ m) = ground (arith, length-remove r m)

abbrev pub upstream_of : Upstream → Option (Ahead × Upstream) → Upstream
upstream_of u none = u
upstream_of u (some (a, v)) = v

pub take_ahead-IsBounded :
    (r : ℕ) (u : Upstream) → IsBounded u → IsBounded (upstream_of u (take_ahead r u))
unfolding take_ahead
take_ahead-IsBounded r u b = go (lookup r u.ahead) refl
  where
    go :
        (o : Option Ahead)
        → lookup r u.ahead ≡ o
        → IsBounded (
            upstream_of u (elim o [
              | none ↦ none
              | some a ↦ some (
                a,
                record u { ahead = remove r u.ahead; ahead_bytes = u.ahead_bytes - length a.frame },
              )
            ]))
    go none e = b
    go (some a) e =
        let c : u.ahead_bytes ≡ frame_bytes u.ahead = b.held.counted in
        let few : length u.ahead ≤ ahead_keep = b.few in
        let small : frame_bytes u.ahead ≤ ahead_max_bytes = b.small in
        record {
          held = record {
            ascending = IsAscending-remove r u.ahead b.held.ascending;
            counted = omega (arith, frame_bytes-remove r a u.ahead e);
          };
          few = omega (arith, length-remove r u.ahead);
          small = omega (arith, frame_bytes-remove r a u.ahead e);
        }

-- What trim_low leaves.
trim_low-IsBounded :
    (floor : ℕ) (m : List (ℕ × Ahead)) (bytes : ℕ)
    → IsAscending m
    → bytes ≡ frame_bytes m
    → IsAscending (trim_low floor m bytes).0
      × ((trim_low floor m bytes).1 ≡ frame_bytes (trim_low floor m bytes).0)
      × (length (trim_low floor m bytes).0 ≤ length m)
      × (frame_bytes (trim_low floor m bytes).0 ≤ frame_bytes m)
      × AllAbove floor (trim_low floor m bytes).0
unfolding trim_low
trim_low-IsBounded floor [] bytes asc e = (tt, e, omega arith, omega arith, tt)
trim_low-IsBounded floor ((r, a) ∷ m) bytes asc e = elim (Bool-cases (leb r floor)) [
  | inl old ↦
      let (p, q, s, t, v) =
        trim_low-IsBounded floor m (bytes - length a.frame) asc.1 (omega arith) in
      rw (old, trim_low) (p, q, omega arith, omega arith, v)
  | inr fresh ↦
      rw (fresh, trim_low)
        (
          asc,
          e,
          omega arith,
          omega arith,
          (ground arith, AllAbove-trans floor r m (ground arith) asc.0),
        )
]

-- Trimming keeps the bounds, and keeps no block at or below the floor.
pub trim_ahead-IsBounded :
    (floor : ℕ) (u : Upstream)
    → IsBounded u
    → IsBounded (trim_ahead floor u) × AllAbove floor (trim_ahead floor u).ahead
unfolding trim_ahead
trim_ahead-IsBounded floor u b =
    let (p, q, s, t, v) =
      trim_low-IsBounded floor u.ahead u.ahead_bytes b.held.ascending b.held.counted in
    let few : length u.ahead ≤ ahead_keep = b.few in
    let small : frame_bytes u.ahead ≤ ahead_max_bytes = b.small in
    (
      record {
        held = record { ascending = p; counted = q };
        few = omega arith;
        small = omega arith;
      },
      v,
    )

trim_highest-AllAbove :
    (floor fuel : ℕ) (u : Upstream)
    → AllAbove floor u.ahead
    → AllAbove floor (trim_highest fuel u).ahead
unfolding trim_highest
trim_highest-AllAbove floor zero u h = h
trim_highest-AllAbove floor (suc fuel) u h = elim (Bool-cases (over_limits u)) [
  | inl over ↦
      rw (over, trim_highest)
        (go (pop_last u.ahead) (pop_last-Popped u.ahead) (trim_highest-AllAbove floor fuel))
  | inr within ↦ rw (within, trim_highest) h
]
  where
    go :
        (o : Option ((ℕ × Ahead) × List (ℕ × Ahead)))
        → Popped u.ahead o
        → ((v : Upstream) → AllAbove floor v.ahead → AllAbove floor (trim_highest fuel v).ahead)
        → (let x : Upstream = elim o [
          | none ↦ u
          | some ((r, a), rest) ↦ trim_highest fuel (record u {
            ahead = rest;
            ahead_bytes = u.ahead_bytes - length a.frame;
            dropped_max = max u.dropped_max r;
          })
        ] in
            AllAbove floor x.ahead)
    go none p ih = h
    go (some ((r, a), rest)) p ih =
        ih _ (AllAbove-init floor rest (r, a) (subst (AllAbove floor) p h))

-- What is inserted above the floor leaves everything above it.
pub insert_ahead-AllAbove :
    (floor r : ℕ) (a : Ahead) (u : Upstream)
    → floor < r
    → AllAbove floor u.ahead
    → AllAbove floor (insert_ahead r a u).ahead
unfolding insert_ahead
insert_ahead-AllAbove floor r a u h above =
    trim_highest-AllAbove floor _ _ (AllAbove-insert floor r a u.ahead h above)
