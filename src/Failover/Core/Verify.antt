-- ===== src/Failover/Core/Verify.antt =====
-- Forwarding and verification (src/failover/core.rs): on_active_block, on_standby_block and compared.
use hypersync.Prelude.{
  ℕ, ◌+◌, ◌≡◌, Bool, true, false, ◌||◌, List, [], ◌∷◌, leb, ltb, ◌==◌, if◌then◌else◌, arith,
}
use hypersync.Prelude.Int.{ℤ}
use hypersync.Failover.Upstream.{Upstream, push_lead, compared}
use hypersync.Failover.Core.{Core, record_forwarded, settle_standbys, touch, on_active_block}

-- The comparisons of a run of blocks with the active's, the oldest first.
abbrev pub compared_all : List (Bool × ℤ) → Upstream → Upstream
compared_all [] u = u
compared_all ((matched, lead) ∷ rest) u = compared_all rest (compared matched lead u).0

-- How many of the last comparisons matched, on top of `n` before them.
abbrev pub matches_since : ℕ → List (Bool × ℤ) → ℕ
matches_since n [] = n
matches_since n ((true, _) ∷ rest) = matches_since (n + 1) rest
matches_since n ((false, _) ∷ rest) = matches_since 0 rest

-- How many of the last comparisons in a row failed.
abbrev pub misses_since : ℕ → List (Bool × ℤ) → ℕ
misses_since n [] = n
misses_since n ((true, _) ∷ rest) = misses_since 0 rest
misses_since n ((false, _) ∷ rest) = misses_since (n + 1) rest

-- After any run of comparisons a standby counts as verified by the matches since its last mismatch,
-- and the next mismatch drops it exactly if it is the third in a row.
pub compared_all-counts :
    (run : List (Bool × ℤ)) (u : Upstream) (lead : ℤ)
    → ((compared_all run u).verified ≡ matches_since u.verified run)
      × ((compared_all run u).mismatches ≡ misses_since u.mismatches run)
      × ((compared false lead (compared_all run u)).1 ≡ leb 2 (misses_since u.mismatches run))
      × ((compared true lead (compared_all run u)).1 ≡ false)
unfolding compared push_lead
compared_all-counts [] u lead = ground arith
compared_all-counts ((true, l) ∷ rest) u lead = compared_all-counts rest (compared true l u).0 lead
compared_all-counts ((false, l) ∷ rest) u lead =
    compared_all-counts rest (compared false l u).0 lead

-- A block of the active upstream is forwarded exactly when nothing was forwarded yet or its round is
-- above the node's tip. Then it is the new tip; else the tip stays and no standby is judged.
pub on_active_block-forwards :
    (round hash at : ℕ) (c : Core)
    → let r = on_active_block round hash at c in
      (r.1.0 ≡ (c.last_forwarded == 0 || ltb c.last_forwarded round))
      × (r.0.last_forwarded ≡ (if r.1.0 then round else c.last_forwarded))
      × (r.0.active ≡ c.active)
unfolding on_active_block touch settle_standbys record_forwarded
on_active_block-forwards round hash at c = ground arith
