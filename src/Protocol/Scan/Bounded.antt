-- ===== src/Protocol/Scan/Bounded.antt =====
-- The scan reads no more than the first 1024 bytes (src/protocol.rs, ROUND_SCAN_BYTES), so that a
-- bounded decode serves as well as a full one.
use hypersync.Prelude.{
  ℕ, zero, suc, ◌+◌, ◌-◌, ◌≤◌, ◌<◌, ◌≡◌, ◌⊎◌, inl, inr, refl, List, [], ◌∷◌, length, get_or, take,
  min, length-take, arith,
}
use hypersync.Protocol.Scan.{rd, triple_at, scan_from, find_block_round_parent, round_scan_bytes}

get_or-take : (n i : ℕ) (xs : List ℕ) → i < n → get_or (take n xs) i 0 ≡ get_or xs i 0
get_or-take zero i xs h = absurd (omega arith)
get_or-take (suc n) i [] h = refl
get_or-take (suc n) zero (x ∷ xs) h = refl
get_or-take (suc n) (suc i) (x ∷ xs) h = get_or-take n i xs (omega arith)

rd-take : (n o : ℕ) (xs : List ℕ) → o + 5 ≤ n → rd (take n xs) o ≡ rd xs o
unfolding rd
rd-take n o xs h = rw (
  get_or-take n (o + 1) xs (omega arith),
  get_or-take n (o + 2) xs (omega arith),
  get_or-take n (o + 3) xs (omega arith),
  get_or-take n (o + 4) xs (omega arith),
)

triple_at-take : (n o : ℕ) (xs : List ℕ) → o + 15 ≤ n → triple_at (take n xs) o ≡ triple_at xs o
unfolding triple_at
triple_at-take n o xs h = rw (
  get_or-take n o xs (omega arith),
  get_or-take n (o + 5) xs (omega arith),
  get_or-take n (o + 10) xs (omega arith),
  rd-take n o xs (omega arith),
  rd-take n (o + 5) xs (omega arith),
  rd-take n (o + 10) xs (omega arith),
)

scan_from-take :
    (n left o : ℕ) (xs : List ℕ)
    → left + o + 14 ≤ n
    → scan_from (take n xs) left o ≡ scan_from xs left o
unfolding scan_from
scan_from-take n zero o xs h = refl
scan_from-take n (suc left) o xs h = ground (
  arith,
  triple_at-take n o xs,
  rd-take n o xs,
  rd-take n (o + 5) xs,
  scan_from-take n left (o + 1) xs,
)

-- The scan of a block and that of any prefix of it with at least 1024 bytes, or of the whole of
-- it, agree.
pub find_block_round_parent-take :
    (n : ℕ) (dec : List ℕ)
    → round_scan_bytes ≤ n
    → find_block_round_parent (take n dec) ≡ find_block_round_parent dec
unfolding find_block_round_parent
find_block_round_parent-take n dec h =
    let e : min (length (take n dec)) round_scan_bytes ≡ min (length dec) round_scan_bytes =
      omega (arith, length-take {0} n dec) in
    rw e (scan_within (min (length dec) round_scan_bytes - 14) (omega arith))
  where
    scan_within :
        (left : ℕ)
        → (left + 14 ≤ n) ⊎ (left ≡ 0)
        → scan_from (take n dec) left 0 ≡ scan_from dec left 0
    scan_within left (inl p) = scan_from-take n left 0 dec (omega arith)
    scan_within left (inr p) = rw (p, scan_from)
