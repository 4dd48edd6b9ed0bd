-- ===== src/Peerd/Pool/Chosen.antt =====
-- Which candidates are probed, and what exclusion removes (src/peerd/daemon.rs).
use Prim.Native.String.{String}
use hypersync.Prelude.{
  ℕ, zero, suc, ◌+◌, ◌-◌, ◌/◌, ◌%◌, ◌≤◌, ◌<◌, inl, inr, ◌&&◌, ◌||◌, not, List, [], ◌∷◌, leb, ◌==◌,
  length, length-append, ◌++◌, get_or, max, Bool-cases, arith,
}
use hypersync.Peerd.Pool.{is_in, take_previous, scan_all, select_probe_candidates}

length-take_previous :
    (limit : ℕ) (all previous selected : List String)
    → length selected ≤ limit
    → length (take_previous limit all previous selected) ≤ limit
unfolding take_previous
length-take_previous limit all [] selected h = h
length-take_previous limit all (ip ∷ previous) selected h =
    elim (Bool-cases (leb limit (length selected))) [
      | inl full ↦ rw (full, length) h
      | inr room ↦ elim (Bool-cases (is_in ip all && not (is_in ip selected))) [
        | inl taken ↦
            rw (room, length, taken)
              (length-take_previous limit all previous (selected ++ (ip ∷ []))
                (let l = length-append selected (ip ∷ []) in ground arith))
        | inr skipped ↦
            rw (room, length, skipped) (length-take_previous limit all previous selected h)
      ]
    ]

length-scan_all :
    (all : List String) (start remaining left off added : ℕ) (selected : List String)
    → added < remaining
    → length (scan_all all start remaining left off added selected).0 + added
      ≤ length selected + remaining
unfolding scan_all
length-scan_all all start remaining zero off added selected h = omega arith
length-scan_all all start remaining (suc left) off added selected h =
    elim (Bool-cases (is_in (get_or all ((start + off) % length all) "") selected)) [
      | inl seen ↦
          rw (seen, length) (length-scan_all all start remaining left (off + 1) added selected h)
      | inr fresh ↦ elim (Bool-cases (leb remaining (added + 1))) [
        | inl done ↦
            let l = length-append selected (get_or all ((start + off) % length all) "" ∷ []) in
            rw (fresh, length, done) (ground arith)
        | inr more ↦
            let k =
              length-scan_all all start remaining left (off + 1) (added + 1)
                (selected ++ (get_or all ((start + off) % length all) "" ∷ [])) (ground arith) in
            let l = length-append selected (get_or all ((start + off) % length all) "" ∷ []) in
            rw (fresh, length, more) (omega arith)
      ]
    ]

-- At most the number of candidates per cycle is probed (at least one is allowed).
pub select_probe_candidates-AtMost :
    (all previous : List String) (max_per_cycle cursor : ℕ)
    → length (select_probe_candidates all previous max_per_cycle cursor).0 ≤ max max_per_cycle 1
unfolding select_probe_candidates
select_probe_candidates-AtMost all previous max_per_cycle cursor =
    let limit : ℕ = max (max max_per_cycle 1 / 2) 1 in
    let selected : List String = take_previous limit all previous [] in
    let few = length-take_previous limit all previous [] (omega arith) in
    elim (Bool-cases (max max_per_cycle 1 - length selected == 0 || length all == 0)) [
      | inl done ↦ rw done (omega arith)
      | inr scan ↦
          let k =
            length-scan_all all (cursor % length all) (max max_per_cycle 1 - length selected)
              (length all) 0 0 selected (ground arith) in
          rw scan (ground arith)
    ]
