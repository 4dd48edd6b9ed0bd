-- ===== src/Gateway/Catchup/Capped.antt =====
-- The samples kept of a catch-up (src/gateway/node.rs, mark_client_blocks_response).
use hypersync.Prelude.{
  ℕ, zero, suc, ◌-◌, ◌≤◌, ◌<◌, ◌≡◌, refl, inl, inr, ◌⊎◌, Option, some, List, [], ◌∷◌, ◌++◌, ltb,
  length, max, Bool-cases, arith,
}
use hypersync.Gateway.Catchup.{
  Sample, ClientBlockRun, drop_old, drop_excess, extend_run, start_run, mark_client_blocks_response,
  catchup_max_samples, catchup_run_gap,
}

length-drop_excess :
    (excess since : ℕ) (samples : List Sample)
    → length (drop_excess excess since samples).1 ≡ length samples - excess
unfolding drop_excess
length-drop_excess zero since samples = omega arith
length-drop_excess (suc excess) since [] = omega arith
length-drop_excess (suc excess) since (s ∷ rest) =
    let h = length-drop_excess excess (max since s.at) rest in omega arith

drop_excess-since :
    (excess since : ℕ) (samples : List Sample) → since ≤ (drop_excess excess since samples).0
unfolding drop_excess
drop_excess-since zero since samples = omega arith
drop_excess-since (suc excess) since [] = omega arith
drop_excess-since (suc excess) since (s ∷ rest) =
    let h = drop_excess-since excess (max since s.at) rest in omega arith

-- After a batch a run holds at most 1024 samples, its last batch is this one, and it starts with
-- this batch, or no earlier than the run before, which was at most a gap old.
pub mark_client_blocks_response-Capped :
    (now : ℕ) (behind : Option ℕ) (width : ℕ) (r : ClientBlockRun)
    → (length (mark_client_blocks_response now behind width (some r)).samples ≤ catchup_max_samples)
      × ((mark_client_blocks_response now behind width (some r)).last ≡ now)
      × (((mark_client_blocks_response now behind width (some r)).since ≡ now)
          ⊎ ((now - r.last < catchup_run_gap)
              × (r.since ≤ (mark_client_blocks_response now behind width (some r)).since)))
unfolding mark_client_blocks_response extend_run start_run
mark_client_blocks_response-Capped now behind width r =
    elim (Bool-cases (ltb (now - r.last) catchup_run_gap)) [
      | inr gap ↦ rw gap (omega arith, refl, inl refl)
      | inl going ↦
          let kept : List Sample =
            drop_old now
              (r.samples ++ (record { at = now; behind = behind; width = width } ∷ [])) in
          let n = length-drop_excess (length kept - catchup_max_samples) r.since kept in
          let m = drop_excess-since (length kept - catchup_max_samples) r.since kept in
          rw going (omega arith, refl, inr (ground arith, m))
    ]
