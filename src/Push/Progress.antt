-- ===== src/Push/Progress.antt =====
-- The progress of one stream (src/push/live.rs): BlockProgress and StalledBehind. Errors carry
-- no text.
pub mod Gates
use hypersync.Prelude.{
  ℕ, ◌+◌, ◌-◌, ◌*◌, Bool, true, false, ◌&&◌, ◌||◌, not, Option, none, some, leb, ltb, ◌==◌,
  if◌then◌else◌, saturating_add,
}
use hypersync.Push.Freshest.{FreshestRound, get, max_active_round_jump}

-- 30 s.
abbrev pub active_block_stall : ℕ
active_block_stall = 30_000_000_000

pub record BlockProgress : Type 0 where
  pub last_round : ℕ
  pub at : ℕ
  pub lag_since : Option ℕ

unfoldable pub new : ℕ → ℕ → BlockProgress
new last_round now = record { last_round = last_round; at = now; lag_since = none }

-- `none` is the error of a round jump.
unfoldable pub on_round : ℕ → ℕ → BlockProgress → Option BlockProgress
on_round rnd now p =
    if not (p.last_round == 0) && ltb (saturating_add p.last_round max_active_round_jump) rnd
    then none
    else some (if ltb p.last_round rnd then record p { last_round = rnd; at = now } else p)

-- How far a stream at `own` is behind a freshest round.
unfoldable pub behind_by : Option ℕ → ℕ → ℕ
behind_by none own = 0
behind_by (some f) own = f - own

abbrev pub since_or : ℕ → Option ℕ → ℕ
since_or now none = now
since_or now (some t) = t

-- The new state, and the lag if it has lasted the grace period.
unfoldable pub lagging_at : Option ℕ → ℕ → ℕ → Bool → ℕ → BlockProgress → BlockProgress × Option ℕ
unfolding behind_by
lagging_at freshest lag_rounds grace node_backed_up now p =
    let behind = behind_by freshest p.last_round in
    if p.last_round == 0 || node_backed_up || leb behind lag_rounds
    then (record p { lag_since = none }, none)
    else let since = since_or now p.lag_since in
      (record p { lag_since = some since }, if leb grace (now - since) then some behind else none)

unfoldable pub lagging : FreshestRound → Bool → ℕ → BlockProgress → BlockProgress × Option ℕ
lagging f node_backed_up now p = lagging_at (get now f) f.lag_rounds f.grace node_backed_up now p

unfoldable pub hold : ℕ → BlockProgress → BlockProgress
hold now p = record p { at = now }

unfoldable pub stalled : ℕ → BlockProgress → Bool
stalled now p = not (p.last_round == 0) && ltb active_block_stall (now - p.at)

pub record StalledBehind : Type 0 where
  pub rounds : ℕ
  pub grace : ℕ
  pub widen : ℕ
  pub since : Option (ℕ × ℕ)

abbrev pub mark_or : ℕ × ℕ → Option (ℕ × ℕ) → ℕ × ℕ
mark_or d none = d
mark_or d (some m) = m

unfoldable pub check : ℕ → Option ℕ → Bool → ℕ → StalledBehind → StalledBehind × Option ℕ
unfolding behind_by
check own_round freshest node_backed_up now s =
    let behind = behind_by freshest own_round in
    if own_round == 0 || node_backed_up || ltb behind s.rounds
    then (record s { since = none }, none)
    else let mark = mark_or (now, behind) s.since in
      (
        record s { since = some mark },
        if leb s.grace (now - mark.0) && leb (saturating_add mark.1 s.widen) behind
            then some behind
            else none,
      )
