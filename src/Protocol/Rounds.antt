-- ===== src/Protocol/Rounds.antt =====
-- Round plausibility and lag (src/protocol.rs): the constants and the pure checks on one round.
use hypersync.Prelude.{
  ℕ, ◌+◌, ◌-◌, ◌≤◌, ◌<◌, ◌≡◌, ◌↔◌, Bool, true, ◌&&◌, ◌||◌, Option, none, some, leb, ltb, ◌==◌,
  if◌then◌else◌, saturating_add, u32_max, arith,
}

abbrev pub min_plausible_mainnet_round : ℕ
min_plausible_mainnet_round = 1_000_000_000

abbrev pub min_complete_bootstrap_bytes : ℕ
min_complete_bootstrap_bytes = 5_200_000_000

abbrev pub min_complete_bootstrap_frames : ℕ
min_complete_bootstrap_frames = 4_000

abbrev pub max_live_frame : ℕ
max_live_frame = 8_000_000

abbrev pub active_round_max_lag : ℕ
active_round_max_lag = 1_500

abbrev pub net_tip_slack_rounds : ℕ
net_tip_slack_rounds = 200_000

unfoldable pub is_plausible_mainnet_round : ℕ → ℕ → Bool
is_plausible_mainnet_round round net_tip =
    leb min_plausible_mainnet_round round
    && (net_tip == 0 || leb round (saturating_add net_tip net_tip_slack_rounds))

unfoldable pub round_lag_from_tip : ℕ → ℕ → ℕ → Option ℕ
round_lag_from_tip round net_tip max_lag =
    if net_tip == 0 || leb net_tip round
    then none
    else let lag = net_tip - round in if ltb max_lag lag then some lag else none

unfoldable pub complete_bootstrap_at_frame_boundary : ℕ → ℕ → Bool
complete_bootstrap_at_frame_boundary bytes frames =
    leb min_complete_bootstrap_bytes bytes && leb min_complete_bootstrap_frames frames

-- The lag of a round behind a known tip is reported exactly when it passes the limit, and no round
-- that the plausibility check accepts can be further ahead of that tip than the slack: between
-- them the two checks hold a round in the window from `net_tip - max_lag` to `net_tip + slack`.
pub plausible_window :
    (round net_tip max_lag : ℕ)
    → 0 < net_tip
    → net_tip + net_tip_slack_rounds ≤ u32_max
    → ((is_plausible_mainnet_round round net_tip ≡ true)
        × (round_lag_from_tip round net_tip max_lag ≡ none))
      ↔ ((min_plausible_mainnet_round ≤ round)
          × (net_tip ≤ round + max_lag)
          × (round ≤ net_tip + net_tip_slack_rounds))
unfolding is_plausible_mainnet_round round_lag_from_tip
plausible_window round net_tip max_lag known small = ground arith
