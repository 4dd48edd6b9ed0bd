-- ===== src/Gateway/Select.antt =====
-- The choice of upstream peers (src/gateway/select.rs): the order of the candidates, the memory of
-- state servers, and the race of select_live_peer. Connections are left out: an attempt's end is an
-- argument. Instants are in nanoseconds.

pub mod Sources
pub mod Raced
mod Tests
use Prim.Native.String.{String}
use text.Mathlib.Text.{◌==◌ as str_eq}
use hypersync.Prelude.{
  ℕ, zero, suc, ◌+◌, ◌-◌, ◌*◌, ◌%◌, Bool, true, false, ◌&&◌, ◌||◌, not, Option, none, some, List,
  [], ◌∷◌, ◌++◌, leb, ltb, ◌==◌, if◌then◌else◌, length, get_or, take, saturating_add,
}
use hypersync.Priority.{
  BootstrapPolicy, fallback, never, prefer, PriorityTier, is_exclusive, candidates_at,
  mark_failed_at, mark_hung_at,
}
use hypersync.Push.Freshest.{max_active_round_jump}
use hypersync.Peerd.Pool.{is_in, push_new, retain}
use hypersync.Failover.Session.Tick.{rotated}

abbrev pub bootstrap_select_max_peers : ℕ
bootstrap_select_max_peers = 32

abbrev pub state_server_memory : ℕ
state_server_memory = 8

-- 3.5 s.
abbrev pub live_select_wait : ℕ
live_select_wait = 3_500_000_000

abbrev pub live_select_max_parallel : ℕ
live_select_max_parallel = 4

abbrev pub vet_max_rounds_above_tip : ℕ
vet_max_rounds_above_tip = 2 * max_active_round_jump

unfoldable pub first_round_far_above_tip : ℕ → ℕ → Bool
first_round_far_above_tip round net_tip =
    not (net_tip == 0) && ltb (saturating_add net_tip vet_max_rounds_above_tip) round

-- The loop over the head: neither twice nor blacklisted.
unfoldable pub push_head : (String → Bool) → List String → List String → List String
push_head listed [] out = out
push_head listed (ip ∷ head) out =
    push_head listed head (if not (is_in ip out) && not (listed ip) then out ++ (ip ∷ []) else out)

-- The loop over the rotated pool.
unfoldable pub push_pool : List String → List String → List String
push_pool [] out = out
push_pool (ip ∷ ips) out = push_pool ips (push_new ip out)

unfoldable pub ordered_candidates : (String → Bool) → List String → List String → ℕ → List String
unfolding push_head push_pool
ordered_candidates listed head pool start =
    push_pool (rotated pool start (length pool)) (push_head listed head [])

unfoldable pub tiered_peers : (String → Bool) → ℕ → PriorityTier → List String → ℕ → List String
unfolding ordered_candidates
tiered_peers listed now tier pool start =
    let prio = candidates_at listed now tier in
    if is_exclusive tier && not (length prio == 0)
    then prio
    else ordered_candidates listed prio pool start

unfoldable pub bootstrap_source_list :
    (String → Bool) → BootstrapPolicy → List String → List String → List String → ℕ → List String
unfolding ordered_candidates
bootstrap_source_list listed never priority remembered pool start =
    ordered_candidates listed remembered pool start
bootstrap_source_list listed prefer priority remembered pool start =
    ordered_candidates listed (priority ++ remembered) pool start
bootstrap_source_list listed fallback priority remembered pool start =
    take (bootstrap_select_max_peers - length priority)
      (retain priority (ordered_candidates listed remembered pool start))
    ++ priority

unfoldable pub forget_state_server : String → List String → List String
forget_state_server ip list = retain (ip ∷ []) list

unfoldable pub remember_state_server : String → List String → List String
unfolding forget_state_server
remember_state_server ip list = take state_server_memory (ip ∷ forget_state_server ip list)

-- How an attempt fails: a priority peer has no free session, time ran out, or something else.
pub data AttemptError : Type 0 where
  priority_cap_reached : AttemptError
  timed_out : AttemptError
  other_error : AttemptError

-- What a round of the race waits for: an attempt of the peer served a live block, or failed; a task
-- failed; no attempt is left; or the time to wait ended.
pub data Joined : Type 0 where
  serving : String → Joined
  attempt_failed : String → Bool → AttemptError → Joined
  join_error : Joined
  none_left : Joined
  elapsed : Joined

-- `in_set` counts the attempts not yet joined, `dialed` lists the pool peers dialed so far.
pub record Race : Type 0 where
  pub tier : PriorityTier
  pub prio_in_flight : ℕ
  pub pool_in_flight : ℕ
  pub in_set : ℕ
  pub launched : ℕ
  pub prio_pending : List String
  pub dialed : List String

pub data Selected : Type 0 where
  racing : Race → Selected
  selected : String → Race → Selected
  dry : Race → Selected

-- The loop that opens pool attempts; `left` bounds its rounds.
unfoldable pub launch : List String → ℕ → ℕ → Race → Race
launch peers start zero r = r
launch peers start (suc left) r =
    if ltb r.launched (length peers) && ltb r.pool_in_flight live_select_max_parallel
    then launch peers start left (record r {
      in_set = r.in_set + 1;
      launched = r.launched + 1;
      pool_in_flight = r.pool_in_flight + 1;
      dialed = r.dialed ++ (get_or peers ((start + r.launched) % length peers) "" ∷ []);
    })
    else r

unfoldable pub fail_attempt : String → Bool → AttemptError → ℕ → Race → Race
fail_attempt ip false e now r = record r { pool_in_flight = r.pool_in_flight - 1 }
fail_attempt ip true e now r = record r {
  prio_in_flight = r.prio_in_flight - 1;
  prio_pending = retain (ip ∷ []) r.prio_pending;
  tier = elim e [
    | timed_out ↦ mark_hung_at ip now r.tier
    | priority_cap_reached ↦ r.tier
    | other_error ↦ mark_failed_at ip now r.tier
  ];
}

-- The priority peers that are pending at the end are cooled down.
unfoldable pub mark_all_hung : List String → ℕ → PriorityTier → PriorityTier
mark_all_hung [] now tier = tier
mark_all_hung (ip ∷ ips) now tier = mark_all_hung ips now (mark_hung_at ip now tier)

unfoldable pub end_dry : ℕ → Race → Selected
unfolding mark_all_hung
end_dry now r = dry (record r { tier = mark_all_hung r.prio_pending now r.tier })

-- What a round joined; `pool_open` is whether the pool was open in it.
unfoldable pub join_next : Joined → Bool → ℕ → Race → Selected
unfolding fail_attempt end_dry
join_next (serving ip) pool_open now r = selected ip r
join_next (attempt_failed ip is_priority e) pool_open now r =
    racing (fail_attempt ip is_priority e now (record r { in_set = r.in_set - 1 }))
join_next join_error pool_open now r = racing (record r { in_set = r.in_set - 1 })
join_next none_left pool_open now r = end_dry now r
join_next elapsed pool_open now r = if pool_open then end_dry now r else racing r

-- A round of the race: `now` is when it begins, `later` when its attempts are open, `woken` when it
-- wakes.
unfoldable pub race_round : List String → ℕ → ℕ → ℕ → ℕ → ℕ → ℕ → Joined → Race → Selected
unfolding launch join_next
race_round peers start deadline pool_opens now later woken joined r =
    let pool_open = leb pool_opens now || r.prio_in_flight == 0 in
    let r' =
      if pool_open && ltb now deadline then launch peers start live_select_max_parallel r else r in
    if r'.in_set == 0 || leb deadline later
    then end_dry later r'
    else join_next joined pool_open woken r'

-- The race before its first round, with every priority candidate dialed.
unfoldable pub start_race : (String → Bool) → ℕ → PriorityTier → Race
start_race listed now tier =
    let prio = candidates_at listed now tier in
    record {
      tier = tier;
      prio_in_flight = length prio;
      pool_in_flight = 0;
      in_set = length prio;
      launched = 0;
      prio_pending = prio;
      dialed = [];
    }

-- When the pool opens.
unfoldable pub pool_opening : (String → Bool) → ℕ → PriorityTier → ℕ
pool_opening listed now tier =
    if length (candidates_at listed now tier) == 0
    then now
    else if is_exclusive tier
    then now + live_select_wait
    else now + tier.stage

-- A round's times and what it joins.
pub record Round : Type 0 where
  pub begins : ℕ
  pub later : ℕ
  pub woken : ℕ
  pub joined : Joined

-- The rounds of the race, until a peer is selected or the race is dry.
unfoldable pub run_race : List String → ℕ → ℕ → ℕ → List Round → Race → Selected
unfolding race_round
run_race peers start deadline pool_opens [] r = racing r
run_race peers start deadline pool_opens (x ∷ rounds) r =
    elim (race_round peers start deadline pool_opens x.begins x.later x.woken x.joined r) [
      | racing r' ↦ run_race peers start deadline pool_opens rounds r'
      | selected ip r' ↦ selected ip r'
      | dry r' ↦ dry r'
    ]
