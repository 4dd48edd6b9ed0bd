-- ===== src/Gateway/Node.antt =====
-- The state that the gateway keeps of one node (src/gateway/node.rs): its pinned upstream and its
-- rate limits. The locks make each operation one step. The blacklist's test is an argument.
pub mod Pins
pub mod Claims
use Prim.Native.String.{String}
use text.Mathlib.Text.{◌==◌ as str_eq}
use hypersync.Prelude.{
  ℕ, ◌+◌, ◌-◌, Bool, true, false, ◌&&◌, not, Option, none, some, List, [], ◌∷◌, ltb, ◌==◌,
  if◌then◌else◌,
}
use hypersync.Gateway.Prefetch.{Prefetch, serves}
use hypersync.Gateway.Catchup.{ClientBlockRun}

pub record ActivePeer : Type 0 where
  pub ip : String
  pub epoch : ℕ

pub record NodeState : Type 0 where
  pub ip : ℕ
  pub active : Option ActivePeer
  pub next_active_epoch : ℕ
  pub last_cache_replay_secs : ℕ
  pub live_floor : ℕ
  pub last_seen_secs : ℕ
  pub open_conns : ℕ
  pub lazy_active : Bool
  pub rpc_peer : Option String
  pub replay_in_flight : Bool
  pub last_repin_attempt : Option ℕ
  pub last_catchup_cut : Option ℕ
  pub last_client_blocks : Option ClientBlockRun
  pub prefetch : Option Prefetch

unfoldable pub new : ℕ → ℕ → NodeState
new ip now = record {
  ip = ip;
  active = none;
  next_active_epoch = 0;
  last_cache_replay_secs = 0;
  live_floor = 0;
  last_seen_secs = now;
  open_conns = 0;
  lazy_active = false;
  rpc_peer = none;
  replay_in_flight = false;
  last_repin_attempt = none;
  last_catchup_cut = none;
  last_client_blocks = none;
  prefetch = none;
}

unfoldable pub pin_active : String → NodeState → NodeState × ActivePeer
pin_active ip s =
    let peer : ActivePeer = record { ip = ip; epoch = s.next_active_epoch + 1 } in
    (
      record s {
        next_active_epoch = s.next_active_epoch + 1;
        prefetch = none;
        active = some peer;
        lazy_active = false;
        rpc_peer = none;
      },
      peer,
    )

unfoldable pub pin_generation : NodeState → ℕ
pin_generation s = s.next_active_epoch

-- `*active = None` if its IP is blacklisted.
unfoldable pub unpin_blacklisted : (String → Bool) → Option ActivePeer → Option ActivePeer
unpin_blacklisted listed none = none
unpin_blacklisted listed (some p) = if listed p.ip then none else some p

-- The new pin of pin_lazy_active, unless one is there.
unfoldable pub pin_lazy_over : Option ActivePeer → String → NodeState → NodeState × ActivePeer
pin_lazy_over (some p) ip s = (record s { active = some p }, p)
pin_lazy_over none ip s =
    let peer : ActivePeer = record { ip = ip; epoch = s.next_active_epoch + 1 } in
    (
      record s {
        next_active_epoch = s.next_active_epoch + 1;
        prefetch = none;
        active = some peer;
        lazy_active = true;
      },
      peer,
    )

unfoldable pub pin_lazy_active : (String → Bool) → String → NodeState → NodeState × ActivePeer
unfolding unpin_blacklisted pin_lazy_over
pin_lazy_active listed ip s = pin_lazy_over (unpin_blacklisted listed s.active) ip s

unfoldable pub active_snapshot : (String → Bool) → NodeState → NodeState × Option ActivePeer
unfolding unpin_blacklisted
active_snapshot listed s =
    let active' = unpin_blacklisted listed s.active in (record s { active = active' }, active')

unfoldable pub active_session_snapshot : (String → Bool) → NodeState → NodeState × Option ActivePeer
unfolding unpin_blacklisted
active_session_snapshot listed s =
    let active' = unpin_blacklisted listed s.active in
    (record s { active = active' }, if s.lazy_active then none else active')

abbrev pub same_peer : Option ActivePeer → ActivePeer → Bool
same_peer none p = false
same_peer (some q) p = str_eq q.ip p.ip && q.epoch == p.epoch

unfoldable pub active_is_current : ActivePeer → NodeState → Bool
active_is_current p s = same_peer s.active p

-- Also the drop of an ActivePinGuard.
unfoldable pub clear_active_if_current : ActivePeer → NodeState → NodeState
clear_active_if_current p s = if same_peer s.active p then record s { active = none } else s

abbrev is_some {ℓ} : {A : Type ℓ} → Option A → Bool
is_some none = false
is_some (some a) = true

unfoldable pub has_active_session : (String → Bool) → NodeState → NodeState × Bool
unfolding unpin_blacklisted
has_active_session listed s =
    let active' = unpin_blacklisted listed s.active in
    (record s { active = active' }, is_some active' && not s.lazy_active)

abbrev is_recent : Option ℕ → ℕ → ℕ → Bool
is_recent none now every = false
is_recent (some t) now every = ltb (now - t) every

unfoldable pub claim_every : Option ℕ → ℕ → ℕ → Option ℕ × Bool
claim_every last now every = if is_recent last now every then (last, false) else (some now, true)

unfoldable pub forget_repin_attempt : NodeState → NodeState
forget_repin_attempt s = record s { last_repin_attempt = none }

unfoldable pub claim_repin_attempt : ℕ → ℕ → NodeState → NodeState × Bool
unfolding claim_every
claim_repin_attempt now retry s =
    let (last, claimed) = claim_every s.last_repin_attempt now retry in
    (record s { last_repin_attempt = last }, claimed)

unfoldable pub claim_catchup_cut : ℕ → ℕ → NodeState → NodeState × Bool
unfolding claim_every
claim_catchup_cut now retry s =
    let (last, claimed) = claim_every s.last_catchup_cut now retry in
    (record s { last_catchup_cut = last }, claimed)

-- `now` is the time when the call checks the age.
unfoldable pub served : ℕ → ℕ → ℕ → ℕ → Option Prefetch → Option Prefetch
served start end generation now none = none
served start end generation now (some p) =
    if serves start end generation now p then some p else none

unfoldable pub take_prefetch : ℕ → ℕ → ℕ → NodeState → NodeState × Option Prefetch
unfolding served pin_generation
take_prefetch start end now s =
    (record s { prefetch = none }, served start end (pin_generation s) now s.prefetch)

unfoldable pub unless_id : ℕ → Option Prefetch → Option Prefetch
unless_id id none = none
unless_id id (some p) = if p.id == id then none else some p

unfoldable pub expire_prefetch : ℕ → NodeState → NodeState
unfolding unless_id
expire_prefetch id s = record s { prefetch = unless_id id s.prefetch }

-- The end of start_prefetch, when the fetch runs: it is installed unless a pin was made meanwhile.
unfoldable pub install_prefetch : Prefetch → ℕ → NodeState → NodeState
unfolding pin_generation
install_prefetch p generation s =
    if not (pin_generation s == generation) then s else record s { prefetch = some p }
