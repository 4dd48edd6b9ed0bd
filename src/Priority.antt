-- ===== src/Priority.antt =====
-- The priority peers (src/priority.rs): PriorityTier and its sessions. Each operation takes the
-- locks or makes one atomic step, so it is one function on the state; the shared tier of a session
-- guard is that state. The blacklist's test is an argument. Left out: the environment, the log.
pub mod Capped
pub mod Usable
mod Tests
use Prim.Native.String.{String}
use text.Mathlib.Text.{◌==◌ as str_eq}
use hypersync.Prelude.{
  ℕ, zero, suc, ◌+◌, ◌-◌, Bool, true, false, ◌&&◌, ◌||◌, not, Option, none, some, List, [], ◌∷◌,
  leb, ltb, ◌==◌, if◌then◌else◌, length, get_or, set, replicate, max,
}

-- 30 s.
abbrev pub priority_cooldown : ℕ
priority_cooldown = 30_000_000_000

-- 4 s.
abbrev pub priority_hung_cooldown : ℕ
priority_hung_cooldown = 4_000_000_000

pub data BootstrapPolicy : Type 0 where
  fallback : BootstrapPolicy
  never : BootstrapPolicy
  prefer : BootstrapPolicy

-- `max_sessions = 0` is no cap.
pub record PriorityTier : Type 0 where
  pub peers : List String
  pub sessions : List ℕ
  pub cooldown_until : List (Option ℕ)
  pub max_sessions : ℕ
  pub stage : ℕ
  pub bootstrap : BootstrapPolicy
  pub exclusive : Bool

unfoldable pub new : List String → ℕ → ℕ → BootstrapPolicy → PriorityTier
new peers max_sessions stage bootstrap = record {
  peers = peers;
  sessions = replicate (length peers) 0;
  cooldown_until = replicate (length peers) none;
  max_sessions = max_sessions;
  stage = stage;
  bootstrap = bootstrap;
  exclusive = false;
}

unfoldable pub with_exclusive : Bool → PriorityTier → PriorityTier
with_exclusive exclusive t = record t { exclusive = exclusive }

unfoldable pub is_empty : PriorityTier → Bool
is_empty t = length t.peers == 0

unfoldable pub is_exclusive : PriorityTier → Bool
unfolding is_empty
is_exclusive t = t.exclusive && not (is_empty t)

abbrev pub one_more : Option ℕ → Option ℕ
one_more none = none
one_more (some i) = some (i + 1)

-- `position(|p| p == ip)`.
unfoldable pub position : String → List String → Option ℕ
position ip [] = none
position ip (p ∷ peers) = if str_eq p ip then some 0 else one_more (position ip peers)

unfoldable pub index : String → PriorityTier → Option ℕ
unfolding position
index ip t = position ip t.peers

abbrev is_some : Option ℕ → Bool
is_some none = false
is_some (some i) = true

unfoldable pub contains : String → PriorityTier → Bool
contains ip t = is_some (index ip t)

abbrev pub is_cooling : Option ℕ → ℕ → Bool
is_cooling none now = false
is_cooling (some until) now = ltb now until

-- The tests of one peer in candidates_at.
unfoldable pub usable : (String → Bool) → ℕ → PriorityTier → ℕ → Bool
usable listed now t i =
    not (is_cooling (get_or t.cooldown_until i none) now)
    && not (listed (get_or t.peers i ""))
    && (t.max_sessions == 0 || ltb (get_or t.sessions i 0) t.max_sessions)

-- The loop of candidates_at from index `i`, with the number of entries left.
unfoldable pub candidates_from : (String → Bool) → ℕ → PriorityTier → ℕ → ℕ → List (ℕ × ℕ)
unfolding usable
candidates_from listed now t zero i = []
candidates_from listed now t (suc left) i =
    let rest = candidates_from listed now t left (i + 1) in
    if usable listed now t i then (get_or t.sessions i 0, i) ∷ rest else rest

-- `sort` on pairs, by load and then by index.
abbrev pub is_before : ℕ × ℕ → ℕ × ℕ → Bool
is_before a b = ltb a.0 b.0 || (a.0 == b.0 && leb a.1 b.1)

unfoldable pub insert_by_load : ℕ × ℕ → List (ℕ × ℕ) → List (ℕ × ℕ)
insert_by_load a [] = a ∷ []
insert_by_load a (b ∷ rest) = if is_before a b then a ∷ b ∷ rest else b ∷ insert_by_load a rest

unfoldable pub sort_by_load : List (ℕ × ℕ) → List (ℕ × ℕ)
unfolding insert_by_load
sort_by_load [] = []
sort_by_load (a ∷ rest) = insert_by_load a (sort_by_load rest)

unfoldable pub peers_at : List String → List (ℕ × ℕ) → List String
peers_at peers [] = []
peers_at peers ((load, i) ∷ rest) = get_or peers i "" ∷ peers_at peers rest

unfoldable pub candidates_at : (String → Bool) → ℕ → PriorityTier → List String
unfolding candidates_from sort_by_load peers_at
candidates_at listed now t =
    peers_at t.peers (sort_by_load (candidates_from listed now t (length t.cooldown_until) 0))

abbrev pub is_nil {ℓ} : {A : Type ℓ} → List A → Bool
is_nil [] = true
is_nil (x ∷ xs) = false

-- `candidates` reads the clock, `now`.
unfoldable pub pool_allowed : (String → Bool) → ℕ → PriorityTier → Bool
unfolding candidates_at
pool_allowed listed now t = not (is_exclusive t) || is_nil (candidates_at listed now t)

abbrev pub later_of : ℕ → Option ℕ → ℕ
later_of until none = until
later_of until (some t) = max t until

unfoldable pub cool_until : String → ℕ → PriorityTier → PriorityTier
cool_until ip until t = elim (index ip t) [
  | none ↦ t
  | some i ↦ record t {
    cooldown_until =
        set t.cooldown_until i (some (later_of until (get_or t.cooldown_until i none)));
  }
]

unfoldable pub mark_failed_at : String → ℕ → PriorityTier → PriorityTier
unfolding cool_until
mark_failed_at ip now t = cool_until ip (now + priority_cooldown) t

unfoldable pub mark_hung_at : String → ℕ → PriorityTier → PriorityTier
unfolding mark_failed_at
mark_hung_at ip now t =
    if is_exclusive t
    then cool_until ip (now + priority_hung_cooldown) t
    else mark_failed_at ip now t

-- The new state, and the index that the session guard keeps.
unfoldable pub acquire : String → PriorityTier → PriorityTier × Option ℕ
acquire ip t = elim (index ip t) [
  | none ↦ (t, none)
  | some i ↦ (record t { sessions = set t.sessions i (get_or t.sessions i 0 + 1) }, some i)
]

unfoldable pub try_acquire : String → PriorityTier → PriorityTier × Option ℕ
try_acquire ip t = elim (index ip t) [
  | none ↦ (t, none)
  | some i ↦
      if t.max_sessions == 0 || ltb (get_or t.sessions i 0) t.max_sessions
      then (record t { sessions = set t.sessions i (get_or t.sessions i 0 + 1) }, some i)
      else (t, none)
]

-- The drop of a PrioritySession. The guard stands for one count, so the count is not 0.
unfoldable pub release : ℕ → PriorityTier → PriorityTier
release i t = record t { sessions = set t.sessions i (get_or t.sessions i 0 - 1) }

unfoldable pub sessions_of : String → PriorityTier → ℕ
sessions_of ip t = elim (index ip t) [ none ↦ 0 | some i ↦ get_or t.sessions i 0 ]

unfoldable pub without : PriorityTier → List String → List String
unfolding contains
without t [] = []
without t (ip ∷ pool) = let rest = without t pool in if contains ip t then rest else ip ∷ rest

unfoldable pub strip : List String → PriorityTier → List String
unfolding is_empty without
strip pool t = if is_empty t then pool else without t pool
