-- ===== src/Priority/Tests.antt =====
-- Runs of the model of the priority peers, and each of its theorems at an input.
use Prim.Native.String.{String}
use hypersync.Prelude.{
  ℕ, ◌≡◌, ◌≢◌, ◌||◌, refl, Bool, true, false, none, some, List, [], ◌∷◌, ltb, ◌==◌, get_or, arith,
}
use hypersync.Priority
use hypersync.Priority.{
  PriorityTier, fallback, is_empty, is_exclusive, position, index, contains, usable,
  candidates_from, insert_by_load, sort_by_load, peers_at, candidates_at, pool_allowed, cool_until,
  mark_failed_at, mark_hung_at, try_acquire, release, without, strip, with_exclusive, acquire,
  sessions_of, is_cooling,
}
use hypersync.Priority.Capped.{Op, start, hang, step, steps, AllAtMost, steps-AllAtMost}
use hypersync.Priority.Usable.{Listed, head, usable-mark_failed_at, candidates_at-Usable}

run : Unit {0}
unfolding Priority.new is_empty is_exclusive position index contains usable candidates_from
    insert_by_load sort_by_load peers_at candidates_at pool_allowed cool_until mark_failed_at
    mark_hung_at try_acquire release without strip with_exclusive acquire sessions_of step
run = tt

abbrev one : String
one = "203.0.113.1"

abbrev two : String
two = "203.0.113.2"

abbrev tier : PriorityTier
tier = with_exclusive true (Priority.new (one ∷ two ∷ []) 1 1_500_000_000 fallback)

abbrev listed : String → Bool
listed ip = false

abbrev operations : List Op
operations = hang two 7 ∷ start one ∷ start two ∷ start one ∷ []

-- The second session of the first peer is refused, and the second peer cools down.
no_candidates : candidates_at listed 8 (steps operations tier) ≡ []
unfolding run
no_candidates = refl

allowed : pool_allowed listed 8 (steps operations tier) ≡ true
unfolding run
allowed = refl

started : (steps operations tier).sessions ≡ 1 ∷ 1 ∷ []
unfolding run
started = refl

stripped : strip ("203.0.113.9" ∷ two ∷ []) tier ≡ "203.0.113.9" ∷ []
unfolding run
stripped = refl

idle : AllAtMost tier.max_sessions tier.sessions
unfolding run
idle = omega arith

capped : tier.max_sessions ≢ 0
unfolding run
capped = omega arith

steps-AllAtMost_example : AllAtMost tier.max_sessions (steps operations tier).sessions
steps-AllAtMost_example = steps-AllAtMost operations tier capped idle

second : index two tier ≡ some 1
unfolding run
second = refl

usable-mark_failed_at_example :
    usable listed 20_000_000_000 (steps operations (mark_failed_at two 5 tier)) 1 ≡ false
unfolding run
usable-mark_failed_at_example =
    usable-mark_failed_at listed two 5 20_000_000_000 1 operations tier second (omega arith)
      (omega arith)

listed_first : Listed one (candidates_at listed 8 tier)
unfolding run
listed_first = head (two ∷ [])

candidates_at-Usable_example :
    (i : ℕ) × (get_or tier.peers i "" ≡ one)
    × (is_cooling (get_or tier.cooldown_until i none) 8 ≡ false)
    × (listed (get_or tier.peers i "") ≡ false)
    × ((tier.max_sessions == 0 || ltb (get_or tier.sessions i 0) tier.max_sessions) ≡ true)
candidates_at-Usable_example = candidates_at-Usable listed 8 tier one listed_first
