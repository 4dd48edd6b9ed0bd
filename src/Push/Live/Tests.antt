-- ===== src/Push/Live/Tests.antt =====
-- A run of a push session, and the theorem on sessions at it.
use hypersync.Prelude.{
  ℕ, ◌-◌, ◌≡◌, refl, true, false, Option, none, some, List, [], ◌∷◌, Climbs, arith,
}
use hypersync.Protocol.Rounds.{is_plausible_mainnet_round, round_lag_from_tip}
use hypersync.Protocol.Scan.{rd, triple_at, find_block_round, find_block_round_parent}
use hypersync.Protocol.Lz4.{read_len, pass, literal_part, offset_part, lz4_first_n}
use hypersync.Protocol.BlockRound.{declared_size_ok, block_round}
use hypersync.Protocol.Forward
use hypersync.Protocol.Forward.{
  next_power_of_two, with_last_forwarded, is_new, admit_round, should_forward,
}
use hypersync.Push.Progress
use hypersync.Push.Progress.{on_round, stalled, hold}
use hypersync.Push.Live.{Outside, Read, header, process_live_frame, pump}
use hypersync.Push.Live.Session.{Activity, pumped, other_end, Served, start, serve_push, act}
use hypersync.Push.Live.Session.Relays.{is_some, round_of, block_rounds, Relays, AreSmall}
use hypersync.Push.Live.Session.Whole.{serve_push-IsServed}

abbrev no_decoder : List ℕ → Option (List ℕ)
no_decoder bytes = none

-- The payload of the block 1,356,000,000 + n, whose parent is the one before.
abbrev payload : ℕ → List ℕ
payload n =
    15
    ∷ 0
    ∷ 0
    ∷ 0
    ∷ 0xf0
    ∷ 0
    ∷ 0xfc
    ∷ n
    ∷ 235
    ∷ 210
    ∷ 80
    ∷ 0xfc
    ∷ (n - 1)
    ∷ 235
    ∷ 210
    ∷ 80
    ∷ 0xfc
    ∷ 0
    ∷ 235
    ∷ 210
    ∷ 80
    ∷ []

abbrev block_frame : ℕ → List ℕ
block_frame n = 0 ∷ 0 ∷ 0 ∷ 21 ∷ 1 ∷ payload n

abbrev control_frame : List ℕ
control_frame = 0 ∷ 0 ∷ 0 ∷ 2 ∷ 0 ∷ 7 ∷ 8 ∷ []

-- The node takes every frame, the tip is near, and the gateway keeps no freshest round.
abbrev outside : ℕ → Outside
outside now = record {
  now = now;
  net_tip = 1_356_000_000;
  live_floor = 0;
  freshest = none;
  node_backed_up = false;
  room = true;
}

abbrev block_read : ℕ → Read
block_read n = header 0 0 0 21 1 (some (payload n))

-- A block that was prefetched comes again, then a new one, and then the node leaves.
abbrev activities : List Activity
activities =
    pumped (outside 1) (block_read 2) (outside 2)
    ∷ pumped (outside 3) (header 0 0 0 2 0 (some (7 ∷ 8 ∷ []))) (outside 4)
    ∷ pumped (outside 5) (block_read 3) (outside 6)
    ∷ other_end
    ∷ []

abbrev prefetched : List (List ℕ × Outside)
prefetched = (block_frame 2, outside 0) ∷ []

abbrev outcome : Served
outcome = serve_push no_decoder 0 "203.0.113.1" prefetched 1 activities (start 1_356_000_001 0)

abbrev frames : List (List ℕ)
frames = block_frame 2 ∷ block_frame 2 ∷ control_frame ∷ block_frame 3 ∷ []

unfolds : Unit {0}
unfolding round_of block_round declared_size_ok lz4_first_n pass read_len literal_part offset_part
    find_block_round find_block_round_parent triple_at rd
unfolds = tt

two : round_of no_decoder (block_frame 2) ≡ some 1_356_000_002
unfolding unfolds
two = refl

three : round_of no_decoder (block_frame 3) ≡ some 1_356_000_003
unfolding unfolds
three = refl

silent : round_of no_decoder control_frame ≡ none
unfolding unfolds
silent = refl

-- The repeated block is dropped; the rest passes.
sent : outcome.sent ≡ block_frame 2 ∷ control_frame ∷ block_frame 3 ∷ []
unfolding unfolds serve_push process_live_frame pump act start is_plausible_mainnet_round
    round_lag_from_tip should_forward admit_round is_new with_last_forwarded on_round stalled
    Forward.new next_power_of_two Progress.new
sent = refl

small : AreSmall no_decoder frames
small = (rw two (omega arith), (rw two (omega arith), (rw silent tt, (rw three (omega arith), tt))))

serve_push-IsServed_example :
    Relays no_decoder (is_some outcome.fault) frames outcome.sent
    × Climbs 1_356_000_001
        (block_rounds no_decoder outcome.sent)
        outcome.session.stream.gate.last_forwarded
serve_push-IsServed_example =
    serve_push-IsServed no_decoder 0 "203.0.113.1" prefetched 1 activities 1_356_000_001 0
      (omega arith) small
