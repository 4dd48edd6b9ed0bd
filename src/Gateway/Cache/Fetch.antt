-- ===== src/Gateway/Cache/Fetch.antt =====
-- The capture of a bootstrap from a state server (src/gateway/cache.rs, fetch_bootstrap and
-- capture_bootstrap_raced). What reads give, and when, is an argument; rates are compared by
-- multiplication; instants are in nanoseconds.

pub mod Whole
use Prim.Native.String.{String}
use hypersync.Prelude.{
  ℕ, ◌+◌, ◌-◌, ◌*◌, Bool, true, false, ◌&&◌, ◌||◌, not, Option, none, some, List, [], ◌∷◌, ◌++◌,
  leb, ltb, ◌==◌, if◌then◌else◌, length, take, from_be_bytes,
}
use hypersync.Protocol.Rounds.{complete_bootstrap_at_frame_boundary}
use hypersync.Protocol.Frames.{max_frame}
use hypersync.Gateway.Cache.{max_bootstrap_capture_bytes}

abbrev pub min_bootstrap_rate_bytes_per_sec : ℕ
min_bootstrap_rate_bytes_per_sec = 5_000_000

-- One read of a large payload (nothing: it failed), and the time since the payload began.
pub record Part : Type 0 where
  pub bytes : List ℕ
  pub elapsed : ℕ

-- A frame as it comes: its header unless the read fails or is late, the reads of a large payload, the
-- read of a small one (none: it failed or was late), and the time after it.
pub record Incoming : Type 0 where
  pub head : Option (ℕ × ℕ × ℕ × ℕ × ℕ)
  pub parts : List Part
  pub small : Option (List ℕ)
  pub now : ℕ

pub record Capture : Type 0 where
  pub blob : List ℕ
  pub started : ℕ
  pub first : Bool
  pub win : ℕ
  pub win_bytes : ℕ
  pub slow : ℕ
  pub frames : ℕ

pub data Failure : Type 0 where
  no_header : Failure
  not_serving : Failure
  frame_too_large : Failure
  capture_too_large : Failure
  too_slow_early : Failure
  large_frame_failed : Failure
  small_frame_failed : Failure
  too_slow : Failure
  bulk_ended_early : Failure

pub data Fetched : Type 0 where
  capturing : Capture → Fetched
  captured : List ℕ → Fetched
  failed : Failure → Fetched

pub data Payload : Type 0 where
  whole : List ℕ → Payload
  broken : Failure → Payload

unfoldable pub is_complete : Capture → Bool
is_complete c = complete_bootstrap_at_frame_boundary (length c.blob) c.frames

-- The reads of a large payload, `off` bytes in.
unfoldable pub read_large : ℕ → List ℕ → List Part → Payload
read_large len payload [] =
    if leb len (length payload) then whole payload else broken large_frame_failed
read_large len payload (p ∷ parts) = elim (leb len (length payload)) [
  | true ↦ whole payload
  | false ↦
      let got = take (len - length payload) p.bytes in
      let payload' = payload ++ got in
      elim (length got == 0) [
        | true ↦ broken large_frame_failed
        | false ↦
            elim (ltb 4_000_000_000 p.elapsed
              && ltb (length payload' * 1_000_000_000)
                  (min_bootstrap_rate_bytes_per_sec * p.elapsed)) [
                    | true ↦ broken too_slow_early
                    | false ↦ read_large len payload' parts
                  ]
      ]
]

-- The read of a small payload gives all of it or fails.
abbrev pub read_small : ℕ → Option (List ℕ) → Payload
read_small len none = broken small_frame_failed
read_small len (some bytes) = if length bytes == len then whole bytes else broken small_frame_failed

unfoldable pub read_payload : ℕ → Incoming → Payload
unfolding read_large
read_payload len i =
    if ltb 50_000_000 len then read_large len [] i.parts else read_small len i.small

-- The rate of the last window.
unfoldable pub check_window : ℕ → Capture → Fetched
unfolding is_complete
check_window now c =
    let el = now - c.win in
    if ltb el 1_500_000_000
    then capturing c
    else if ltb 1_500_000_000 (length c.blob) && ltb (c.win_bytes * 1_000_000_000) (400_000 * el)
    then (if leb 8 (c.slow + 1)
        then (if is_complete c then captured c.blob else failed bulk_ended_early)
        else capturing (record c { slow = c.slow + 1; win = now; win_bytes = 0 }))
    else capturing (record c { slow = 0; win = now; win_bytes = 0 })

-- A frame that was appended.
unfoldable pub check_frame : ℕ → ℕ → Capture → Fetched
unfolding check_window
check_frame len now c =
    if ltb max_bootstrap_capture_bytes (length c.blob)
    then failed capture_too_large
    else if leb 900_000_000 (length c.blob)
        && (ltb (length c.blob) 970_000_000
            && ltb (length c.blob * 1_000_000_000)
                (min_bootstrap_rate_bytes_per_sec * (now - c.started)))
    then failed too_slow
    else check_window now (record c { win_bytes = c.win_bytes + (5 + len) })

unfoldable pub append_frame : ℕ → List ℕ → List ℕ → Capture → Capture
append_frame len header payload c = record c {
  blob = c.blob ++ (header ++ payload);
  first = false;
  frames = c.frames + 1;
}

unfoldable pub fetch_frame : ℕ → ℕ → ℕ → ℕ → ℕ → Incoming → Capture → Fetched
unfolding read_payload append_frame check_frame
fetch_frame b0 b1 b2 b3 typ i c =
    let len = from_be_bytes b0 b1 b2 b3 in
    if c.first && leb len 4_000_000
    then failed not_serving
    else if ltb max_frame len
    then failed frame_too_large
    else if ltb max_bootstrap_capture_bytes (length c.blob + 5 + len)
    then failed capture_too_large
    else elim (read_payload len i) [
      | broken e ↦ failed e
      | whole payload ↦
          check_frame len i.now (append_frame len (b0 ∷ b1 ∷ b2 ∷ b3 ∷ typ ∷ []) payload c)
    ]

-- One round of the loop.
unfoldable pub fetch_next : Incoming → Capture → Fetched
unfolding fetch_frame is_complete
fetch_next i c = elim i.head [
  | none ↦ if is_complete c then captured c.blob else failed no_header
  | some (b0, b1, b2, b3, typ) ↦ fetch_frame b0 b1 b2 b3 typ i c
]

unfoldable pub fetch_all : List Incoming → Capture → Fetched
unfolding fetch_next
fetch_all [] c = capturing c
fetch_all (i ∷ incoming) c = elim (fetch_next i c) [
  | capturing c' ↦ fetch_all incoming c'
  | captured blob ↦ captured blob
  | failed e ↦ failed e
]

unfoldable pub fetch_bootstrap : ℕ → List Incoming → Fetched
unfolding fetch_all
fetch_bootstrap now incoming = fetch_all incoming (record {
  blob = [];
  started = now;
  first = true;
  win = now;
  win_bytes = 0;
  slow = 0;
  frames = 0;
})
