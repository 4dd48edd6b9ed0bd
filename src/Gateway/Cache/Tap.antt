-- ===== src/Gateway/Cache/Tap.antt =====
-- The relay of a bootstrap to a node with its cache tap (src/gateway/cache.rs,
-- splice_bootstrap_capture). What reads and writes give, and when, is an argument. A byte rate is
-- compared by multiplication; the source divides floating-point numbers. Instants are in nanoseconds.

pub mod Framing
pub mod Loads
pub mod Whole
use hypersync.Prelude.{
  ℕ, ◌+◌, ◌-◌, ◌*◌, Bool, true, false, ◌&&◌, ◌||◌, not, Option, none, some, List, [], ◌∷◌, ◌++◌,
  leb, ltb, ◌==◌, if◌then◌else◌, length, take, min, from_be_bytes,
}
use hypersync.Protocol.Rounds.{complete_bootstrap_at_frame_boundary}
use hypersync.Protocol.Frames.{max_frame}
use hypersync.Gateway.Cache.{CacheSink, install_bootstrap_cache, max_bootstrap_capture_bytes}

abbrev pub relay_buffer : ℕ
relay_buffer = 1_048_576

-- What the read of a part of a payload gives (nothing: the upstream is gone), when it begins, and
-- whether the node takes it.
pub record Chunk : Type 0 where
  pub now : ℕ
  pub bytes : List ℕ
  pub written : Bool

-- The read of a header: in time; late, and then whether the rest of it comes; or failed.
pub data HeaderRead : Type 0 where
  in_time : ℕ → ℕ → ℕ → ℕ → ℕ → HeaderRead
  late : ℕ → ℕ → ℕ → ℕ → ℕ → HeaderRead
  timed_out : HeaderRead
  failed : HeaderRead

-- One frame as it comes: when the loop begins and ends with it, the time in seconds, and whether the
-- node takes its header and the prefix.
pub record Arrival : Type 0 where
  pub begins : ℕ
  pub ends : ℕ
  pub unix_secs : ℕ
  pub head : HeaderRead
  pub header_written : Bool
  pub prefix_written : Bool
  pub chunks : List Chunk

pub data End : Type 0 where
  upstream_gone : End
  node_gone : End

-- `tap` is what is captured so far, none once the capture stopped; `delivered` counts the bytes that
-- the node took.
pub record Tap : Type 0 where
  pub tap : Option (List ℕ)
  pub frames : ℕ
  pub win : ℕ
  pub win_bytes : ℕ
  pub slow : ℕ
  pub capture_deadline : ℕ
  pub delivered : ℕ
  pub sink : CacheSink

pub data Progress : Type 0 where
  go_on : Tap → Progress
  ended : End → Tap → Progress

-- Before the first frame.
unfoldable pub start : ℕ → ℕ → CacheSink → Tap
start now capture_deadline sink = record {
  tap = some [];
  frames = 0;
  win = now;
  win_bytes = 0;
  slow = 0;
  capture_deadline = capture_deadline;
  delivered = 0;
  sink = sink;
}

abbrev pub extended : List ℕ → Option (List ℕ) → Option (List ℕ)
extended bytes none = none
extended bytes (some blob) = some (blob ++ bytes)

unfoldable pub drop_slow_capture : ℕ → Tap → Tap
drop_slow_capture now t = if leb t.capture_deadline now then record t { tap = none } else t

-- The node took the bytes.
unfoldable pub deliver : List ℕ → Tap → Tap
deliver bytes t = record t { tap = extended bytes t.tap; delivered = t.delivered + length bytes }

-- The loop over the rest of a payload.
unfoldable pub read_chunks : ℕ → List Chunk → Tap → Progress
unfolding drop_slow_capture deliver
read_chunks remaining [] t = if remaining == 0 then go_on t else ended upstream_gone t
read_chunks remaining (c ∷ chunks) t = elim (remaining == 0) [
  | true ↦ go_on t
  | false ↦
      let got = take (min remaining relay_buffer) c.bytes in
      let t' = drop_slow_capture c.now t in
      elim (length got == 0) [
        | true ↦ ended upstream_gone t'
        | false ↦ elim c.written [
          | false ↦ ended node_gone t'
          | true ↦ read_chunks (remaining - length got) chunks (deliver got t')
        ]
      ]
]

-- The capture stops if the next frame would make it too large.
unfoldable pub bound_capture : ℕ → Tap → Tap
bound_capture len t = elim t.tap [
  | none ↦ t
  | some blob ↦
      if ltb max_bootstrap_capture_bytes (length blob + 5 + len) then record t { tap = none } else t
]

-- Is what is captured a complete bootstrap?
unfoldable pub is_complete : Tap → Bool
is_complete t = elim t.tap [
  | none ↦ false
  | some blob ↦ complete_bootstrap_at_frame_boundary (length blob) t.frames
]

module _ (decompress_size_prepended : List ℕ → Option (List ℕ)) where
  -- The capture is installed and stops.
  unfoldable pub install : ℕ → Tap → Tap
  install unix_secs t = elim t.tap [
    | none ↦ t
    | some blob ↦ record t {
      tap = none;
      sink = install_bootstrap_cache decompress_size_prepended blob unix_secs t.sink;
    }
  ]

  -- The rate of the last window, and the end of the bulk transfer.
  unfoldable pub end_window : ℕ → ℕ → List ℕ → Tap → Tap
  unfolding install is_complete
  end_window now unix_secs blob t =
      let el = now - t.win in
      if ltb el 1_500_000_000
      then t
      else let t' = record t { win = now; win_bytes = 0 } in
        if ltb 1_500_000_000 (length blob) && ltb (t.win_bytes * 1_000_000_000) (400_000 * el)
        then (let t'' = record t' { slow = t.slow + 1 } in
            if leb 8 t''.slow && is_complete t'' then install unix_secs t'' else t'')
        else record t' { slow = 0 }

  unfoldable pub end_frame : ℕ → Arrival → Tap → Tap
  unfolding end_window
  end_frame len a t =
      let t' = record t { frames = t.frames + 1 } in
      elim t.tap [
        | none ↦ t'
        | some blob ↦
            if ltb max_bootstrap_capture_bytes (length blob)
            then record t' { tap = none }
            else end_window a.ends a.unix_secs blob
                (record t' { win_bytes = t.win_bytes + (5 + len) })
      ]

  -- A payload whose first bytes came with the header, from there on.
  unfoldable pub relay_payload : ℕ → List ℕ → Arrival → Tap → Progress
  unfolding read_chunks end_frame
  relay_payload len prefix a t =
      if ltb len (length prefix)
      then ended upstream_gone t
      else if not (length prefix == 0) && not a.prefix_written
      then ended node_gone t
      else elim (read_chunks (len - length prefix) a.chunks (deliver prefix t)) [
        | ended e t' ↦ ended e t'
        | go_on t' ↦ go_on (end_frame len a t')
      ]

  unfoldable pub relay_frame : ℕ → ℕ → ℕ → ℕ → ℕ → List ℕ → Arrival → Tap → Progress
  unfolding relay_payload bound_capture deliver
  relay_frame b0 b1 b2 b3 typ prefix a t =
      let len = from_be_bytes b0 b1 b2 b3 in
      if ltb max_frame len
      then ended upstream_gone t
      else let t' = bound_capture len t in
        if not a.header_written
        then ended node_gone t'
        else relay_payload len prefix a (deliver (b0 ∷ b1 ∷ b2 ∷ b3 ∷ typ ∷ []) t')

  -- A later frame: its header first.
  unfoldable pub relay_head : HeaderRead → Arrival → Tap → Progress
  unfolding relay_frame install is_complete
  relay_head (in_time b0 b1 b2 b3 typ) a t = relay_frame b0 b1 b2 b3 typ [] a t
  relay_head (late b0 b1 b2 b3 typ) a t =
      if is_complete t
      then relay_frame b0 b1 b2 b3 typ [] a (install a.unix_secs t)
      else ended upstream_gone t
  relay_head timed_out a t =
      ended upstream_gone (if is_complete t then install a.unix_secs t else t)
  relay_head failed a t = ended upstream_gone (if is_complete t then install a.unix_secs t else t)

  unfoldable pub relay_next : Arrival → Tap → Progress
  unfolding relay_head drop_slow_capture
  relay_next a t = relay_head a.head a (drop_slow_capture a.begins t)

  unfoldable pub relay_rest : List Arrival → Tap → Progress
  unfolding relay_next
  relay_rest [] t = go_on t
  relay_rest (a ∷ arrivals) t = elim (relay_next a t) [
    | ended e t' ↦ ended e t'
    | go_on t' ↦ relay_rest arrivals t'
  ]

  -- The whole relay: the first frame, whose header and first bytes were read before, and the others.
  unfoldable pub relay : ℕ → ℕ → ℕ → ℕ → ℕ → List ℕ → Arrival → List Arrival → Tap → Progress
  unfolding relay_rest relay_frame drop_slow_capture
  relay b0 b1 b2 b3 typ prefix a arrivals t =
      elim (relay_frame b0 b1 b2 b3 typ prefix a (drop_slow_capture a.begins t)) [
        | ended e t' ↦ ended e t'
        | go_on t' ↦ relay_rest arrivals t'
      ]
