-- ===== src/Gateway/Cache/Tap/Whole.antt =====
-- A whole relay of a bootstrap, and the cache that it leaves (src/gateway/cache.rs,
-- splice_bootstrap_capture).
use hypersync.Prelude.{
  ℕ, ◌-◌, ◌≤◌, inl, inr, ◌&&◌, not, Option, List, [], ◌∷◌, leb, ltb, ◌==◌, if◌then◌else◌, length,
  from_be_bytes, Bool-cases, arith,
}
use hypersync.Protocol.Frames.{max_frame}
use hypersync.Protocol.Frames.Count.{no_frame}
use hypersync.Gateway.Cache.{CacheSink}
use hypersync.Gateway.Cache.Tap.{
  Arrival, HeaderRead, in_time, late, timed_out, failed, Tap, Progress, go_on, ended, End,
  drop_slow_capture, deliver, read_chunks, bound_capture, is_complete, install, end_frame,
  relay_payload, relay_frame, relay_head, relay_next, start, upstream_gone, relay_rest, relay,
}
use hypersync.Gateway.Cache.Tap.Framing.{IsRead, IsRead-then, deliver-IsRead, read_chunks-IsRead}
use hypersync.Gateway.Cache.Tap.Loads.{
  Holds, IsCached, IsSound, IsTapped, Fits, bound_capture-Fits, bound_capture-Holds,
  bound_capture-IsSame, frame-Holds, install-IsCached, install-IsSound, end_frame-IsSound,
}

drop_slow_capture-Holds :
    (now frames : ℕ) (t : Tap) → Holds frames t.tap → Holds frames (drop_slow_capture now t).tap
unfolding drop_slow_capture
drop_slow_capture-Holds now frames t h = elim (Bool-cases (leb t.capture_deadline now)) [
  | inl over ↦ rw over tt
  | inr early ↦ rw early h
]

module _ (decompress_size_prepended : List ℕ → Option (List ℕ)) where
  drop_slow_capture-IsSound :
      (now : ℕ) (t : Tap)
      → IsSound decompress_size_prepended t
      → IsSound decompress_size_prepended (drop_slow_capture now t)
  unfolding drop_slow_capture
  drop_slow_capture-IsSound now t h = elim (Bool-cases (leb t.capture_deadline now)) [
    | inl over ↦ rw over (tt, h.1)
    | inr early ↦ rw early h
  ]

  relay_payload-IsTapped :
      (b0 b1 b2 b3 typ : ℕ) (prefix : List ℕ) (a : Arrival) (t : Tap)
      → IsSound decompress_size_prepended t
      → Fits (from_be_bytes b0 b1 b2 b3) t.tap
      → from_be_bytes b0 b1 b2 b3 ≤ max_frame
      → IsTapped decompress_size_prepended (
          relay_payload decompress_size_prepended
            (from_be_bytes b0 b1 b2 b3)
            prefix
            a
            (deliver (b0 ∷ b1 ∷ b2 ∷ b3 ∷ typ ∷ []) t))
  unfolding relay_payload deliver
  relay_payload-IsTapped b0 b1 b2 b3 typ prefix a t (held, cached) fits small =
      let len = from_be_bytes b0 b1 b2 b3 in
      let u = deliver (b0 ∷ b1 ∷ b2 ∷ b3 ∷ typ ∷ []) t in
      elim (Bool-cases (ltb len (length prefix))) [
        | inl long ↦ rw long cached
        | inr short ↦ elim (Bool-cases (not (length prefix == 0) && not a.prefix_written)) [
          | inl lost ↦ rw (short, lost) cached
          | inr taken ↦
              rw (short, taken)
                (go (read_chunks (len - length prefix) a.chunks (deliver prefix u)) (
                  IsRead-then (length prefix) (len - length prefix) len u (deliver prefix u) _
                    (ground arith) (deliver-IsRead prefix u)
                    (read_chunks-IsRead (len - length prefix) a.chunks (deliver prefix u))))
        ]
      ]
    where
      go :
          (p : Progress)
          → IsRead (from_be_bytes b0 b1 b2 b3) (deliver (b0 ∷ b1 ∷ b2 ∷ b3 ∷ typ ∷ []) t) p
          → IsTapped decompress_size_prepended (elim p [
            | ended e v ↦ ended e v
            | go_on v ↦ go_on (end_frame decompress_size_prepended (from_be_bytes b0 b1 b2 b3) a v)
          ])
      go (ended e v) same = rw same cached
      go (go_on v) (more, (count, same)) =
          end_frame-IsSound decompress_size_prepended (from_be_bytes b0 b1 b2 b3) a v
            (rw count (frame-Holds t.frames b0 b1 b2 b3 typ t.tap v.tap held fits small more))
            (rw same cached)

  relay_frame-IsTapped :
      (b0 b1 b2 b3 typ : ℕ) (prefix : List ℕ) (a : Arrival) (t : Tap)
      → IsSound decompress_size_prepended t
      → IsTapped decompress_size_prepended
          (relay_frame decompress_size_prepended b0 b1 b2 b3 typ prefix a t)
  unfolding relay_frame
  relay_frame-IsTapped b0 b1 b2 b3 typ prefix a t (held, cached) =
      let len = from_be_bytes b0 b1 b2 b3 in
      let (count, same) = bound_capture-IsSame len t in
      let bounded : IsSound decompress_size_prepended (bound_capture len t) =
        (rw count (bound_capture-Holds len t.frames t held), rw same cached) in
      elim (Bool-cases (ltb max_frame len)) [
        | inl big ↦ rw big cached
        | inr fits ↦ elim (Bool-cases a.header_written) [
          | inr lost ↦ rw (fits, lost) bounded.1
          | inl taken ↦
              rw (fits, taken)
                (relay_payload-IsTapped b0 b1 b2 b3 typ prefix a (bound_capture len t) bounded
                  (bound_capture-Fits len t) (ground arith))
        ]
      ]

  -- A relay that lost its upstream, with what it captured installed if that is complete.
  lost-IsTapped :
      (e : End) (unix_secs : ℕ) (t : Tap)
      → IsSound decompress_size_prepended t
      → IsTapped decompress_size_prepended
          (ended e (if is_complete t then install decompress_size_prepended unix_secs t else t))
  lost-IsTapped e unix_secs t h = elim (Bool-cases (is_complete t)) [
    | inl complete ↦ rw complete (install-IsCached decompress_size_prepended unix_secs t h complete)
    | inr partial ↦ rw partial h.1
  ]

  relay_head-IsTapped :
      (head : HeaderRead) (a : Arrival) (t : Tap)
      → IsSound decompress_size_prepended t
      → IsTapped decompress_size_prepended (relay_head decompress_size_prepended head a t)
  unfolding relay_head
  relay_head-IsTapped (in_time b0 b1 b2 b3 typ) a t h =
      relay_frame-IsTapped b0 b1 b2 b3 typ [] a t h
  relay_head-IsTapped (late b0 b1 b2 b3 typ) a t h = elim (Bool-cases (is_complete t)) [
    | inr partial ↦ rw partial h.1
    | inl complete ↦ rw complete (
        relay_frame-IsTapped b0 b1 b2 b3 typ [] a (install decompress_size_prepended a.unix_secs t)
          (install-IsSound decompress_size_prepended a.unix_secs t h complete))
  ]
  relay_head-IsTapped timed_out a t h = lost-IsTapped upstream_gone a.unix_secs t h
  relay_head-IsTapped failed a t h = lost-IsTapped upstream_gone a.unix_secs t h

  relay_rest-IsTapped :
      (arrivals : List Arrival) (t : Tap)
      → IsSound decompress_size_prepended t
      → IsTapped decompress_size_prepended (relay_rest decompress_size_prepended arrivals t)
  unfolding relay_rest relay_next
  relay_rest-IsTapped [] t h = h
  relay_rest-IsTapped (a ∷ arrivals) t h =
      let now = drop_slow_capture a.begins t in
      go (relay_head decompress_size_prepended a.head a now)
        (relay_head-IsTapped a.head a now (drop_slow_capture-IsSound a.begins t h))
        (λ u k. relay_rest-IsTapped arrivals u k)
    where
      go :
          (p : Progress)
          → IsTapped decompress_size_prepended p
          → ((u : Tap)
              → IsSound decompress_size_prepended u
              → IsTapped decompress_size_prepended
                  (relay_rest decompress_size_prepended arrivals u))
          → IsTapped decompress_size_prepended (elim p [
            | ended e u ↦ ended e u
            | go_on u ↦ relay_rest decompress_size_prepended arrivals u
          ])
      go (ended e u) k on = k
      go (go_on u) k on = on u k

  -- However the frames of a bootstrap come, and whatever the node takes of them: if the cached blob, if
  -- any, is a good one and the tap starts empty, then so is the cached blob after it: a file of it is
  -- loaded whenever it is fresh, and it is within the capture limit. And between two frames a capture
  -- in progress is as many whole frames as were relayed, within that limit.
  pub relay-IsTapped :
      (b0 b1 b2 b3 typ : ℕ) (prefix : List ℕ) (a : Arrival) (arrivals : List Arrival)
      (now capture_deadline : ℕ) (sink : CacheSink)
      → IsCached decompress_size_prepended sink.boot_blob
      → IsTapped decompress_size_prepended (
          relay decompress_size_prepended b0 b1 b2 b3 typ prefix a arrivals
            (start now capture_deadline sink))
  unfolding relay start
  relay-IsTapped b0 b1 b2 b3 typ prefix a arrivals now capture_deadline sink cached =
      let t = drop_slow_capture a.begins (start now capture_deadline sink) in
      go (relay_frame decompress_size_prepended b0 b1 b2 b3 typ prefix a t) (
        relay_frame-IsTapped b0 b1 b2 b3 typ prefix a t (
          drop_slow_capture-IsSound a.begins (start now capture_deadline sink)
            ((no_frame, omega arith), cached)))
    where
      go :
          (p : Progress)
          → IsTapped decompress_size_prepended p
          → IsTapped decompress_size_prepended (elim p [
            | ended e u ↦ ended e u
            | go_on u ↦ relay_rest decompress_size_prepended arrivals u
          ])
      go (ended e u) k = k
      go (go_on u) k = relay_rest-IsTapped arrivals u k
