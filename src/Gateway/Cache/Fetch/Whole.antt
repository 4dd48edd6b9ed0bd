-- ===== src/Gateway/Cache/Fetch/Whole.antt =====
-- What fetch_bootstrap returns is a whole bootstrap (src/gateway/cache.rs).
use hypersync.Prelude.{
  ℕ, suc, ◌+◌, ◌-◌, ◌*◌, ◌≤◌, ◌≡◌, subst, inl, inr, true, ◌&&◌, Option, none, some, List, [], ◌∷◌,
  ◌++◌, leb, ltb, ◌==◌, length, take, from_be_bytes, length-append, length-take, Bool-cases,
  Option-cases, arith,
}
use hypersync.Protocol.Rounds.{complete_bootstrap_at_frame_boundary}
use hypersync.Protocol.Frames.{max_frame}
use hypersync.Protocol.Frames.Count.{Framed, no_frame, Framed-snoc}
use hypersync.Gateway.Cache.{max_bootstrap_capture_bytes, has_live_tail}
use hypersync.Gateway.Cache.Tap.Loads.{LoadsBack, Framed-LoadsBack}
use hypersync.Gateway.Cache.Fetch.{
  Part, Incoming, Capture, Fetched, capturing, captured, failed, Payload, whole, broken,
  is_complete, read_large, read_small, read_payload, check_window, check_frame, append_frame,
  fetch_frame, fetch_next, fetch_all, fetch_bootstrap, min_bootstrap_rate_bytes_per_sec,
}

abbrev IsPayload : ℕ → Payload → Type 0
IsPayload len (whole payload) = length payload ≡ len
IsPayload len (broken e) = Unit

read_large-IsPayload :
    (len : ℕ) (payload : List ℕ) (parts : List Part)
    → length payload ≤ len
    → IsPayload len (read_large len payload parts)
unfolding read_large
read_large-IsPayload len payload [] h = elim (Bool-cases (leb len (length payload))) [
  | inl all ↦ rw all (ground arith)
  | inr more ↦ rw more tt
]
read_large-IsPayload len payload (p ∷ parts) h =
    let got = take (len - length payload) p.bytes in
    let payload' = payload ++ got in
    let fits : length payload' ≤ len =
      omega
        (arith, length-append {0} payload got, length-take {0} (len - length payload) p.bytes, h) in
    elim (Bool-cases (leb len (length payload))) [
      | inl all ↦ rw (all, read_large) (ground arith)
      | inr more ↦ elim (Bool-cases (length got == 0)) [
        | inl over ↦ rw (more, read_large, over) tt
        | inr some_read ↦
            elim (Bool-cases (
              ltb 4_000_000_000 p.elapsed
              && ltb (length payload' * 1_000_000_000)
                  (min_bootstrap_rate_bytes_per_sec * p.elapsed))) [
                    | inl slow ↦ rw (more, read_large, some_read, slow) tt
                    | inr fast ↦
                        rw (more, read_large, some_read, fast)
                          (read_large-IsPayload len payload' parts fits)
                  ]
      ]
    ]

read_small-IsPayload : (len : ℕ) (small : Option (List ℕ)) → IsPayload len (read_small len small)
read_small-IsPayload len none = tt
read_small-IsPayload len (some bytes) = elim (Bool-cases (length bytes == len)) [
  | inl all ↦ rw all (ground arith)
  | inr less ↦ rw less tt
]

read_payload-IsPayload : (len : ℕ) (i : Incoming) → IsPayload len (read_payload len i)
unfolding read_payload
read_payload-IsPayload len i = elim (Bool-cases (ltb 50_000_000 len)) [
  | inl large ↦ rw large (read_large-IsPayload len [] i.parts (omega arith))
  | inr short ↦ rw short (read_small-IsPayload len i.small)
]

-- A blob of whole frames within the limit.
abbrev pub IsWhole : Capture → Type 0
IsWhole c = Framed c.blob c.frames × (length c.blob ≤ max_bootstrap_capture_bytes)

abbrev pub IsFetched : Fetched → Type 0
IsFetched (capturing c) = IsWhole c
IsFetched (captured blob) =
    (frames : ℕ) × Framed blob frames
    × (complete_bootstrap_at_frame_boundary (length blob) frames ≡ true)
    × (length blob ≤ max_bootstrap_capture_bytes)
IsFetched (failed e) = Unit

check_window-IsFetched : (now : ℕ) (c : Capture) → IsWhole c → IsFetched (check_window now c)
unfolding check_window is_complete
check_window-IsFetched now c (f, small) =
    let el = now - c.win in
    elim (Bool-cases (ltb el 1_500_000_000)) [
      | inl early ↦ rw early (f, small)
      | inr over ↦
          elim (Bool-cases (
            ltb 1_500_000_000 (length c.blob)
            && ltb (c.win_bytes * 1_000_000_000) (400_000 * el))) [
              | inr fast ↦ rw (over, fast) (f, small)
              | inl trickles ↦ elim (Bool-cases (leb 8 (c.slow + 1))) [
                | inr soon ↦ rw (over, trickles, soon) (f, small)
                | inl long ↦
                    elim (Bool-cases
                      (complete_bootstrap_at_frame_boundary (length c.blob) c.frames)) [
                        | inl all ↦ rw (over, trickles, long, all) (c.frames, f, all, small)
                        | inr less ↦ rw (over, trickles, long, less) tt
                      ]
              ]
            ]
    ]

check_frame-IsFetched :
    (len now : ℕ) (c : Capture) → Framed c.blob c.frames → IsFetched (check_frame len now c)
unfolding check_frame
check_frame-IsFetched len now c f =
    elim (Bool-cases (ltb max_bootstrap_capture_bytes (length c.blob))) [
      | inl over ↦ rw over tt
      | inr fits ↦
          elim (Bool-cases (
            leb 900_000_000 (length c.blob)
            && (ltb (length c.blob) 970_000_000
                && ltb (length c.blob * 1_000_000_000)
                    (min_bootstrap_rate_bytes_per_sec * (now - c.started))))) [
                      | inl slow ↦ rw (fits, slow) tt
                      | inr fast ↦
                          rw (fits, fast)
                            (check_window-IsFetched now
                              (record c { win_bytes = c.win_bytes + (5 + len) }) (f, ground arith))
                    ]
    ]

fetch_frame-IsFetched :
    (b0 b1 b2 b3 typ : ℕ) (i : Incoming) (c : Capture)
    → Framed c.blob c.frames
    → IsFetched (fetch_frame b0 b1 b2 b3 typ i c)
unfolding fetch_frame append_frame
fetch_frame-IsFetched b0 b1 b2 b3 typ i c f =
    let len = from_be_bytes b0 b1 b2 b3 in
    elim (Bool-cases (c.first && leb len 4_000_000)) [
      | inl declined ↦ rw declined tt
      | inr serving ↦ elim (Bool-cases (ltb max_frame len)) [
        | inl big ↦ rw (serving, big) tt
        | inr fits ↦ elim (Bool-cases (ltb max_bootstrap_capture_bytes (length c.blob + 5 + len))) [
          | inl over ↦ rw (serving, fits, over) tt
          | inr room ↦
              rw (serving, fits, room)
                (go (ground arith) (read_payload len i) (read_payload-IsPayload len i))
        ]
      ]
    ]
  where
    go :
        from_be_bytes b0 b1 b2 b3 ≤ max_frame
        → (p : Payload) → IsPayload (from_be_bytes b0 b1 b2 b3) p
        → IsFetched (elim p [
          | broken e ↦ failed e
          | whole payload ↦
              check_frame
                (from_be_bytes b0 b1 b2 b3)
                i.now
                (append_frame (from_be_bytes b0 b1 b2 b3) (b0 ∷ b1 ∷ b2 ∷ b3 ∷ typ ∷ []) payload c)
        ])
    go small (broken e) h = tt
    go small (whole payload) h =
        let next : suc c.frames ≡ c.frames + 1 = omega arith in
        check_frame-IsFetched (from_be_bytes b0 b1 b2 b3) i.now
          (append_frame (from_be_bytes b0 b1 b2 b3) (b0 ∷ b1 ∷ b2 ∷ b3 ∷ typ ∷ []) payload c)
          (subst (λ n. Framed (c.blob ++ (b0 ∷ b1 ∷ b2 ∷ b3 ∷ typ ∷ payload)) n) next
            (Framed-snoc b0 b1 b2 b3 typ payload f h (omega arith)))

fetch_next-IsFetched : (i : Incoming) (c : Capture) → IsWhole c → IsFetched (fetch_next i c)
unfolding fetch_next is_complete
fetch_next-IsFetched i c (f, small) = elim (Option-cases i.head) [
  | inr ((b0, b1, b2, b3, typ), came) ↦
      rw (came, fetch_next) (fetch_frame-IsFetched b0 b1 b2 b3 typ i c f)
  | inl lost ↦ elim (Bool-cases (complete_bootstrap_at_frame_boundary (length c.blob) c.frames)) [
    | inl all ↦ rw (lost, fetch_next, all) (c.frames, f, all, small)
    | inr less ↦ rw (lost, fetch_next, less) tt
  ]
]

fetch_all-IsFetched :
    (incoming : List Incoming) (c : Capture) → IsWhole c → IsFetched (fetch_all incoming c)
unfolding fetch_all
fetch_all-IsFetched [] c h = h
fetch_all-IsFetched (i ∷ incoming) c h =
    go (fetch_next i c) (fetch_next-IsFetched i c h) (λ d k. fetch_all-IsFetched incoming d k)
  where
    go :
        (p : Fetched)
        → IsFetched p
        → ((d : Capture) → IsWhole d → IsFetched (fetch_all incoming d))
        → IsFetched (elim p [
          | capturing d ↦ fetch_all incoming d
          | captured blob ↦ captured blob
          | failed e ↦ failed e
        ])
    go (capturing d) k on = on d k
    go (captured blob) k on = k
    go (failed e) k on = tt

-- Whatever a state server sends and however slowly: a capture that is returned is a complete bootstrap
-- of whole frames within the capture limit, and one in progress is of whole frames within it.
pub fetch_bootstrap-IsFetched :
    (now : ℕ) (incoming : List Incoming) → IsFetched (fetch_bootstrap now incoming)
unfolding fetch_bootstrap
fetch_bootstrap-IsFetched now incoming = fetch_all-IsFetched incoming _ (no_frame, omega arith)

module _ (decompress_size_prepended : List ℕ → Option (List ℕ)) where
  -- Such a capture is loaded back from disk, if its tail has live blocks.
  pub captured-LoadsBack :
      (blob : List ℕ)
      → IsFetched (captured blob)
      → has_live_tail decompress_size_prepended blob ≡ true
      → LoadsBack decompress_size_prepended blob
  captured-LoadsBack blob (frames, f, all, small) tail =
      Framed-LoadsBack decompress_size_prepended blob frames f all tail
