-- ===== src/Gateway/Cache/Tap/Loads.antt =====
-- What the tap of a relay captures and installs is a whole bootstrap (src/gateway/cache.rs).
use hypersync.Prelude.{
  ℕ, suc, ◌+◌, ◌-◌, ◌*◌, ◌≤◌, ◌≡◌, refl, subst, inl, inr, true, false, ◌&&◌, Option, none, some,
  List, [], ◌∷◌, ◌++◌, leb, ltb, if◌then◌else◌, length, from_be_bytes, length-append, append_assoc,
  Bool-cases, Option-cases, arith,
}
use hypersync.Protocol.Rounds.{complete_bootstrap_at_frame_boundary, min_complete_bootstrap_bytes}
use hypersync.Protocol.Frames.{max_frame, complete_frame_count}
use hypersync.Protocol.Frames.Count.{Framed, Framed-snoc, complete_frame_count-Framed}
use hypersync.Gateway.Cache.{
  max_bootstrap_capture_bytes, has_live_tail, install_bootstrap_cache, load_bootstrap_cache,
  is_bootstrap_cache_fresh, loaded, refused, too_old,
}
use hypersync.Gateway.Cache.Tap.{
  Arrival, Tap, Progress, go_on, ended, bound_capture, is_complete, install, end_window, end_frame,
  extended,
}
use hypersync.Gateway.Cache.Tap.Framing.{Extends, IsSame}

-- A capture in progress: whole frames, as many as the relay counts, within the limit.
abbrev pub Holds : ℕ → Option (List ℕ) → Type 0
Holds frames none = Unit
Holds frames (some blob) = Framed blob frames × (length blob ≤ max_bootstrap_capture_bytes)

module _ (decompress_size_prepended : List ℕ → Option (List ℕ)) where
  -- A blob of which a file is loaded, whenever it is read while it is fresh.
  abbrev pub LoadsBack : List ℕ → Type 0
  LoadsBack blob =
      (cached_at now : ℕ)
      → load_bootstrap_cache decompress_size_prepended (some (cached_at, blob)) now ≡ (
          if is_bootstrap_cache_fresh now cached_at then loaded blob cached_at else refused too_old)

  abbrev pub IsCached : Option (List ℕ) → Type 0
  IsCached none = Unit
  IsCached (some blob) = LoadsBack blob × (length blob ≤ max_bootstrap_capture_bytes)

  abbrev pub IsSound : Tap → Type 0
  IsSound t = Holds t.frames t.tap × IsCached t.sink.boot_blob

  -- The relay between two frames; where it ended, the capture may be cut in a frame.
  abbrev pub IsTapped : Progress → Type 0
  IsTapped (go_on t) = IsSound t
  IsTapped (ended e t) = IsCached t.sink.boot_blob

  pub Framed-LoadsBack :
      (blob : List ℕ) (frames : ℕ)
      → Framed blob frames
      → complete_bootstrap_at_frame_boundary (length blob) frames ≡ true
      → has_live_tail decompress_size_prepended blob ≡ true
      → LoadsBack blob
  unfolding load_bootstrap_cache complete_bootstrap_at_frame_boundary
  Framed-LoadsBack blob frames f complete tail cached_at now =
      elim (Bool-cases (is_bootstrap_cache_fresh now cached_at)) [
        | inr old ↦ rw old refl
        | inl fresh ↦
            let big : ltb (length blob) min_complete_bootstrap_bytes ≡ false = ground arith in
            let counted : complete_frame_count blob ≡ some frames =
              (complete_frame_count-Framed blob frames).1 f in
            rw (fresh, big, counted, complete, tail) refl
      ]

  pub install-IsCached :
      (unix_secs : ℕ) (t : Tap)
      → IsSound t
      → is_complete t ≡ true
      → IsCached (install decompress_size_prepended unix_secs t).sink.boot_blob
  unfolding install is_complete install_bootstrap_cache
  install-IsCached unix_secs t (held, cached) complete = elim (Option-cases t.tap) [
    | inl stopped ↦ rw (stopped, install) cached
    | inr (blob, e) ↦
        let (f, small) : Holds t.frames (some blob) = rw e at held in
        let whole : complete_bootstrap_at_frame_boundary (length blob) t.frames ≡ true =
          rw (e, is_complete) at complete in
        elim (Bool-cases (has_live_tail decompress_size_prepended blob)) [
          | inr bare ↦ rw (e, install, bare) cached
          | inl tail ↦ rw (e, install, tail) (Framed-LoadsBack blob t.frames f whole tail, small)
        ]
  ]

  install-Holds :
      (unix_secs frames : ℕ) (t : Tap)
      → Holds frames (install decompress_size_prepended unix_secs t).tap
  unfolding install
  install-Holds unix_secs frames t = elim (Option-cases t.tap) [
    | inl stopped ↦ rw (install, stopped) (rw stopped tt)
    | inr (blob, e) ↦ rw (install, e) tt
  ]

  pub install-IsSound :
      (unix_secs : ℕ) (t : Tap)
      → IsSound t
      → is_complete t ≡ true
      → IsSound (install decompress_size_prepended unix_secs t)
  install-IsSound unix_secs t h complete =
      (install-Holds unix_secs _ t, install-IsCached unix_secs t h complete)

  end_window-IsSound :
      (now unix_secs : ℕ) (blob : List ℕ) (t : Tap)
      → IsSound t
      → IsSound (end_window decompress_size_prepended now unix_secs blob t)
  unfolding end_window
  end_window-IsSound now unix_secs blob t h =
      let el = now - t.win in
      let t'' = record t { win = now; win_bytes = 0; slow = t.slow + 1 } in
      elim (Bool-cases (ltb el 1_500_000_000)) [
        | inl early ↦ rw early h
        | inr over ↦
            elim (Bool-cases (
              ltb 1_500_000_000 (length blob)
              && ltb (t.win_bytes * 1_000_000_000) (400_000 * el))) [
                | inr fast ↦ rw (over, fast) h
                | inl trickles ↦ elim (Bool-cases (leb 8 (t.slow + 1) && is_complete t'')) [
                  | inr unfinished ↦ rw (over, trickles, unfinished) h
                  | inl finished ↦
                      rw (over, trickles, finished) (install-IsSound unix_secs t'' h (ground arith))
                ]
              ]
      ]

  pub end_frame-IsSound :
      (len : ℕ) (a : Arrival) (t : Tap)
      → Holds (t.frames + 1) t.tap
      → IsCached t.sink.boot_blob
      → IsSound (end_frame decompress_size_prepended len a t)
  unfolding end_frame
  end_frame-IsSound len a t held cached = elim (Option-cases t.tap) [
    | inl stopped ↦ rw (stopped, end_frame) (rw stopped tt, cached)
    | inr (blob, e) ↦ elim (Bool-cases (ltb max_bootstrap_capture_bytes (length blob))) [
      | inl over ↦ rw (e, end_frame, over) (tt, cached)
      | inr fits ↦
          rw (e, end_frame, fits)
            (end_window-IsSound a.ends a.unix_secs blob
              (record t { frames = t.frames + 1; win_bytes = t.win_bytes + (5 + len) })
              (held, cached))
    ]
  ]

-- The next frame fits the capture.
abbrev pub Fits : ℕ → Option (List ℕ) → Type 0
Fits len none = Unit
Fits len (some blob) = length blob + 5 + len ≤ max_bootstrap_capture_bytes

pub bound_capture-Fits : (len : ℕ) (t : Tap) → Fits len (bound_capture len t).tap
unfolding bound_capture
bound_capture-Fits len t = elim (Option-cases t.tap) [
  | inl stopped ↦ rw (stopped, bound_capture) (rw stopped tt)
  | inr (blob, e) ↦ elim (Bool-cases (ltb max_bootstrap_capture_bytes (length blob + 5 + len))) [
    | inl over ↦ rw (e, bound_capture, over) tt
    | inr fits ↦ rw (e, bound_capture, fits) (rw e (ground arith))
  ]
]

-- It changes the capture alone, and at most by stopping it.
pub bound_capture-Holds :
    (len frames : ℕ) (t : Tap) → Holds frames t.tap → Holds frames (bound_capture len t).tap
unfolding bound_capture
bound_capture-Holds len frames t h = elim (Option-cases t.tap) [
  | inl stopped ↦ rw (stopped, bound_capture) h
  | inr (blob, e) ↦ elim (Bool-cases (ltb max_bootstrap_capture_bytes (length blob + 5 + len))) [
    | inl over ↦ rw (e, bound_capture, over) tt
    | inr fits ↦ rw (e, bound_capture, fits) h
  ]
]

pub bound_capture-IsSame : (len : ℕ) (t : Tap) → IsSame t (bound_capture len t)
unfolding bound_capture
bound_capture-IsSame len t = elim (Option-cases t.tap) [
  | inl stopped ↦ rw (stopped, bound_capture) (refl, refl)
  | inr (blob, e) ↦ elim (Bool-cases (ltb max_bootstrap_capture_bytes (length blob + 5 + len))) [
    | inl over ↦ rw (e, bound_capture, over) (refl, refl)
    | inr fits ↦ rw (e, bound_capture, fits) (refl, refl)
  ]
]

-- A frame that was captured whole.
pub frame-Holds :
    (frames b0 b1 b2 b3 typ : ℕ) (old new : Option (List ℕ))
    → Holds frames old
    → Fits (from_be_bytes b0 b1 b2 b3) old
    → from_be_bytes b0 b1 b2 b3 ≤ max_frame
    → Extends (from_be_bytes b0 b1 b2 b3) (extended (b0 ∷ b1 ∷ b2 ∷ b3 ∷ typ ∷ []) old) new
    → Holds (frames + 1) new
frame-Holds frames b0 b1 b2 b3 typ old none h fits small e = tt
frame-Holds frames b0 b1 b2 b3 typ none (some c) h fits small e = absurd e
frame-Holds frames b0 b1 b2 b3 typ (some b) (some c) (f, bound) fits small (got, p, size) =
    let next : suc frames ≡ frames + 1 = omega arith in
    let q : c ≡ b ++ (b0 ∷ b1 ∷ b2 ∷ b3 ∷ typ ∷ got) =
      rw p (append_assoc b (b0 ∷ b1 ∷ b2 ∷ b3 ∷ typ ∷ []) got) in
    (
      subst (λ n. Framed c n) next (rw q (Framed-snoc b0 b1 b2 b3 typ got f size (omega arith))),
      rw q (omega (arith, length-append {0} b (b0 ∷ b1 ∷ b2 ∷ b3 ∷ typ ∷ got))),
    )
