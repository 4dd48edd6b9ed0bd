-- ===== src/Push/Live/Session/Whole.antt =====
-- A whole push session (src/push/live.rs, serve_push) and what its node gets.
use Prim.Native.String.{String}
use hypersync.Prelude.{
  ℕ, ◌<◌, ◌≡◌, refl, ap, inl, inr, Bool, true, false, Option, none, List, [], ◌∷◌, ◌++◌, u32_max,
  Climbs, Climbs-append, Option-cases, arith,
}
use hypersync.Protocol.Forward.{RoundForwardGate, with_last_forwarded}
use hypersync.Protocol.Forward.Monotone.{IsBehind, with_last_forwarded-IsBehind}
use hypersync.Push.Freshest
use hypersync.Push.Freshest.{FreshestRound}
use hypersync.Push.Progress.{check}
use hypersync.Push.Live.{Outside, process_live_frame}
use hypersync.Push.Live.Session.{
  Activity, pumped, stall_tick, other_end, Session, Served, session_after, and_then, check_stall,
  start, start_pump, act, run, run_prefetched, serve_push,
}
use hypersync.Push.Live.Session.Relays.{
  is_some, AreSmall, read_frames, ended, round_of, block_rounds, Relays, done, cut, relayed,
  dropped, IsFaithful,
}
use hypersync.Push.Live.Session.Faithful.{process_live_frame-Handles, pump-Relayed}

module _ (decompress_size_prepended : List ℕ → Option (List ℕ)) where
  Relays-append :
      (b : Bool) (xs ys us vs : List (List ℕ))
      → Relays decompress_size_prepended false xs us
      → Relays decompress_size_prepended b ys vs
      → Relays decompress_size_prepended b (xs ++ ys) (us ++ vs)
  Relays-append b _ ys _ vs done k = k
  Relays-append b _ ys _ vs (cut frames e) k = absurd (cc)
  Relays-append b _ ys _ vs (relayed f frames sent h) k =
      relayed f (frames ++ ys) (sent ++ vs) (Relays-append b frames ys sent vs h k)
  Relays-append b _ ys us vs (dropped f r frames sent e h) k =
      dropped f r (frames ++ ys) (sent ++ vs) e (Relays-append b frames ys sent vs h k)

  Relays-cut :
      (xs ys us : List (List ℕ))
      → Relays decompress_size_prepended true xs us
      → Relays decompress_size_prepended true (xs ++ ys) us
  Relays-cut _ ys _ done = cut ys refl
  Relays-cut _ ys _ (cut frames e) = cut (frames ++ ys) refl
  Relays-cut _ ys _ (relayed f frames sent h) =
      relayed f (frames ++ ys) sent (Relays-cut frames ys sent h)
  Relays-cut _ ys us (dropped f r frames sent e h) =
      dropped f r (frames ++ ys) sent e (Relays-cut frames ys sent h)

  block_rounds-append :
      (xs ys : List (List ℕ))
      → block_rounds decompress_size_prepended (xs ++ ys)
        ≡ block_rounds decompress_size_prepended xs ++ block_rounds decompress_size_prepended ys
  block_rounds-append [] ys = refl
  block_rounds-append (x ∷ xs) ys = elim (Option-cases (round_of decompress_size_prepended x)) [
    | inl plain ↦ rw plain (block_rounds-append xs ys)
    | inr (r, e) ↦ rw e (ap (λ t. r ∷ t) (block_rounds-append xs ys))
  ]

  abbrev IsServed : List (List ℕ) → RoundForwardGate → Served → Type 0
  IsServed frames g o =
      IsFaithful decompress_size_prepended frames g.last_forwarded o.session.stream.gate o.sent
        o.fault

  and_then-IsServed :
      (xs ys : List (List ℕ)) (g : RoundForwardGate) (o : Served) (k : Session → Served)
      → IsServed xs g o
      → IsServed ys o.session.stream.gate (k o.session)
      → IsServed (xs ++ ys) g (and_then o k)
  and_then-IsServed xs ys g o k h j = elim (Option-cases o.fault) [
    | inr (e, faulty) ↦ rw faulty (record {
      relays = Relays-cut xs ys o.sent (rw faulty at h.relays);
      behind = h.behind;
      climbs = h.climbs;
    })
    | inl on ↦ rw on (record {
      relays = Relays-append _ xs ys o.sent (k o.session).sent (rw on at h.relays) j.relays;
      behind = j.behind;
      climbs =
          rw (block_rounds-append o.sent (k o.session).sent) (
            Climbs-append _ _ _ (block_rounds decompress_size_prepended o.sent) _ h.climbs
              j.climbs);
    })
  ]

  check_stall-IsServed :
      (env : Outside) (s : Session)
      → IsBehind s.stream.gate
      → IsServed [] s.stream.gate (check_stall env s)
  unfolding check_stall
  check_stall-IsServed env s h = elim (Option-cases env.freshest) [
    | inl alone ↦
        rw (alone, check_stall) (record { relays = done; behind = h; climbs = omega arith })
    | inr (f, shared) ↦
        let c =
          check s.stream.own (Freshest.get env.now f) env.node_backed_up env.now s.stalled_behind in
        elim (Option-cases c.1) [
          | inl near ↦
              rw (shared, check_stall, near)
                (record { relays = done; behind = h; climbs = omega arith })
          | inr (b, far) ↦
              rw (shared, check_stall, far)
                (record { relays = done; behind = h; climbs = omega arith })
        ]
  ]

  abbrev pub activity_frames : Activity → List (List ℕ)
  activity_frames (pumped before read env) = read_frames read
  activity_frames (stall_tick env) = []
  activity_frames other_end = []

  -- The frames that come after the prefetched ones, in order.
  abbrev pub frames_of : List Activity → List (List ℕ)
  frames_of [] = []
  frames_of (a ∷ activities) = activity_frames a ++ frames_of activities

  abbrev pub prefetched_of : List (List ℕ × Outside) → List (List ℕ)
  prefetched_of [] = []
  prefetched_of ((frame, env) ∷ frames) = frame ∷ prefetched_of frames

  AreSmall-append :
      (xs ys : List (List ℕ))
      → AreSmall decompress_size_prepended (xs ++ ys)
      → AreSmall decompress_size_prepended xs × AreSmall decompress_size_prepended ys
  AreSmall-append [] ys h = (tt, h)
  AreSmall-append (x ∷ xs) ys h = let (a, b) = AreSmall-append xs ys h.1 in ((h.0, a), b)

  module _ (id : ℕ) (peer : String) where
    act-IsServed :
        (a : Activity) (s : Session)
        → AreSmall decompress_size_prepended (activity_frames a)
        → IsBehind s.stream.gate
        → IsServed (activity_frames a) s.stream.gate (act decompress_size_prepended id peer a s)
    unfolding act
    act-IsServed (pumped before read env) s small h =
        pump-Relayed decompress_size_prepended id peer before read env s.stream small h
    act-IsServed (stall_tick env) s small h = check_stall-IsServed env s h
    act-IsServed other_end s small h = ended decompress_size_prepended _ [] s.stream.gate h

    none-IsServed :
        (s : Session)
        → IsBehind s.stream.gate
        → IsServed [] s.stream.gate (record { session = s; sent = []; fault = none })
    none-IsServed s h = record { relays = done; behind = h; climbs = omega arith }

    run-IsServed :
        (activities : List Activity) (s : Session)
        → AreSmall decompress_size_prepended (frames_of activities)
        → IsBehind s.stream.gate
        → IsServed
            (frames_of activities)
            s.stream.gate
            (run decompress_size_prepended id peer activities s)
    unfolding run
    run-IsServed [] s small h = none-IsServed s h
    run-IsServed (a ∷ activities) s small h =
        let (now, later) = AreSmall-append (activity_frames a) (frames_of activities) small in
        let k = act-IsServed a s now h in
        and_then-IsServed (activity_frames a) (frames_of activities) s.stream.gate
          (act decompress_size_prepended id peer a s)
          (λ t. run decompress_size_prepended id peer activities t) k
          (run-IsServed activities (act decompress_size_prepended id peer a s).session later
            k.behind)

    run_prefetched-IsServed :
        (frames : List (List ℕ × Outside)) (s : Session)
        → AreSmall decompress_size_prepended (prefetched_of frames)
        → IsBehind s.stream.gate
        → IsServed
            (prefetched_of frames)
            s.stream.gate
            (run_prefetched decompress_size_prepended id peer frames s)
    unfolding run_prefetched
    run_prefetched-IsServed [] s small h = none-IsServed s h
    run_prefetched-IsServed ((frame, env) ∷ frames) s small h =
        let o =
          session_after s
            (process_live_frame decompress_size_prepended id peer frame env s.stream) in
        let k : IsServed (frame ∷ []) s.stream.gate o =
          process_live_frame-Handles decompress_size_prepended id peer frame env s.stream small.0
            h in
        and_then-IsServed (frame ∷ []) (prefetched_of frames) s.stream.gate o
          (λ t. run_prefetched decompress_size_prepended id peer frames t) k
          (run_prefetched-IsServed frames o.session small.1 k.behind)

    -- If no frame has the round `u32::MAX` and the node is below it: of the frames that the upstream
    -- sent, prefetched and then live, a session queues each to the node as it is and in order, save
    -- live blocks that it drops, up to the end of the session if that ends with a fault, and else all;
    -- and the rounds of the blocks that it queues ascend strictly, above the node's last round.
    pub serve_push-IsServed :
        (frames : List (List ℕ × Outside)) (now : ℕ) (activities : List Activity)
        (initial_last_forwarded started : ℕ)
        → initial_last_forwarded < u32_max
        → AreSmall decompress_size_prepended (prefetched_of frames ++ frames_of activities)
        → (let o =
              serve_push decompress_size_prepended id peer frames now activities
                (start initial_last_forwarded started) in
            Relays decompress_size_prepended
              (is_some o.fault)
              (prefetched_of frames ++ frames_of activities)
              o.sent
            × Climbs initial_last_forwarded
                (block_rounds decompress_size_prepended o.sent)
                o.session.stream.gate.last_forwarded)
    unfolding serve_push start start_pump with_last_forwarded
    serve_push-IsServed frames now activities initial_last_forwarded started low small =
        let s = start initial_last_forwarded started in
        let (early, late) = AreSmall-append (prefetched_of frames) (frames_of activities) small in
        let h = with_last_forwarded-IsBehind 16_384 initial_last_forwarded low in
        let o = run_prefetched decompress_size_prepended id peer frames s in
        let k = run_prefetched-IsServed frames s early h in
        let all =
          and_then-IsServed (prefetched_of frames) (frames_of activities) s.stream.gate o
            (λ t. run decompress_size_prepended id peer activities (start_pump now t)) k
            (run-IsServed activities (start_pump now o.session) late k.behind) in
        (all.relays, all.climbs)
