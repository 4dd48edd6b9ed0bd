-- ===== src/Failover/Session/Served.antt =====
-- A whole failover session (src/failover/session.rs, serve_failover).
use Prim.Native.String.{String}
use hypersync.Prelude.{
  Climbs, ℕ, ◌<◌, ◌≡◌, refl, inl, inr, Bool, true, false, Option, List, [], ◌∷◌, ◌==◌,
  if◌then◌else◌, u32_max, subst, Bool-cases, Option-cases, arith,
}
use hypersync.Maps.{lookup, put}
use hypersync.Maps.Entries.{AllEntries-put, lookup-AllEntries}
use hypersync.Priority
use hypersync.Failover.Upstream
use hypersync.Failover.Upstream.{Upstream}
use hypersync.Failover.Core
use hypersync.Failover.Core.{Core, add_standby, mark_preferred}
use hypersync.Failover.Core.Bounds.{AllBounded}
use hypersync.Failover.Session.{
  FailoverConfig, Outside, Event, frame, closed, connected, connect_failed, node_bytes, node_closed,
  writer_ended, tick, Session, Outcome, start,
}
use hypersync.Failover.Session.Run.{
  on_closed, on_connected, on_connect_failed, on_node_bytes, step, run, run_prefetched, serve,
}
use hypersync.Failover.Session.Blocks.{on_prefetched}
use hypersync.Failover.Session.Kept.{IsKept, AllKept}
use hypersync.Failover.Session.Replayed.{block_rounds}
use hypersync.Failover.Session.Climbs.{IsSound, IsFine, At, stay-IsFine, drop_upstream-At}
use hypersync.Failover.Session.Handled.{
  IsSmall, mark_dead-At, on_frame-IsFine, on_prefetched-IsFine,
}
use hypersync.Failover.Session.Ticked.{and_then-IsFine, on_tick-IsFine}

module _ (classify : List ℕ → Option (ℕ × ℕ × ℕ)) where
  new-IsKept : (ip : String) → IsKept classify (Upstream.new ip)
  unfolding Upstream.new
  new-IsKept ip = record {
    bounded = record {
      held = record { ascending = tt; counted = refl };
      few = omega arith;
      small = omega arith;
    };
    fitting = tt;
  }

  add_standby-IsSound :
      (id : ℕ) (ip : String) (c : Core)
      → IsSound classify c
      → IsSound classify (add_standby id ip c)
  unfolding add_standby
  add_standby-IsSound id ip c h = record {
    kept =
        AllEntries-put (λ i u. IsKept classify u) id (Upstream.new ip) c.ups (new-IsKept ip) h.kept;
    small = h.small;
  }

  preferred-IsKept :
      (u : Upstream) → IsKept classify u → IsKept classify (record u { preferred = true })
  preferred-IsKept u h = record {
    bounded = record {
      held = record { ascending = h.bounded.held.ascending; counted = h.bounded.held.counted };
      few = h.bounded.few;
      small = h.bounded.small;
    };
    fitting = h.fitting;
  }

  mark_preferred-IsSound :
      (id : ℕ) (c : Core) → IsSound classify c → IsSound classify (mark_preferred id c)
  unfolding mark_preferred
  mark_preferred-IsSound id c h = elim (Option-cases (lookup id c.ups)) [
    | inl absent ↦ rw (absent, mark_preferred) h
    | inr (u, found) ↦
        let k = lookup-AllEntries (λ i u. IsKept classify u) id u c.ups h.kept found in
        rw (found, mark_preferred)
          (record {
            kept =
                AllEntries-put (λ i u. IsKept classify u) id (record u { preferred = true }) c.ups
                  (preferred-IsKept u k) h.kept;
            small = h.small;
          })
  ]

  mark_preferred-tip : (id : ℕ) (c : Core) → (mark_preferred id c).last_forwarded ≡ c.last_forwarded
  unfolding mark_preferred
  mark_preferred-tip id c = elim (Option-cases (lookup id c.ups)) [
    | inl absent ↦ rw (absent, mark_preferred) refl
    | inr (u, found) ↦ rw (found, mark_preferred) refl
  ]

  if_preferred :
      (b : Bool) (id n : ℕ) (c : Core)
      → IsSound classify c
      → c.last_forwarded ≡ n
      → let d : Core = if b then mark_preferred id c else c in
        IsSound classify d × (d.last_forwarded ≡ n)
  if_preferred true id n c h e =
      let t = mark_preferred-tip id c in (mark_preferred-IsSound id c h, omega arith)
  if_preferred false id n c h e = (h, e)

  on_closed-At :
      (n id : ℕ) (env : Outside) (s : Session)
      → At classify n s
      → At classify n (on_closed id env s)
  unfolding on_closed
  on_closed-At n id env s h = elim (Bool-cases (id == s.core.active)) [
    | inl own ↦ rw own (mark_dead-At classify n env.now s h)
    | inr other ↦ rw other (drop_upstream-At classify n id _ s h)
  ]

  on_connected-At :
      (n : ℕ) (ip : String) (slot : Bool) (env : Outside) (s : Session)
      → At classify n s
      → At classify n (on_connected ip slot env s)
  unfolding on_connected add_standby
  on_connected-At n ip slot env s (sound, tip) =
      if_preferred (Priority.contains ip env.tier) s.next_id n (add_standby s.next_id ip s.core)
        (add_standby-IsSound s.next_id ip s.core sound) tip

  on_node_bytes-At :
      (n : ℕ) (written : Bool) (env : Outside) (s : Session)
      → At classify n s
      → At classify n (on_node_bytes written env s)
  unfolding on_node_bytes
  on_node_bytes-At n written env s h = elim (Option-cases (lookup s.core.active s.lives)) [
    | inl gone ↦ rw (gone, on_node_bytes) h
    | inr (slot, live) ↦ elim (Bool-cases written) [
      | inl yes_written ↦ rw (live, on_node_bytes, yes_written) h
      | inr failed ↦ rw (live, on_node_bytes, failed) (mark_dead-At classify n env.now s h)
    ]
  ]

  start-At :
      (fo : FailoverConfig) (active_ip : String) (preferred : Bool) (last_forwarded now : ℕ)
      → last_forwarded < u32_max
      → At classify last_forwarded (start fo active_ip preferred last_forwarded now)
  unfolding start Core.new put
  start-At fo active_ip preferred last_forwarded now small =
      if_preferred preferred 0 last_forwarded _
        (record { kept = (new-IsKept active_ip, tt); small = small }) refl

  -- The frame of an event is no live block of round `u32::MAX`.
  abbrev pub IsSmallEvent : Event → Type 0
  IsSmallEvent (frame id bytes at) = IsSmall (classify bytes)
  IsSmallEvent _ = Unit

  abbrev pub AreSmallEvents : List (Event × Outside) → Type 0
  AreSmallEvents [] = Unit
  AreSmallEvents ((e, env) ∷ events) = IsSmallEvent e × AreSmallEvents events

  abbrev pub AreSmallFrames : List (List ℕ × Outside) → Type 0
  AreSmallFrames [] = Unit
  AreSmallFrames ((bytes, env) ∷ frames) = IsSmall (classify bytes) × AreSmallFrames frames

  module _ (fo : FailoverConfig) where
    step-IsFine :
        (e : Event) (env : Outside) (s : Session)
        → IsSmallEvent e
        → IsSound classify s.core
        → IsFine classify s.core.last_forwarded (step classify fo e env s)
    unfolding step on_connect_failed
    step-IsFine (frame id bytes at) env s p h = on_frame-IsFine classify id bytes at env s p h
    step-IsFine (closed id) env s p h = stay-IsFine classify _ _ (on_closed-At _ id env s (h, refl))
    step-IsFine (connected ip slot) env s p h =
        stay-IsFine classify _ _ (on_connected-At _ ip slot env s (h, refl))
    step-IsFine connect_failed env s p h =
        stay-IsFine classify _ (on_connect_failed env s) (h, refl)
    step-IsFine (node_bytes written) env s p h =
        stay-IsFine classify _ _ (on_node_bytes-At _ written env s (h, refl))
    step-IsFine node_closed env s p h = record { sound = h; climbs = omega arith }
    step-IsFine writer_ended env s p h = record { sound = h; climbs = omega arith }
    step-IsFine tick env s p h = on_tick-IsFine classify fo env s h

    run-IsFine :
        (events : List (Event × Outside)) (s : Session)
        → AreSmallEvents events
        → IsSound classify s.core
        → IsFine classify s.core.last_forwarded (run classify fo events s)
    unfolding run
    run-IsFine [] s p h = stay-IsFine classify _ s (h, refl)
    run-IsFine ((e, env) ∷ events) s p h =
        let k = step-IsFine e env s p.0 h in
        and_then-IsFine classify _ (step classify fo e env s) (λ t. run classify fo events t) k
          (run-IsFine events (step classify fo e env s).session p.1 k.sound)

    run_prefetched-IsFine :
        (frames : List (List ℕ × Outside)) (s : Session)
        → AreSmallFrames frames
        → IsSound classify s.core
        → IsFine classify s.core.last_forwarded (run_prefetched classify fo frames s)
    unfolding run_prefetched
    run_prefetched-IsFine [] s p h = stay-IsFine classify _ s (h, refl)
    run_prefetched-IsFine ((bytes, env) ∷ frames) s p h =
        let o : Outcome = on_prefetched classify bytes env s in
        let k = on_prefetched-IsFine classify bytes env s p.0 h in
        and_then-IsFine classify _ o (λ t. run_prefetched classify fo frames t) k
          (run_prefetched-IsFine frames o.session p.1 k.sound)

    serve-IsFine :
        (frames : List (List ℕ × Outside)) (events : List (Event × Outside)) (s : Session)
        → AreSmallFrames frames
        → AreSmallEvents events
        → IsSound classify s.core
        → IsFine classify s.core.last_forwarded (serve classify fo frames events s)
    unfolding serve
    serve-IsFine frames events s p q h =
        let k = run_prefetched-IsFine frames s p h in
        and_then-IsFine classify _ (run_prefetched classify fo frames s)
          (λ t. run classify fo events t) k
          (run-IsFine events (run_prefetched classify fo frames s).session q k.sound)

    -- If no live block that reaches the session has round `u32::MAX` and the node starts below it:
    -- whatever frames, connections, failures and ticks the session sees, and however it switches
    -- between upstreams, the rounds of the blocks that it sends the node ascend strictly, above the
    -- last round that the node had before and up to at most the round that the core remembers.
    pub serve-Climbs :
        (active_ip : String) (preferred : Bool) (last_forwarded now : ℕ)
        (frames : List (List ℕ × Outside)) (events : List (Event × Outside))
        → AreSmallFrames frames
        → AreSmallEvents events
        → last_forwarded < u32_max
        → let o =
            serve classify fo frames events (start fo active_ip preferred last_forwarded now) in
          Climbs last_forwarded (block_rounds classify o.sent) o.session.core.last_forwarded
    serve-Climbs active_ip preferred last_forwarded now frames events p q small =
        let (sound, tip) = start-At fo active_ip preferred last_forwarded now small in
        let k =
          serve-IsFine frames events (start fo active_ip preferred last_forwarded now) p q sound in
        subst
          (λ n.
            Climbs n
              (block_rounds classify
                (serve classify fo frames events
                  (start fo active_ip preferred last_forwarded now)).sent)
              (serve classify fo frames events
                (start fo active_ip preferred last_forwarded now)).session.core.last_forwarded)
          tip k.climbs

    AllKept-AllBounded : (m : List (ℕ × Upstream)) → AllKept classify m → AllBounded m
    AllKept-AllBounded [] h = tt
    AllKept-AllBounded ((id, u) ∷ m) h = (h.0.bounded, AllKept-AllBounded m h.1)

    -- If no live block that reaches the session has round `u32::MAX` and the node starts below it,
    -- every upstream of the session holds at most 512 blocks and 32 MiB at the end, in ascending
    -- order and with their bytes counted.
    pub serve-AllBounded :
        (active_ip : String) (preferred : Bool) (last_forwarded now : ℕ)
        (frames : List (List ℕ × Outside)) (events : List (Event × Outside))
        → AreSmallFrames frames
        → AreSmallEvents events
        → last_forwarded < u32_max
        → AllBounded
            (serve classify fo frames events
              (start fo active_ip preferred last_forwarded now)).session.core.ups
    serve-AllBounded active_ip preferred last_forwarded now frames events p q small =
        let (sound, tip) = start-At fo active_ip preferred last_forwarded now small in
        AllKept-AllBounded _
          (serve-IsFine frames events (start fo active_ip preferred last_forwarded now) p q
            sound).sound.kept
