-- ===== src/Failover/Session/Ticked.antt =====
-- What a tick keeps of a failover session's core, and what it sends (src/failover/session.rs).
use Prim.Native.String.{String}
use hypersync.Prelude.{
  Climbs-append, ℕ, ◌+◌, ◌-◌, ◌<◌, refl, inl, inr, Bool, true, false, ◌&&◌, not, Option, none, some,
  List, [], ◌∷◌, leb, ltb, ◌==◌, ◌/◌, if◌then◌else◌, u32_max, length, ns_per_ms, Bool-cases,
  Option-cases, arith,
}
use hypersync.Prelude.Int.{ℤ, pos}
use hypersync.Push.Progress.{stalled}
use hypersync.Priority
use hypersync.Failover.Core
use hypersync.Failover.Core.{Core}
use hypersync.Failover.Switch.{pick_switch, switch_to, slowest_standby}
use hypersync.Failover.Session.{
  FailoverConfig, Outside, Session, Outcome, and_then, stay, queue_frames, drop_upstream, mark_dead,
  is_some, node_writer_closed, ip_of, ip_or, slow_peer_cooldown, bad_peer_cooldown,
}
use hypersync.Failover.Session.Tick.{
  check_stalled, is_banned, banned_of, drop_banned, is_seen, check_blacklist, switched, try_switch,
  grace_over, standby_count, rotate, fill, after_switch, on_tick, standby_candidates,
  retain_cooling,
}
use hypersync.Maps.Entries.{AllEntries}
use hypersync.Failover.Session.Kept.{IsKept}
use hypersync.Failover.Session.Replayed.{block_rounds, switch_to-AllKept, Sends, switch_to-Sends}
use hypersync.Failover.Session.Climbs.{
  IsSound, IsFine, At, stay-IsFine, remove-IsSound, drop_upstream-At, drop_bads-At,
  queue_frames-Climbs, block_rounds-append,
}
use hypersync.Failover.Session.Handled.{mark_dead-At}

module _ (classify : List ℕ → Option (ℕ × ℕ × ℕ)) where
  check_stalled-At :
      (n now : ℕ) (s : Session) → At classify n s → At classify n (check_stalled now s)
  unfolding check_stalled
  check_stalled-At n now s h =
      elim (Bool-cases (not (is_some s.active_dead) && stalled now s.progress)) [
        | inl dead ↦ rw dead (mark_dead-At classify n now s h)
        | inr fine ↦ rw fine h
      ]

  drop_banned-At :
      (n : ℕ) (ids : List ℕ) (s : Session) → At classify n s → At classify n (drop_banned ids s)
  unfolding drop_banned Core.remove
  drop_banned-At n [] s h = h
  drop_banned-At n (id ∷ ids) s (sound, tip) =
      drop_banned-At n ids _ (remove-IsSound classify id s.core sound, tip)

  if_dead-At :
      (n now : ℕ) (b : Bool) (s : Session)
      → At classify n s
      → At classify n (if b then mark_dead now s else s)
  if_dead-At n now true s h = mark_dead-At classify n now s h
  if_dead-At n now false s h = h

  check_blacklist-At :
      (n : ℕ) (env : Outside) (s : Session)
      → At classify n s
      → At classify n (check_blacklist env s)
  unfolding check_blacklist
  check_blacklist-At n env s h = elim (Bool-cases (is_seen s.blacklist_seen env.list_version)) [
    | inl seen ↦ rw seen h
    | inr changed ↦
        let t : Session = record s { blacklist_seen = some env.list_version } in
        let banned : Bool = is_banned env.listed (ip_of t.core.active t.core) in
        let u : Session = if banned then mark_dead env.now t else t in
        rw changed (
          drop_banned-At n (banned_of env.listed u.core u.lives) u
            (if_dead-At n env.now banned t h))
  ]

  rotate-At :
      (n : ℕ) (fo : FailoverConfig) (env : Outside) (s : Session)
      → At classify n s
      → At classify n (rotate fo env s)
  unfolding rotate
  rotate-At n fo env s h =
      let t : Session = record s { last_rotate = env.now } in
      elim (Bool-cases (
        ltb 0 fo.rotate_slower
        && not s.connecting
        && not (is_some s.active_dead)
        && leb fo.standbys (standby_count s.core)
        && leb fo.rotate_every (env.now - s.last_rotate))) [
          | inr early ↦ rw early h
          | inl due ↦ rw due (
              go (
                slowest_standby s.core (pos (fo.rotate_slower / ns_per_ms))
                  (λ ip. Priority.contains ip env.tier)))
        ]
    where
      go :
          (o : Option (ℕ × ℤ))
          → At classify n (elim o [
            | none ↦ record s { last_rotate = env.now }
            | some (id, lead) ↦
                drop_upstream id (env.now + slow_peer_cooldown) (record s { last_rotate = env.now })
          ])
      go none = h
      go (some (id, lead)) = drop_upstream-At classify n id _ (record s { last_rotate = env.now }) h

  fill-At :
      (n : ℕ) (fo : FailoverConfig) (env : Outside) (s : Session)
      → At classify n s
      → At classify n (fill fo env s)
  unfolding fill
  fill-At n fo env s h =
      let t : Session = record s { cooldown = retain_cooling env.now s.cooldown } in
      elim (Bool-cases (
        not s.connecting && ltb (standby_count s.core) fo.standbys && leb s.next_connect env.now)) [
          | inr no_need ↦ rw no_need h
          | inl wanted ↦ elim (Bool-cases (length (standby_candidates env t) == 0)) [
            | inl nobody ↦ rw (wanted, nobody) h
            | inr dialing ↦ rw (wanted, dialing) h
          ]
        ]

  switched-At :
      (id old : ℕ) (old_ip : String) (now : ℕ) (bads : List (ℕ × ℕ)) (c : Core) (s : Session)
      → IsSound classify c
      → At classify c.last_forwarded (switched id old old_ip now bads c s)
  unfolding switched Core.remove
  switched-At id old old_ip now bads c s sound =
      drop_bads-At classify c.last_forwarded (now + bad_peer_cooldown) bads _
        (remove-IsSound classify old c sound, refl)

  after_switch-IsFine :
      (n : ℕ) (fo : FailoverConfig) (env : Outside) (s : Session)
      → At classify n s
      → IsFine classify n (after_switch fo env s)
  unfolding after_switch
  after_switch-IsFine n fo env s h = elim (Bool-cases (grace_over env.now s.active_dead)) [
    | inl over ↦ rw over (record { sound = h.0; climbs = let t = h.1 in omega arith })
    | inr patient ↦
        rw patient (stay-IsFine classify n _ (fill-At n fo env _ (rotate-At n fo env s h)))
  ]

  -- Going on with what is fine is fine.
  pub and_then-IsFine :
      (low : ℕ) (o : Outcome) (k : Session → Outcome)
      → IsFine classify low o
      → IsFine classify o.session.core.last_forwarded (k o.session)
      → IsFine classify low (and_then o k)
  and_then-IsFine low o k h i = elim (Option-cases o.exit) [
    | inr (e, ended) ↦ rw (ended, and_then) h
    | inl going ↦
        rw (going, and_then)
          (record {
            sound = i.sound;
            climbs = rw (block_rounds-append classify o.sent (k o.session).sent) (
                Climbs-append low _ _ (block_rounds classify o.sent)
                  (block_rounds classify (k o.session).sent) h.climbs i.climbs);
          })
  ]

  try_switch-IsFine :
      (n : ℕ) (env : Outside) (s : Session) → At classify n s → IsFine classify n (try_switch env s)
  unfolding try_switch
  try_switch-IsFine n env s (sound, tip) =
      elim (Option-cases (pick_switch s.core env.now (is_some s.active_dead))) [
        | inl nobody ↦ rw (nobody, try_switch) (stay-IsFine classify n s (sound, tip))
        | inr ((id, reason), chosen) ↦
            rw (chosen, try_switch)
              (go id (switch_to id env.now s.core)
                (switch_to-AllKept classify id env.now s.core sound.kept)
                (switch_to-Sends classify id env.now s.core sound.kept sound.small))
      ]
    where
      go :
          (id : ℕ) (x : Core × Option (List (List ℕ) × List (ℕ × ℕ)))
          → AllEntries (λ i u. IsKept classify u) x.0.ups
          → Sends classify s.core x
          → IsFine classify n (elim x.1 [
            | none ↦ stay (record s { core = x.0 })
            | some (frames, bads) ↦
                let (sent, taken) = queue_frames env.room frames in
                if taken
                then record {
                  session =
                      switched id s.core.active
                        (ip_or (ip_of s.core.active s.core))
                        env.now
                        bads
                        x.0
                        s;
                  sent = sent;
                  exit = none;
                }
                else record {
                  session = record s { core = x.0 };
                  sent = sent;
                  exit = some node_writer_closed;
                }
          ])
      go id (d, none) kept same =
          let small : s.core.last_forwarded < u32_max = sound.small in
          stay-IsFine classify n (record s { core = d })
            (record { kept = kept; small = omega arith }, omega arith)
      go id (d, some (frames, bads)) kept (climbs, top) =
          let after : IsSound classify d = record { kept = kept; small = top } in
          let sent =
            queue_frames-Climbs classify env.room n d.last_forwarded frames (rw (← tip) climbs) in
          elim (Bool-cases (queue_frames env.room frames).1) [
            | inr cut ↦ rw cut (record { sound = after; climbs = sent })
            | inl taken ↦
                let (still, same) =
                  switched-At id s.core.active (ip_or (ip_of s.core.active s.core)) env.now bads d s
                    after in
                rw taken (record { sound = still; climbs = rw same sent })
          ]

  pub on_tick-IsFine :
      (fo : FailoverConfig) (env : Outside) (s : Session)
      → IsSound classify s.core
      → IsFine classify s.core.last_forwarded (on_tick fo env s)
  unfolding on_tick
  on_tick-IsFine fo env s sound =
      let n : ℕ = s.core.last_forwarded in
      let o : Outcome = try_switch env (check_blacklist env (check_stalled env.now s)) in
      let h : IsFine classify n o =
        try_switch-IsFine n env _
          (check_blacklist-At n env _ (check_stalled-At n env.now s (sound, refl))) in
      and_then-IsFine n o (λ t. after_switch fo env t) h
        (after_switch-IsFine o.session.core.last_forwarded fo env o.session (h.sound, refl))
