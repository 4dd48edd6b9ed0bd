-- ===== src/Failover/Switch.antt =====
-- Which standby to switch to, and the switch (src/failover/core.rs): pick_switch, switch_to,
-- slowest_standby.
pub mod Chain
pub mod Pick
pub mod Ranked
pub mod Taken
use Prim.Native.String.{String}
use hypersync.Prelude.{
  ℕ, zero, suc, ◌+◌, ◌-◌, ◌*◌, ◌/◌, ◌^◌, Bool, true, false, ◌&&◌, ◌||◌, not, Option, none, some,
  List, [], ◌∷◌, ◌++◌, leb, ltb, ◌==◌, if◌then◌else◌, length, saturating_add, ns_per_ms,
}
use hypersync.Prelude.Int.{ℤ, pos, negsuc, ltb_ℤ, ◌-ℤ◌, neg_part, pos_part}
use hypersync.Maps.{lookup, put, range_from}
use hypersync.Failover.Upstream.{
  Ahead, Upstream, min_verified, take_ahead, median_lead, can_continue, chain_len,
}
use hypersync.Failover.Core.{
  Core, SwitchReason, stall, lag, active_dead, preferred, record_forwarded, settle_standbys,
}

-- The loop variables of pick_switch: standby, lead, blocks held and time of the first of them.
pub record Best : Type 0 where
  pub stall_best : Option (ℕ × ℤ × ℕ × ℕ)
  pub lag_best : Option (ℕ × ℤ)
  pub preferred_best : Option (ℕ × ℤ)

abbrev pub i64_min : ℤ
i64_min = negsuc (2 ^ 63 - 1)

abbrev pub eqb_ℤ : ℤ → ℤ → Bool
eqb_ℤ a b = not (ltb_ℤ a b) && not (ltb_ℤ b a)

-- `(lead, n, Reverse(first_at)) > (bl, bn, Reverse(bat))`.
unfoldable pub ranks_above : ℤ → ℕ → ℕ → Option (ℕ × ℤ × ℕ × ℕ) → Bool
ranks_above lead n first_at none = true
ranks_above lead n first_at (some (_, bl, bn, bat)) =
    ltb_ℤ bl lead || eqb_ℤ bl lead && (ltb bn n || bn == n && ltb first_at bat)

unfoldable pub leads_above : ℤ → Option (ℕ × ℤ) → Bool
leads_above lead none = true
leads_above lead (some (_, bl)) = ltb_ℤ bl lead

abbrev pub lead_or : ℤ → Option ℤ → ℤ
lead_or d none = d
lead_or d (some m) = m

-- What the loop knows before it starts.
pub record Scene : Type 0 where
  pub now : ℕ
  pub dead : Bool
  pub dwell_ok : Bool
  pub active_preferred : Bool

unfoldable pub rank_stall : Core → Scene → ℕ → Upstream → ℕ → ℕ → Best → Best
unfolding ranks_above
rank_stall c s id u n first_at b =
    let lead = lead_or i64_min (median_lead u) in
    if (s.dead || leb c.stall_after (s.now - first_at)) && ranks_above lead n first_at b.stall_best
    then record b { stall_best = some (id, lead, n, first_at) }
    else b

unfoldable pub rank_preferred : Scene → ℕ → Upstream → Best → Best
unfolding leads_above
rank_preferred s id u b =
    let lead = lead_or i64_min (median_lead u) in
    if s.dwell_ok && u.preferred && not s.active_preferred && leads_above lead b.preferred_best
    then record b { preferred_best = some (id, lead) }
    else b

unfoldable pub rank_lag : Core → Scene → ℕ → Upstream → Best → Best
unfolding leads_above
rank_lag c s id u b =
    if s.dwell_ok && (u.preferred || not s.active_preferred)
    then elim (median_lead u) [
      | none ↦ b
      | some m ↦
          if not (ltb_ℤ m (pos (c.lag_after / ns_per_ms))) && leads_above m b.lag_best
          then record b { lag_best = some (id, m) }
          else b
    ]
    else b

-- The body of the loop for one upstream.
unfoldable pub consider : Core → Scene → ℕ → Upstream → Best → Best
consider c s id u b =
    if id == c.active || ltb u.verified min_verified
    then b
    else let (n, first) = chain_len u c.last_forwarded in
      elim first [
        | none ↦ b
        | some first_at ↦
            rank_lag c s id u (rank_preferred s id u (rank_stall c s id u n first_at b))
      ]

unfoldable pub consider_all : Core → Scene → List (ℕ × Upstream) → Best → Best
unfolding consider rank_stall rank_preferred rank_lag
consider_all c s [] b = b
consider_all c s ((id, u) ∷ m) b = consider_all c s m (consider c s id u b)

-- The choice after the loop.
unfoldable pub choose : Bool → Best → Option (ℕ × SwitchReason)
choose dead b = elim b.stall_best [
  | some (id, _, _, _) ↦ some (id, if dead then active_dead else stall)
  | none ↦ elim b.preferred_best [
    | some (id, _) ↦ some (id, preferred)
    | none ↦ elim b.lag_best [ some (id, _) ↦ some (id, lag) | none ↦ none ]
  ]
]

unfoldable pub scene_of : Core → ℕ → Bool → Scene
scene_of c now dead = record {
  now = now;
  dead = dead;
  dwell_ok = elim c.last_switch [ none ↦ true | some t ↦ leb c.min_dwell (now - t) ];
  active_preferred = elim (lookup c.active c.ups) [ none ↦ false | some u ↦ u.preferred ];
}

abbrev pub no_best : Best
no_best = record { stall_best = none; lag_best = none; preferred_best = none }

unfoldable pub pick_switch : Core → ℕ → Bool → Option (ℕ × SwitchReason)
unfolding consider_all choose scene_of
pick_switch c now dead =
    if c.last_forwarded == 0
    then none
    else choose dead (consider_all c (scene_of c now dead) c.ups no_best)

-- The `while` of switch_to: the chain taken off the standby, and what is left of it. Each round takes
-- a block, so their number bounds the rounds.
unfoldable pub take_chain : ℕ → ℕ → Upstream → List (ℕ × Ahead) × Upstream
take_chain zero cur u = ([], u)
take_chain (suc fuel) cur u = elim (range_from (saturating_add cur 1) u.ahead) [
  | [] ↦ ([], u)
  | (r, a) ∷ _ ↦ elim (a.parent == cur) [
    | false ↦ ([], u)
    | true ↦ elim (take_ahead r u) [
      | none ↦ ([], u)
      | some (b, v) ↦ let (chain, w) = take_chain fuel r v in ((r, b) ∷ chain, w)
    ]
  ]
]

-- The `for` of switch_to, over the chain.
unfoldable pub replay : List (ℕ × Ahead) → Core → Core × (List (List ℕ) × List (ℕ × ℕ))
replay [] c = (c, ([], []))
replay ((r, a) ∷ chain) c =
    let (d, bads) = settle_standbys r a.hash a.at (record_forwarded r a.hash a.at c) in
    let (e, (frames, more)) = replay chain d in (e, (a.frame ∷ frames, bads ++ more))

unfoldable pub clear_leads : List (ℕ × Upstream) → List (ℕ × Upstream)
clear_leads [] = []
clear_leads ((id, u) ∷ m) = (id, record u { leads = [] }) ∷ clear_leads m

-- The switch once the chain is taken: `u` is the standby without it.
unfoldable pub become_active :
    ℕ → ℕ → List (ℕ × Ahead) → Upstream → Core → Core × (List (List ℕ) × List (ℕ × ℕ))
become_active id now chain u c =
    let d = record c { ups = put id u c.ups; active = id; last_switch = some now } in
    let (e, sent) = replay chain d in (record e { ups = clear_leads e.ups }, sent)

unfoldable pub switch_with : ℕ → ℕ → Upstream → Core → Core × Option (List (List ℕ) × List (ℕ × ℕ))
switch_with id now u c =
    if not (can_continue u c.last_forwarded)
    then (c, none)
    else let (chain, v) = take_chain (length u.ahead) c.last_forwarded u in
      elim chain [
        | [] ↦ (record c { ups = put id v c.ups }, none)
        | e ∷ es ↦ let (d, sent) = become_active id now (e ∷ es) v c in (d, some sent)
      ]

unfoldable pub switch_to : ℕ → ℕ → Core → Core × Option (List (List ℕ) × List (ℕ × ℕ))
unfolding take_chain replay
switch_to id now c = elim (lookup id c.ups) [ none ↦ (c, none) | some u ↦ switch_with id now u c ]

-- The standbys that trail the active by more than `slower_ms`, and the one that trails the most.
unfoldable pub slowest_of :
    Core → ℤ → (String → Bool) → List (ℕ × Upstream) → Option (ℕ × ℤ) → Option (ℕ × ℤ)
slowest_of c slower_ms exempt [] best = best
slowest_of c slower_ms exempt ((id, u) ∷ m) best = slowest_of c slower_ms exempt m (
    if not (id == c.active) && not (exempt u.ip)
    then elim (median_lead u) [
      | none ↦ best
      | some lead ↦
          if ltb_ℤ lead (pos 0 -ℤ slower_ms)
          then elim best [
            | none ↦ some (id, lead)
            | some (bid, blead) ↦ if ltb_ℤ lead blead then some (id, lead) else some (bid, blead)
          ]
          else best
    ]
    else best)

unfoldable pub slowest_standby : Core → ℤ → (String → Bool) → Option (ℕ × ℤ)
unfolding slowest_of
slowest_standby c slower_ms exempt = slowest_of c slower_ms exempt c.ups none
