-- ===== src/Failover/Switch/Chain.antt =====
-- What a switch hands the node (src/failover/core.rs, switch_to).
use hypersync.Prelude.{
  ℕ, ◌<◌, ◌≡◌, ◌≢◌, refl, ap, ◌∙◌, inl, inr, Option, none, some, List, [], ◌∷◌, length, u32_max,
  Bool-cases, subst,
}
use hypersync.Maps.{lookup, put}
use hypersync.Maps.Laws.{put_same}
use hypersync.Failover.Upstream.{Ahead, Upstream, can_continue}
use hypersync.Failover.Core.{Core, record_forwarded, settle_standbys}
use hypersync.Failover.Switch.{take_chain, replay, become_active, switch_with, switch_to}
use hypersync.Failover.Switch.Taken.{
  Linked, frames_of, last_round, IsOrdered, AllHeld, take_chain-Linked, take_chain-AllHeld,
  take_chain_none,
}

-- Replaying a chain sends its frames, one for each block, and moves the node's tip to its end.
replay-parts :
    (chain : List (ℕ × Ahead)) (c : Core)
    → ((replay chain c).1.0 ≡ frames_of chain)
      × ((replay chain c).0.last_forwarded ≡ last_round c.last_forwarded chain)
      × ((replay chain c).0.active ≡ c.active)
unfolding replay record_forwarded settle_standbys
replay-parts [] c = (refl, refl, refl)
replay-parts ((r, a) ∷ chain) c =
    let d : Core = (settle_standbys r a.hash a.at (record_forwarded r a.hash a.at c)).0 in
    let (p, q, s) = replay-parts chain d in (ap (λ t. a.frame ∷ t) p, q, s)

-- What a switch to the standby `u` says: refused, with nothing changed, or the frames sent.
abbrev pub Switched : ℕ → Upstream → Core → Core × Option (List (List ℕ) × List (ℕ × ℕ)) → Type 0
Switched id u c (d, none) = d ≡ c
Switched id u c (d, some (frames, bads)) =
    (chain : List (ℕ × Ahead)) × (chain ≢ [])
    × Linked c.last_forwarded chain
    × AllHeld u chain
    × (frames ≡ frames_of chain)
    × (d.last_forwarded ≡ last_round c.last_forwarded chain)
    × (d.active ≡ id)

become_active-Switched :
    (id now : ℕ) (chain : List (ℕ × Ahead)) (u v : Upstream) (c : Core)
    → chain ≢ []
    → Linked c.last_forwarded chain
    → AllHeld u chain
    → Switched id u c ((become_active id now chain v c).0, some (become_active id now chain v c).1)
unfolding become_active
become_active-Switched id now chain u v c ne l held =
    let d : Core = record c { ups = put id v c.ups; active = id; last_switch = some now } in
    let (p, q, s) = replay-parts chain d in (chain, ne, l, held, p, q, s)

switch_with-Switched :
    (id now : ℕ) (u : Upstream) (c : Core)
    → lookup id c.ups ≡ some u
    → IsOrdered u
    → c.last_forwarded < u32_max
    → Switched id u c (switch_with id now u c)
unfolding switch_with
switch_with-Switched id now u c found o small =
    elim (Bool-cases (can_continue u c.last_forwarded)) [
      | inr hole ↦ rw hole refl
      | inl whole ↦ rw whole (go (take_chain (length u.ahead) c.last_forwarded u).0 refl)
    ]
  where
    go :
        (chain : List (ℕ × Ahead))
        → (take_chain (length u.ahead) c.last_forwarded u).0 ≡ chain
        → Switched id u c (elim chain [
          | [] ↦ (
            record c { ups = put id (take_chain (length u.ahead) c.last_forwarded u).1 c.ups },
            none,
          )
          | e ∷ es ↦
              let (d, sent) =
                become_active id now
                  (e ∷ es)
                  (take_chain (length u.ahead) c.last_forwarded u).1
                  c in
              (d, some sent)
        ])
    go [] e =
        ap (λ m. record c { ups = m })
          (ap (λ v. put id v c.ups) (take_chain_none (length u.ahead) c.last_forwarded u e)
            ∙ put_same id u c.ups found)
    go (x ∷ xs) e =
        become_active-Switched id now (x ∷ xs) u (take_chain (length u.ahead) c.last_forwarded u).1
          c (λ nil. cc)
          (subst (Linked c.last_forwarded) e
            (take_chain-Linked (length u.ahead) c.last_forwarded u o small))
          (subst (AllHeld u) e (take_chain-AllHeld (length u.ahead) c.last_forwarded u o small))

-- A switch to a standby either is refused and changes nothing, or sends the node a chain of blocks
-- that the standby held, which continues from the node's last block with no gap, each block the
-- child of the one before it; then the node's tip is the end of that chain and the standby is the
-- active upstream.
pub switch_to-Switched :
    (id now : ℕ) (u : Upstream) (c : Core)
    → lookup id c.ups ≡ some u
    → IsOrdered u
    → c.last_forwarded < u32_max
    → Switched id u c (switch_to id now c)
unfolding switch_to
switch_to-Switched id now u c found o small =
    rw (found, switch_to) (switch_with-Switched id now u c found o small)
