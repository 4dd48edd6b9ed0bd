-- ===== src/Push/Freshest/Agreed.antt =====
-- No single peer moves the freshest round (src/push/live.rs, FreshestRound.get_within).
use Prim.Native.String.{String}
use text.Mathlib.Text.{◌==◌ as str_eq}
use text.Mathlib.TextEquality.{eq_iff}
use hypersync.Prelude.{
  ℕ, ◌+◌, ◌≤◌, ◌≡◌, ◌≢◌, refl, sym, ◌∙◌, inl, inr, true, Option, none, some, List, [], ◌∷◌, leb,
  ◌==◌, max, saturating_add, subst, Bool-cases, arith,
}
use hypersync.Maps.Laws.{In, here, there}
use hypersync.Push.Freshest.{
  Stream, FreshestRound, raise_peer, counts, per_peer, get_within, freshest_tip_slack,
}
use hypersync.Push.Freshest.Order.{peers_reaching, second-peers_reaching}

module _ (P : String → ℕ → Type 0) where
  abbrev AllPeers : List (String × ℕ) → Type 0
  AllPeers [] = Unit
  AllPeers ((q, r) ∷ m) = P q r × AllPeers m

  max-cases : (q : String) (a b : ℕ) → P q a → P q b → P q (max a b)
  max-cases q a b p p' = elim (Bool-cases (leb a b)) [
    | inl le ↦ let e : max a b ≡ b = ground arith in rw e p'
    | inr gt ↦ let e : max a b ≡ a = ground arith in rw e p
  ]

  AllPeers-raise_peer :
      (peer : String) (round : ℕ) (m : List (String × ℕ))
      → P peer round
      → AllPeers m
      → AllPeers (raise_peer peer round m)
  unfolding raise_peer
  AllPeers-raise_peer peer round [] p h = (p, tt)
  AllPeers-raise_peer peer round ((q, r) ∷ m) p h = elim (Bool-cases (str_eq q peer)) [
    | inl same ↦
        rw same
          (max-cases q r round h.0 (subst (λ t. P t round) (sym ((eq_iff q peer).0 same)) p), h.1)
    | inr other ↦ rw other (h.0, AllPeers-raise_peer peer round m p h.1)
  ]

  AllPeers-per_peer :
      (now max_age ceiling : ℕ) (streams : List (ℕ × Stream)) (best : List (String × ℕ))
      → ((id : ℕ) (s : Stream)
          → In id s streams
          → counts now max_age ceiling s ≡ true
          → P s.peer s.round)
      → AllPeers best
      → AllPeers (per_peer now max_age ceiling streams best)
  unfolding per_peer
  AllPeers-per_peer now max_age ceiling [] best p h = h
  AllPeers-per_peer now max_age ceiling ((id, s) ∷ streams) best p h =
      elim (Bool-cases (counts now max_age ceiling s)) [
        | inl counted ↦ rw counted (
            AllPeers-per_peer now max_age ceiling streams (raise_peer s.peer s.round best)
              (λ i t x. p i t (there x))
              (AllPeers-raise_peer s.peer s.round best (p id s here counted) h))
        | inr not_counted ↦
            rw not_counted
              (AllPeers-per_peer now max_age ceiling streams best (λ i t x. p i t (there x)) h)
      ]

  -- Of peers that reach `f`, one has the property.
  one_reaching :
      (f : ℕ) (m : List (String × ℕ))
      → AllPeers m
      → 1 ≤ peers_reaching f m
      → (q : String) × (r : ℕ) × (f ≤ r) × P q r
  one_reaching f [] h n = absurd (omega arith)
  one_reaching f ((q, r) ∷ m) h n = elim (Bool-cases (leb f r)) [
    | inl reach ↦ (q, r, ground arith, h.0)
    | inr short ↦ one_reaching f m h.1 (ground arith)
  ]

-- Each peer has one entry.
abbrev Unnamed : String → List (String × ℕ) → Type 0
Unnamed p = AllPeers (λ q r. p ≢ q)

abbrev IsNamed : List (String × ℕ) → Type 0
IsNamed [] = Unit
IsNamed ((q, r) ∷ m) = Unnamed q m × IsNamed m

IsNamed-raise_peer :
    (peer : String) (round : ℕ) (m : List (String × ℕ))
    → IsNamed m
    → IsNamed (raise_peer peer round m)
unfolding raise_peer
IsNamed-raise_peer peer round [] h = (tt, tt)
IsNamed-raise_peer peer round ((q, r) ∷ m) h = elim (Bool-cases (str_eq q peer)) [
  | inl same ↦ rw same h
  | inr other ↦ rw other (
    AllPeers-raise_peer (λ t n. q ≢ t) peer round m (λ e. cc ((eq_iff q peer).1 e)) h.0,
    IsNamed-raise_peer peer round m h.1,
  )
]

IsNamed-per_peer :
    (now max_age ceiling : ℕ) (streams : List (ℕ × Stream)) (best : List (String × ℕ))
    → IsNamed best
    → IsNamed (per_peer now max_age ceiling streams best)
unfolding per_peer
IsNamed-per_peer now max_age ceiling [] best h = h
IsNamed-per_peer now max_age ceiling ((id, s) ∷ streams) best h =
    elim (Bool-cases (counts now max_age ceiling s)) [
      | inl counted ↦ rw counted (
          IsNamed-per_peer now max_age ceiling streams (raise_peer s.peer s.round best)
            (IsNamed-raise_peer s.peer s.round best h))
      | inr not_counted ↦ rw not_counted (IsNamed-per_peer now max_age ceiling streams best h)
    ]

-- Of two peers that reach `f`, one is not `p`.
another_reaching :
    (P : String → ℕ → Type 0) (p : String) (f : ℕ) (m : List (String × ℕ))
    → AllPeers P m
    → IsNamed m
    → 2 ≤ peers_reaching f m
    → (q : String) × (r : ℕ) × (f ≤ r) × P q r × (q ≢ p)
another_reaching P p f [] h d n = absurd (omega arith)
another_reaching P p f ((q, r) ∷ m) h d n = elim (Bool-cases (leb f r)) [
  | inr short ↦ another_reaching P p f m h.1 d.1 (ground arith)
  | inl reach ↦ elim (Bool-cases (str_eq q p)) [
    | inr other ↦ (q, r, ground arith, h.0, λ e. cc ((eq_iff q p).1 e))
    | inl same ↦
        let (q', r', le, both) =
          one_reaching (λ t n. P t n × (q ≢ t)) f m (both_peers m h.1 d.0) (ground arith) in
        (q', r', le, both.0, λ e. both.1 ((eq_iff q p).0 same ∙ sym e))
  ]
]
  where
    both_peers :
        (m : List (String × ℕ)) → AllPeers P m → Unnamed q m → AllPeers (λ t n. P t n × (q ≢ t)) m
    both_peers [] x y = tt
    both_peers (e ∷ m) x y = ((x.0, y.0), both_peers m x.1 y.1)

counts-round :
    (now max_age ceiling bound : ℕ) (s : Stream)
    → counts now max_age ceiling s ≡ true
    → ceiling ≤ bound
    → s.round ≤ bound
unfolding counts
counts-round now max_age ceiling bound s h le = ground arith

counts-age :
    (now max_age ceiling : ℕ) (s : Stream)
    → counts now max_age ceiling s ≡ true
    → now ≤ s.at + max_age
unfolding counts
counts-age now max_age ceiling s h = ground arith

-- A stream of `f` that counts and whose highest round is `r`, from peer `q`.
abbrev Vouches : ℕ → ℕ → FreshestRound → String → ℕ → Type 0
Vouches now max_age f q r =
    (id : ℕ) × (s : Stream) × In id s f.streams
    × (s.peer ≡ q)
    × (s.round ≡ r)
    × (s.round ≤ f.net_tip + freshest_tip_slack)
    × (now ≤ s.at + max_age)

-- Whatever one peer `p` sends, over however many streams, the freshest round is one that a live
-- stream of another peer has reached, and that is within the slack above the network tip. With no
-- known tip there is none.
pub get_within-vouched :
    (now max_age : ℕ) (f : FreshestRound) (fresh : ℕ) (p : String)
    → get_within now max_age f ≡ some fresh
    → (id : ℕ) × (s : Stream) × In id s f.streams
      × (s.peer ≢ p)
      × (fresh ≤ s.round)
      × (s.round ≤ f.net_tip + freshest_tip_slack)
      × (now ≤ s.at + max_age)
unfolding get_within
get_within-vouched now max_age f fresh p e = elim (Bool-cases (f.net_tip == 0)) [
  | inl unknown ↦ absurd (none≢some (rw (unknown, get_within) at e))
  | inr known ↦
      let ceiling : ℕ = saturating_add f.net_tip freshest_tip_slack in
      let peers : List (String × ℕ) = per_peer now max_age ceiling f.streams [] in
      let (q, r, le, (id, s, x, peer, round, low, young), ne) =
        another_reaching (Vouches now max_age f) p fresh peers
          (AllPeers-per_peer (Vouches now max_age f) now max_age ceiling f.streams []
            (λ i t x counted. (i, t, x, refl, refl, within t counted, aged t counted)) tt)
          (IsNamed-per_peer now max_age ceiling f.streams [] tt)
          (second-peers_reaching fresh peers (rw (known, get_within) at e)) in
      (id, s, x, (λ same. ne (sym peer ∙ same)), omega arith, low, young)
]
  where
    none≢some : ◌≡◌ {A = Option ℕ} none (some fresh) → ⊥
    none≢some = λ e. cc

    within :
        (t : Stream)
        → counts now max_age (saturating_add f.net_tip freshest_tip_slack) t ≡ true
        → t.round ≤ f.net_tip + freshest_tip_slack
    within t h =
        counts-round now max_age (saturating_add f.net_tip freshest_tip_slack) _ t h (omega arith)

    aged :
        (t : Stream)
        → counts now max_age (saturating_add f.net_tip freshest_tip_slack) t ≡ true
        → now ≤ t.at + max_age
    aged t h = counts-age now max_age (saturating_add f.net_tip freshest_tip_slack) t h
