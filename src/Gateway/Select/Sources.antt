-- ===== src/Gateway/Select/Sources.antt =====
-- The candidates for a bootstrap (src/gateway/select.rs, bootstrap_source_list).
use Prim.Native.String.{String}
use text.Mathlib.Text.{◌==◌ as str_eq}
use text.Mathlib.TextEquality.{eq_iff}
use hypersync.Prelude.{
  ℕ, zero, suc, ◌-◌, ◌≤◌, ◌≡◌, refl, sym, inl, inr, Bool, true, false, ◌&&◌, not, List, [], ◌∷◌,
  ◌++◌, length, take, max, length-take, length-append, Bool-cases, arith,
}
use hypersync.Priority.{BootstrapPolicy, fallback, never, prefer}
use hypersync.Peerd.Pool.{is_in, push_new, retain}
use hypersync.Failover.Session.Tick.{rotated}
use hypersync.Gateway.Select.{
  push_head, push_pool, ordered_candidates, bootstrap_source_list, bootstrap_select_max_peers,
}

-- No entry is there twice.
abbrev pub Distinct : List String → Type 0
Distinct [] = Unit
Distinct (ip ∷ ips) = (is_in ip ips ≡ false) × Distinct ips

-- No entry of the one is in the other.
abbrev pub Apart : List String → List String → Type 0
Apart [] bs = Unit
Apart (a ∷ rest) bs = (is_in a bs ≡ false) × Apart rest bs

str_eq-flip : (a b : String) → str_eq a b ≡ false → str_eq b a ≡ false
str_eq-flip a b h = elim (Bool-cases (str_eq b a)) [
  | inr other ↦ other
  | inl same ↦
      let back : str_eq a b ≡ true = (eq_iff a b).1 (sym ((eq_iff b a).0 same)) in
      absurd (let clash : true ≡ false = rw (← back) h in cc)
]

is_in-append_false :
    (q : String) (a b : List String)
    → is_in q a ≡ false
    → is_in q b ≡ false
    → is_in q (a ++ b) ≡ false
unfolding is_in
is_in-append_false q [] b h k = k
is_in-append_false q (x ∷ a) b h k =
    let rest : is_in q a ≡ false = ground arith in
    let other : str_eq x q ≡ false = ground arith in rw other (is_in-append_false q a b rest k)

Distinct-append : (a b : List String) → Distinct a → Distinct b → Apart a b → Distinct (a ++ b)
Distinct-append [] b h k ap = k
Distinct-append (x ∷ a) b (fresh, h) k (off, ap) =
    (is_in-append_false x a b fresh off, Distinct-append a b h k ap)

Apart-one : (a : List String) (ip : String) → is_in ip a ≡ false → Apart a (ip ∷ [])
unfolding is_in
Apart-one [] ip h = tt
Apart-one (x ∷ a) ip h =
    let rest : is_in ip a ≡ false = ground arith in
    let other : str_eq x ip ≡ false = ground arith in
    let flipped = str_eq-flip x ip other in (rw flipped refl, Apart-one a ip rest)

Distinct-last :
    (a : List String) (ip : String) → Distinct a → is_in ip a ≡ false → Distinct (a ++ (ip ∷ []))
unfolding is_in
Distinct-last a ip h fresh = Distinct-append a (ip ∷ []) h (refl, tt) (Apart-one a ip fresh)

push_head-Distinct :
    (listed : String → Bool) (head out : List String)
    → Distinct out
    → Distinct (push_head listed head out)
unfolding push_head
push_head-Distinct listed [] out h = h
push_head-Distinct listed (ip ∷ head) out h =
    elim (Bool-cases (not (is_in ip out) && not (listed ip))) [
      | inr old ↦ rw old (push_head-Distinct listed head out h)
      | inl new ↦ rw new (
          push_head-Distinct listed head (out ++ (ip ∷ [])) (Distinct-last out ip h (ground arith)))
    ]

push_new-Distinct : (ip : String) (out : List String) → Distinct out → Distinct (push_new ip out)
unfolding push_new
push_new-Distinct ip out h = elim (Bool-cases (is_in ip out)) [
  | inl there ↦ rw there h
  | inr fresh ↦ rw fresh (Distinct-last out ip h fresh)
]

push_pool-Distinct : (ips out : List String) → Distinct out → Distinct (push_pool ips out)
unfolding push_pool
push_pool-Distinct [] out h = h
push_pool-Distinct (ip ∷ ips) out h =
    push_pool-Distinct ips (push_new ip out) (push_new-Distinct ip out h)

pub ordered_candidates-Distinct :
    (listed : String → Bool) (head pool : List String) (start : ℕ)
    → Distinct (ordered_candidates listed head pool start)
unfolding ordered_candidates
ordered_candidates-Distinct listed head pool start =
    push_pool-Distinct (rotated pool start (length pool)) (push_head listed head [])
      (push_head-Distinct listed head [] tt)

is_in-retain :
    (q : String) (excluded ips : List String)
    → is_in q ips ≡ false
    → is_in q (retain excluded ips) ≡ false
unfolding is_in retain
is_in-retain q excluded [] h = refl
is_in-retain q excluded (x ∷ ips) h =
    let rest : is_in q ips ≡ false = ground arith in
    let other : str_eq x q ≡ false = ground arith in
    elim (Bool-cases (is_in x excluded)) [
      | inl out ↦ rw out (is_in-retain q excluded ips rest)
      | inr kept ↦ rw (kept, is_in, other) (is_in-retain q excluded ips rest)
    ]

retain-Distinct : (excluded ips : List String) → Distinct ips → Distinct (retain excluded ips)
unfolding retain
retain-Distinct excluded [] h = tt
retain-Distinct excluded (x ∷ ips) (fresh, h) = elim (Bool-cases (is_in x excluded)) [
  | inl out ↦ rw out (retain-Distinct excluded ips h)
  | inr kept ↦ rw kept (is_in-retain x excluded ips fresh, retain-Distinct excluded ips h)
]

retain-Apart : (excluded ips : List String) → Apart (retain excluded ips) excluded
unfolding retain
retain-Apart excluded [] = tt
retain-Apart excluded (x ∷ ips) = elim (Bool-cases (is_in x excluded)) [
  | inl out ↦ rw out (retain-Apart excluded ips)
  | inr kept ↦ rw kept (kept, retain-Apart excluded ips)
]

is_in-take :
    (q : String) (n : ℕ) (ips : List String) → is_in q ips ≡ false → is_in q (take n ips) ≡ false
unfolding is_in
is_in-take q zero ips h = refl
is_in-take q (suc n) [] h = refl
is_in-take q (suc n) (x ∷ ips) h =
    let rest : is_in q ips ≡ false = ground arith in
    let other : str_eq x q ≡ false = ground arith in rw other (is_in-take q n ips rest)

take-Distinct : (n : ℕ) (ips : List String) → Distinct ips → Distinct (take n ips)
take-Distinct zero ips h = tt
take-Distinct (suc n) [] h = tt
take-Distinct (suc n) (x ∷ ips) (fresh, h) = (is_in-take x n ips fresh, take-Distinct n ips h)

take-Apart : (n : ℕ) (ips bs : List String) → Apart ips bs → Apart (take n ips) bs
take-Apart zero ips bs h = tt
take-Apart (suc n) [] bs h = tt
take-Apart (suc n) (x ∷ ips) bs (off, h) = (off, take-Apart n ips bs h)

-- Where the priority peers stand: under the fallback policy last, with no copy of them before, and all
-- of them within the window that is tried, if they fit it at all.
abbrev pub IsPlaced : BootstrapPolicy → List String → List String → Type 0
IsPlaced fallback priority out =
    (front : List String) × (out ≡ front ++ priority)
    × Apart front priority
    × (length out ≤ max bootstrap_select_max_peers (length priority))
IsPlaced never priority out = Unit
IsPlaced prefer priority out = Unit

-- If no priority peer is named twice: whatever the policy, no peer is tried twice for a bootstrap; and
-- under the fallback policy the priority peers come after all others, and within the window of 32.
pub bootstrap_source_list-IsPlaced :
    (listed : String → Bool) (policy : BootstrapPolicy) (priority remembered pool : List String)
    (start : ℕ)
    → Distinct priority
    → (let out = bootstrap_source_list listed policy priority remembered pool start in
        Distinct out × IsPlaced policy priority out)
unfolding bootstrap_source_list
bootstrap_source_list-IsPlaced listed never priority remembered pool start h =
    (ordered_candidates-Distinct listed remembered pool start, tt)
bootstrap_source_list-IsPlaced listed prefer priority remembered pool start h =
    (ordered_candidates-Distinct listed (priority ++ remembered) pool start, tt)
bootstrap_source_list-IsPlaced listed fallback priority remembered pool start h =
    let others = retain priority (ordered_candidates listed remembered pool start) in
    let n = bootstrap_select_max_peers - length priority in
    let front = take n others in
    let apart : Apart front priority =
      take-Apart n others priority
        (retain-Apart priority (ordered_candidates listed remembered pool start)) in
    let distinct : Distinct front = take-Distinct n others (
      retain-Distinct priority (ordered_candidates listed remembered pool start)
        (ordered_candidates-Distinct listed remembered pool start)) in
    (
      Distinct-append front priority distinct h apart,
      (
        front,
        refl,
        apart,
        omega (arith, length-append {0} front priority, length-take {0} n others),
      ),
    )
