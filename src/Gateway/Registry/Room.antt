-- ===== src/Gateway/Registry/Room.antt =====
-- Which nodes are evicted (src/gateway/node.rs, node_state_evict_keys).
use hypersync.Prelude.{
  ℕ, zero, suc, ◌+◌, ◌-◌, ◌≤◌, ◌≡◌, refl, inl, inr, ◌⊎◌, Bool, true, false, List, [], ◌∷◌, ◌++◌,
  leb, ltb, length, take, min, Bool-cases, arith,
}
use hypersync.Gateway.Registry.{
  Entry, is_expired, is_evictable, select, is_before, insert_by_age, sort_by_age, evict_entries,
}

-- All entries have no open connections.
abbrev pub AllIdle : List Entry → Type 0
AllIdle [] = Unit
AllIdle (e ∷ rest) = (e.held ≡ false) × AllIdle rest

AllIdle-select :
    (test : Entry → Bool) (entries : List Entry)
    → ((e : Entry) → test e ≡ true → e.held ≡ false)
    → AllIdle (select test entries)
unfolding select
AllIdle-select test [] h = tt
AllIdle-select test (e ∷ rest) h = elim (Bool-cases (test e)) [
  | inl kept ↦ rw kept (h e kept, AllIdle-select test rest h)
  | inr gone ↦ rw gone (AllIdle-select test rest h)
]

AllIdle-insert_by_age :
    (e : Entry) (rest : List Entry) → e.held ≡ false → AllIdle rest → AllIdle (insert_by_age e rest)
unfolding insert_by_age
AllIdle-insert_by_age e [] i h = (i, tt)
AllIdle-insert_by_age e (f ∷ rest) i h = elim (Bool-cases (is_before e f)) [
  | inl before ↦ rw before (i, h)
  | inr after ↦ rw after (h.0, AllIdle-insert_by_age e rest i h.1)
]

AllIdle-sort_by_age : (entries : List Entry) → AllIdle entries → AllIdle (sort_by_age entries)
unfolding sort_by_age
AllIdle-sort_by_age [] h = tt
AllIdle-sort_by_age (e ∷ rest) h =
    AllIdle-insert_by_age e (sort_by_age rest) h.0 (AllIdle-sort_by_age rest h.1)

AllIdle-take : (n : ℕ) (entries : List Entry) → AllIdle entries → AllIdle (take n entries)
AllIdle-take zero entries h = tt
AllIdle-take (suc n) [] h = tt
AllIdle-take (suc n) (e ∷ rest) h = (h.0, AllIdle-take n rest h.1)

AllIdle-append : (a b : List Entry) → AllIdle a → AllIdle b → AllIdle (a ++ b)
AllIdle-append [] b h k = k
AllIdle-append (e ∷ a) b h k = (h.0, AllIdle-append a b h.1 k)

length-append : (a b : List Entry) → length (a ++ b) ≡ length a + length b
length-append [] b = omega arith
length-append (e ∷ a) b = let h = length-append a b in omega arith

length-take : (n : ℕ) (a : List Entry) → length (take n a) ≡ min n (length a)
length-take zero a = omega arith
length-take (suc n) [] = omega arith
length-take (suc n) (e ∷ a) = let h = length-take n a in omega arith

length-insert_by_age :
    (e : Entry) (rest : List Entry) → length (insert_by_age e rest) ≡ length rest + 1
unfolding insert_by_age
length-insert_by_age e [] = omega arith
length-insert_by_age e (f ∷ rest) = elim (Bool-cases (is_before e f)) [
  | inl before ↦ rw before (omega arith)
  | inr after ↦ let h = length-insert_by_age e rest in rw after (omega arith)
]

length-sort_by_age : (entries : List Entry) → length (sort_by_age entries) ≡ length entries
unfolding sort_by_age
length-sort_by_age [] = refl
length-sort_by_age (e ∷ rest) =
    let h = length-sort_by_age rest in
    let k = length-insert_by_age e (sort_by_age rest) in omega arith

-- Each entry is expired, evictable or held.
length-select :
    (now ttl : ℕ) (entries : List Entry)
    → length (select (is_expired now ttl) entries)
        + length (select (is_evictable now ttl) entries)
        + length (select (λ (e : Entry). e.held) entries)
      ≡ length entries
unfolding select
length-select now ttl [] = refl
length-select now ttl (e ∷ rest) = let h = length-select now ttl rest in ground arith

-- No node with an open connection is evicted, and the eviction makes room for one more node,
-- unless it leaves only nodes with open connections.
pub evict_entries-idle :
    (entries : List Entry) (now cap ttl : ℕ)
    → AllIdle (evict_entries entries now cap ttl)
      × ((length entries - length (evict_entries entries now cap ttl) + 1 ≤ cap)
          ⊎ (length entries - length (evict_entries entries now cap ttl)
              ≡ length (select (λ (e : Entry). e.held) entries)))
unfolding evict_entries
evict_entries-idle entries now cap ttl =
    let evict : List Entry = select (is_expired now ttl) entries in
    let evictable : List Entry = select (is_evictable now ttl) entries in
    let kept : ℕ = length entries - length evict in
    let total = length-select now ttl entries in
    let expired = AllIdle-select (is_expired now ttl) entries (λ e h. ground arith) in
    let chosen = AllIdle-select (is_evictable now ttl) entries (λ e h. ground arith) in
    elim (Bool-cases (ltb cap (kept + 1))) [
      | inr room ↦ rw room (expired, inl (ground arith))
      | inl full ↦
          let n : ℕ = min (kept + 1 - cap) (length evictable) in
          let l1 = length-append evict (take n (sort_by_age evictable)) in
          let l2 = length-take n (sort_by_age evictable) in
          let l3 = length-sort_by_age evictable in
          rw full (
            AllIdle-append evict (take n (sort_by_age evictable)) expired
                (AllIdle-take n (sort_by_age evictable) (AllIdle-sort_by_age evictable chosen)),
            elim (Bool-cases (leb (kept + 1 - cap) (length evictable))) [
              | inl fits ↦ inl (ground arith)
              | inr short ↦ inr (ground arith)
            ],
          )
    ]
