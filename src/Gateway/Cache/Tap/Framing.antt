-- ===== src/Gateway/Cache/Tap/Framing.antt =====
-- What the cache tap of a relay holds while it captures (src/gateway/cache.rs).
use hypersync.Prelude.{
  ℕ, ◌+◌, ◌-◌, ◌≤◌, ◌≡◌, refl, sym, subst, inl, inr, Option, none, some, List, [], ◌∷◌, ◌++◌, leb,
  ◌==◌, length, take, min, length-append, length-take, append-nil, append_assoc, Bool-cases, arith,
}
use hypersync.Gateway.Cache.Tap.{
  Chunk, Tap, Progress, go_on, ended, extended, drop_slow_capture, deliver, read_chunks,
  relay_buffer,
}

-- A capture that went on took `n` more bytes; one that stopped stays so.
abbrev pub Extends : ℕ → Option (List ℕ) → Option (List ℕ) → Type 0
Extends n old none = Unit
Extends n none (some b) = ⊥
Extends n (some a) (some b) = (got : List ℕ) × (b ≡ a ++ got) × (length got ≡ n)

-- Everything else that the capture rests on is as before.
abbrev pub IsSame : Tap → Tap → Type 0
IsSame t u = (u.frames ≡ t.frames) × (u.sink ≡ t.sink)

abbrev pub IsRead : ℕ → Tap → Progress → Type 0
IsRead n t (go_on u) = Extends n t.tap u.tap × IsSame t u
IsRead n t (ended e u) = u.sink ≡ t.sink

Extends-add :
    (n m k : ℕ) (a b c : Option (List ℕ))
    → k ≡ n + m
    → Extends n a b
    → Extends m b c
    → Extends k a c
Extends-add n m k a b none e h j = tt
Extends-add n m k none none (some c) e h j = j
Extends-add n m k none (some b) (some c) e h j = absurd h
Extends-add n m k (some a) none (some c) e h j = absurd j
Extends-add n m k (some a) (some b) (some c) e (got, p, l) (more, q, r) =
    (got ++ more, rw (q, p) (append_assoc a got more), omega (arith, length-append {0} got more))

deliver-Extends :
    (bytes : List ℕ) (o : Option (List ℕ)) → Extends (length bytes) o (extended bytes o)
deliver-Extends bytes none = tt
deliver-Extends bytes (some b) = (bytes, refl, refl)

Extends-refl : (o : Option (List ℕ)) → Extends 0 o o
Extends-refl none = tt
Extends-refl (some b) = ([], sym (append-nil b), refl)

pub drop_slow_capture-IsRead : (now : ℕ) (t : Tap) → IsRead 0 t (go_on (drop_slow_capture now t))
unfolding drop_slow_capture
drop_slow_capture-IsRead now t = elim (Bool-cases (leb t.capture_deadline now)) [
  | inl late ↦ rw late (tt, (refl, refl))
  | inr early ↦ rw early (Extends-refl t.tap, (refl, refl))
]

pub IsRead-then :
    (n m k : ℕ) (t u : Tap) (p : Progress)
    → k ≡ n + m
    → IsRead n t (go_on u)
    → IsRead m u p
    → IsRead k t p
IsRead-then n m k t u (go_on v) e (h, (f, s)) (j, (g, r)) =
    (Extends-add n m k t.tap u.tap v.tap e h j, (rw g f, rw r s))
IsRead-then n m k t u (ended x v) e (h, (f, s)) j = rw j s

pub deliver-IsRead : (bytes : List ℕ) (t : Tap) → IsRead (length bytes) t (go_on (deliver bytes t))
unfolding deliver
deliver-IsRead bytes t = (deliver-Extends bytes t.tap, (refl, refl))

pub read_chunks-IsRead :
    (remaining : ℕ) (chunks : List Chunk) (t : Tap)
    → IsRead remaining t (read_chunks remaining chunks t)
unfolding read_chunks
read_chunks-IsRead remaining [] t = elim (Bool-cases (remaining == 0)) [
  | inl all ↦
      rw all (subst (λ n. Extends n t.tap t.tap) (ground arith) (Extends-refl t.tap), (refl, refl))
  | inr more ↦ rw more refl
]
read_chunks-IsRead remaining (c ∷ chunks) t =
    let got = take (min remaining relay_buffer) c.bytes in
    let t' = drop_slow_capture c.now t in
    let h = drop_slow_capture-IsRead c.now t in
    let fits : length got ≤ remaining =
      omega (arith, length-take {0} (min remaining relay_buffer) c.bytes) in
    elim (Bool-cases (remaining == 0)) [
      | inl all ↦
          rw (all, read_chunks)
            (subst (λ n. Extends n t.tap t.tap) (ground arith) (Extends-refl t.tap), (refl, refl))
      | inr more ↦ elim (Bool-cases (length got == 0)) [
        | inl gone ↦ rw (more, read_chunks, gone) h.1.1
        | inr some_read ↦ elim (Bool-cases c.written) [
          | inr lost ↦ rw (more, read_chunks, some_read, lost) h.1.1
          | inl taken ↦
              rw (more, read_chunks, some_read, taken)
                (IsRead-then 0 remaining remaining t t' _ (omega arith) h (
                  IsRead-then (length got) (remaining - length got) remaining t' (deliver got t') _
                    (omega arith) (deliver-IsRead got t')
                    (read_chunks-IsRead (remaining - length got) chunks (deliver got t'))))
        ]
      ]
    ]
