-- ===== src/Protocol/Frames/Count.antt =====
-- What complete_frame_count of src/protocol.rs counts.
use hypersync.Prelude.{
  append-nil, append_assoc, ℕ, zero, suc, ◌+◌, ◌≤◌, ◌≡◌, ◌≢◌, refl, sym, ap, ◌∙◌, ◌↔◌, inl, inr,
  false, none, some, List, [], ◌∷◌, ◌++◌, length, take, drop, from_be_bytes, length-append,
  length-take, take-append-drop, ltb, Bool-cases, subst, arith,
}
use native.Mathlib.Nat.{zero-add, le_refl}
use hypersync.Protocol.Frames.{max_frame, count_frames, complete_frame_count}

-- `Framed buf n`: the buffer is the concatenation of `n` frames, each a big-endian length within
-- the limit, a type byte and a payload of that length.
pub data Framed : List ℕ → ℕ → Type 0 where
  no_frame : Framed [] 0
  frame :
      (b0 b1 b2 b3 typ : ℕ) (payload rest : List ℕ) (n : ℕ)
      → length payload ≡ from_be_bytes b0 b1 b2 b3
      → length payload ≤ max_frame
      → Framed rest n
      → Framed (b0 ∷ b1 ∷ b2 ∷ b3 ∷ typ ∷ (payload ++ rest)) (suc n)

drop_all : (n : ℕ) (xs ys : List ℕ) → length xs ≡ n → drop n (xs ++ ys) ≡ ys
drop_all zero [] ys e = refl
drop_all zero (x ∷ xs) ys e = absurd (omega arith)
drop_all (suc n) [] ys e = absurd (omega arith)
drop_all (suc n) (x ∷ xs) ys e = drop_all n xs ys (omega arith)

Framed→count_frames :
    {buf : List ℕ} {n : ℕ} (fuel frames : ℕ)
    → Framed buf n
    → length buf ≤ fuel
    → count_frames fuel buf frames ≡ some (frames + n)
unfolding count_frames
Framed→count_frames fuel frames no_frame h = ap some (omega arith)
Framed→count_frames zero frames (frame b0 b1 b2 b3 typ payload rest n e small f) h =
    absurd (omega arith)
Framed→count_frames (suc fuel) frames (frame b0 b1 b2 b3 typ payload rest n e small f) h =
    let fits : ltb max_frame (from_be_bytes b0 b1 b2 b3) ≡ false = ground arith in
    let there : ltb (length (payload ++ rest)) (from_be_bytes b0 b1 b2 b3) ≡ false =
      ground (arith, length-append {0} payload rest) in
    rw (fits, there, drop_all (from_be_bytes b0 b1 b2 b3) payload rest e)
      (Framed→count_frames fuel (frames + 1) f (omega (arith, length-append payload rest))
        ∙ ap some (omega arith))

none≢some : {k : ℕ} → none ≢ some k
none≢some = λ e. cc

-- A buffer whose head is a whole frame.
one_more :
    (fuel b0 b1 b2 b3 typ : ℕ) (rest : List ℕ) (frames k : ℕ)
    → from_be_bytes b0 b1 b2 b3 ≤ max_frame
    → from_be_bytes b0 b1 b2 b3 ≤ length rest
    → (n : ℕ) × (k ≡ frames + 1 + n) × Framed (drop (from_be_bytes b0 b1 b2 b3) rest) n
    → (n : ℕ) × (k ≡ frames + n) × Framed (b0 ∷ b1 ∷ b2 ∷ b3 ∷ typ ∷ rest) n
one_more fuel b0 b1 b2 b3 typ rest frames k small fits (n, p, f) =
    let len : ℕ = from_be_bytes b0 b1 b2 b3 in
    let size : length (take len rest) ≡ len = omega (arith, length-take {0} len rest) in
    (
      suc n,
      omega arith,
      subst (λ t. Framed (b0 ∷ b1 ∷ b2 ∷ b3 ∷ typ ∷ t) (suc n)) (take-append-drop len rest)
          (frame b0 b1 b2 b3 typ (take len rest) (drop len rest) n size (omega arith) f),
    )

count_frames→Framed :
    (fuel : ℕ) (buf : List ℕ) (frames k : ℕ)
    → count_frames fuel buf frames ≡ some k
    → (n : ℕ) × (k ≡ frames + n) × Framed buf n
unfolding count_frames
count_frames→Framed fuel [] frames k e = (0, ground arith, no_frame)
count_frames→Framed zero (b0 ∷ buf) frames k e = absurd (none≢some e)
count_frames→Framed (suc fuel) (b0 ∷ []) frames k e = absurd (none≢some e)
count_frames→Framed (suc fuel) (b0 ∷ b1 ∷ []) frames k e = absurd (none≢some e)
count_frames→Framed (suc fuel) (b0 ∷ b1 ∷ b2 ∷ []) frames k e = absurd (none≢some e)
count_frames→Framed (suc fuel) (b0 ∷ b1 ∷ b2 ∷ b3 ∷ []) frames k e = absurd (none≢some e)
count_frames→Framed (suc fuel) (b0 ∷ b1 ∷ b2 ∷ b3 ∷ typ ∷ rest) frames k e =
    elim (Bool-cases (ltb max_frame (from_be_bytes b0 b1 b2 b3))) [
      | inl over ↦ absurd (none≢some (rw (over) at e))
      | inr fits ↦ elim (Bool-cases (ltb (length rest) (from_be_bytes b0 b1 b2 b3))) [
        | inl cut ↦ absurd (none≢some (rw (fits, cut) at e))
        | inr there ↦ one_more fuel b0 b1 b2 b3 typ rest frames k (ground arith) (ground arith) (
            count_frames→Framed fuel (drop (from_be_bytes b0 b1 b2 b3) rest) (frames + 1) k
              (rw (fits, there) at e))
      ]
    ]

-- A captured buffer counts as `n` complete frames exactly when it is the concatenation of `n` frames
-- of the wire format: a partial, oversized or trailing frame is never counted.
pub complete_frame_count-Framed :
    (buf : List ℕ) (n : ℕ) → (complete_frame_count buf ≡ some n) ↔ Framed buf n
unfolding complete_frame_count
complete_frame_count-Framed buf n = (
  λ e.
      (let (m, p, f) = count_frames→Framed (length buf) buf 0 n e in
        subst (Framed buf) (sym p) (rw (zero-add m) f)),
  λ f. Framed→count_frames (length buf) 0 f (le_refl _) ∙ ap some (zero-add n),
)

-- A further frame at the end.
pub Framed-snoc :
    {buf : List ℕ} {n : ℕ} (b0 b1 b2 b3 typ : ℕ) (payload : List ℕ)
    → Framed buf n
    → length payload ≡ from_be_bytes b0 b1 b2 b3
    → length payload ≤ max_frame
    → Framed (buf ++ (b0 ∷ b1 ∷ b2 ∷ b3 ∷ typ ∷ payload)) (suc n)
Framed-snoc b0 b1 b2 b3 typ payload no_frame e small =
    subst (λ t. Framed (b0 ∷ b1 ∷ b2 ∷ b3 ∷ typ ∷ t) 1) (append-nil payload)
      (frame b0 b1 b2 b3 typ payload [] 0 e small no_frame)
Framed-snoc b0 b1 b2 b3 typ payload (frame c0 c1 c2 c3 typ' payload' rest n e' small' f) e small =
    subst (λ t. Framed (c0 ∷ c1 ∷ c2 ∷ c3 ∷ typ' ∷ t) (suc (suc n)))
      (sym (append_assoc payload' rest (b0 ∷ b1 ∷ b2 ∷ b3 ∷ typ ∷ payload)))
      (frame c0 c1 c2 c3 typ' payload' (rest ++ (b0 ∷ b1 ∷ b2 ∷ b3 ∷ typ ∷ payload)) (suc n) e'
        small' (Framed-snoc b0 b1 b2 b3 typ payload f e small))
