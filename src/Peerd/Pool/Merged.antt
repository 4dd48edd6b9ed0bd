-- ===== src/Peerd/Pool/Merged.antt =====
-- What a kept pool holds (src/peerd/daemon.rs, merge_kept_pool).
use Prim.Native.String.{String}
use text.Mathlib.Text.{◌==◌ as str_eq}
use text.Mathlib.TextEquality.{eq_iff}
use hypersync.Prelude.{
  ◌≤◌, ◌≡◌, refl, inl, inr, ◌⊎◌, true, false, ◌||◌, not, List, [], ◌∷◌, ◌++◌, leb, length,
  length-append, Bool-cases, arith,
}
use hypersync.Peerd.Pool.{
  is_in, push_new, add_unfailed, add_failed, merge_kept_pool, min_live_servers_to_overwrite,
}

is_in-append_left : (q : String) (a b : List String) → is_in q a ≡ true → is_in q (a ++ b) ≡ true
unfolding is_in
is_in-append_left q [] b h = absurd (ground arith)
is_in-append_left q (x ∷ a) b h = elim (Bool-cases (str_eq x q)) [
  | inl same ↦ rw same refl
  | inr other ↦ rw other (is_in-append_left q a b (rw (other, is_in) at h))
]

is_in-append_last : (q : String) (a : List String) → is_in q (a ++ (q ∷ [])) ≡ true
unfolding is_in
is_in-append_last q [] = let e : str_eq q q ≡ true = (eq_iff q q).1 refl in rw e refl
is_in-append_last q (x ∷ a) = elim (Bool-cases (str_eq x q)) [
  | inl same ↦ rw same refl
  | inr other ↦ rw other (is_in-append_last q a)
]

is_in-push_new :
    (q ip : String) (out : List String) → is_in q out ≡ true → is_in q (push_new ip out) ≡ true
unfolding push_new
is_in-push_new q ip out h = elim (Bool-cases (is_in ip out)) [
  | inl there ↦ rw there h
  | inr fresh ↦ rw fresh (is_in-append_left q out (ip ∷ []) h)
]

is_in-push_new_self :
    (q ip : String) (out : List String) → str_eq ip q ≡ true → is_in q (push_new ip out) ≡ true
unfolding push_new
is_in-push_new_self q ip out e = elim (Bool-cases (is_in ip out)) [
  | inl there ↦ rw (there, ← (eq_iff ip q).0 e) there
  | inr fresh ↦ rw (fresh, ← (eq_iff ip q).0 e) (is_in-append_last ip out)
]

length-push_new : (ip : String) (out : List String) → length out ≤ length (push_new ip out)
unfolding push_new
length-push_new ip out = elim (Bool-cases (is_in ip out)) [
  | inl there ↦ rw there (omega arith)
  | inr fresh ↦ let h = length-append out (ip ∷ []) in rw fresh (omega arith)
]

add_unfailed-keeps :
    (failed previous out : List String) (q : String)
    → is_in q out ≡ true
    → is_in q (add_unfailed failed previous out) ≡ true
unfolding add_unfailed
add_unfailed-keeps failed [] out q h = h
add_unfailed-keeps failed (ip ∷ previous) out q h = elim (Bool-cases (is_in ip failed)) [
  | inl bad ↦ rw bad (add_unfailed-keeps failed previous out q h)
  | inr fine ↦
      rw fine (add_unfailed-keeps failed previous (push_new ip out) q (is_in-push_new q ip out h))
]

add_unfailed-adds :
    (failed previous out : List String) (q : String)
    → is_in q previous ≡ true
    → is_in q failed ≡ false
    → is_in q (add_unfailed failed previous out) ≡ true
unfolding add_unfailed is_in
add_unfailed-adds failed [] out q h f = absurd (ground arith)
add_unfailed-adds failed (ip ∷ previous) out q h f = elim (Bool-cases (str_eq ip q)) [
  | inl same ↦
      let fine : is_in ip failed ≡ false = rw ((eq_iff ip q).0 same) f in
      rw fine
        (add_unfailed-keeps failed previous (push_new ip out) q (is_in-push_new_self q ip out same))
  | inr other ↦ add_unfailed-adds failed previous _ q (rw (other, is_in) at h) f
]

add_failed-keeps :
    (failed previous out : List String) (q : String)
    → is_in q out ≡ true
    → is_in q (add_failed failed previous out) ≡ true
unfolding add_failed
add_failed-keeps failed [] out q h = h
add_failed-keeps failed (ip ∷ previous) out q h =
    elim (Bool-cases (not (is_in ip failed) || leb min_live_servers_to_overwrite (length out))) [
      | inl skipped ↦ rw skipped (add_failed-keeps failed previous out q h)
      | inr added ↦
          rw added
            (add_failed-keeps failed previous (push_new ip out) q (is_in-push_new q ip out h))
    ]

length-add_failed :
    (failed previous out : List String) → length out ≤ length (add_failed failed previous out)
unfolding add_failed
length-add_failed failed [] out = omega arith
length-add_failed failed (ip ∷ previous) out =
    elim (Bool-cases (not (is_in ip failed) || leb min_live_servers_to_overwrite (length out))) [
      | inl skipped ↦ rw skipped (length-add_failed failed previous out)
      | inr added ↦
          let h = length-push_new ip out in
          let k = length-add_failed failed previous (push_new ip out) in rw added (omega arith)
    ]

add_failed-adds :
    (failed previous out : List String) (q : String)
    → is_in q previous ≡ true
    → is_in q failed ≡ true
    → (is_in q (add_failed failed previous out) ≡ true)
      ⊎ (min_live_servers_to_overwrite ≤ length (add_failed failed previous out))
unfolding add_failed is_in
add_failed-adds failed [] out q h f = absurd (ground arith)
add_failed-adds failed (ip ∷ previous) out q h f = elim (Bool-cases (str_eq ip q)) [
  | inr other ↦ add_failed-adds failed previous _ q (rw (other, is_in) at h) f
  | inl same ↦
      let bad : is_in ip failed ≡ true = rw ((eq_iff ip q).0 same) f in
      elim (Bool-cases (leb min_live_servers_to_overwrite (length out))) [
        | inl full ↦
            let k = length-add_failed failed previous out in rw (bad, full) (inr (ground arith))
        | inr thin ↦
            rw (bad, thin)
              (inl (
                add_failed-keeps failed previous (push_new ip out) q
                  (is_in-push_new_self q ip out same)))
      ]
]

-- A kept pool holds every peer that the probe ranked, and every previous one that did not fail.
pub merge_kept_pool-keeps :
    (ranked previous failed : List String) (q : String)
    → (is_in q ranked ≡ true) ⊎ ((is_in q previous ≡ true) × (is_in q failed ≡ false))
    → is_in q (merge_kept_pool ranked previous failed) ≡ true
unfolding merge_kept_pool
merge_kept_pool-keeps ranked previous failed q (inl h) =
    add_failed-keeps failed previous _ q (add_unfailed-keeps failed previous ranked q h)
merge_kept_pool-keeps ranked previous failed q (inr (h, f)) =
    add_failed-keeps failed previous _ q (add_unfailed-adds failed previous ranked q h f)

-- A previous peer is left out of a kept pool only if the pool has eight peers without it.
pub merge_kept_pool-full :
    (ranked previous failed : List String) (q : String)
    → is_in q previous ≡ true
    → (is_in q (merge_kept_pool ranked previous failed) ≡ true)
      ⊎ (min_live_servers_to_overwrite ≤ length (merge_kept_pool ranked previous failed))
unfolding merge_kept_pool
merge_kept_pool-full ranked previous failed q h = elim (Bool-cases (is_in q failed)) [
  | inl bad ↦ add_failed-adds failed previous (add_unfailed failed previous ranked) q h bad
  | inr fine ↦ inl (merge_kept_pool-keeps ranked previous failed q (inr (h, fine)))
]
