-- ===== src/Peerd/Crawl/Parsed.antt =====
-- What a response of a peer can hold (src/peerd/crawl.rs, parse_query_peers_response).
use hypersync.Prelude.{
  ℕ, zero, suc, ◌*◌, ◌≤◌, ◌<◌, ◌≡◌, inl, inr, true, some, List, [], ◌∷◌, ◌==◌, length, Bool-cases,
  Option-cases, arith,
}
use hypersync.Peerd.Crawl.{
  Ip, is_routable, read_hl_varint, parse_entries, parse_query_peers_response,
}

abbrev pub AllRoutable : List Ip → Type 0
AllRoutable [] = Unit
AllRoutable (x ∷ rest) = (is_routable x ≡ true) × AllRoutable rest

-- Routable addresses, at most one for seven bytes of `payload`.
abbrev pub Fits : List ℕ → List Ip → Type 0
Fits payload found = (7 * length found ≤ length payload) × AllRoutable found

Fits-parse_entries : (count : ℕ) (payload : List ℕ) → Fits payload (parse_entries count payload)
unfolding parse_entries
Fits-parse_entries zero payload = (omega arith, tt)
Fits-parse_entries (suc count) [] = (omega arith, tt)
Fits-parse_entries (suc count) (t ∷ []) = (omega arith, tt)
Fits-parse_entries (suc count) (t ∷ x0 ∷ []) = (omega arith, tt)
Fits-parse_entries (suc count) (t ∷ x0 ∷ x1 ∷ []) = (omega arith, tt)
Fits-parse_entries (suc count) (t ∷ x0 ∷ x1 ∷ x2 ∷ []) = (omega arith, tt)
Fits-parse_entries (suc count) (t ∷ x0 ∷ x1 ∷ x2 ∷ x3 ∷ []) = (omega arith, tt)
Fits-parse_entries (suc count) (t ∷ x0 ∷ x1 ∷ x2 ∷ x3 ∷ e0 ∷ []) = (omega arith, tt)
Fits-parse_entries (suc count) (t ∷ x0 ∷ x1 ∷ x2 ∷ x3 ∷ e0 ∷ e1 ∷ rest) =
    let ip : Ip = record { a = x0; b = x1; c = x2; d = x3 } in
    let (l, r) = Fits-parse_entries count rest in
    elim (Bool-cases (t == 0)) [
      | inr unknown ↦ rw (unknown, length, AllRoutable) (omega arith, tt)
      | inl entry ↦ elim (Bool-cases (is_routable ip)) [
        | inl public ↦ rw (entry, length, AllRoutable, public) (omega arith, (public, r))
        | inr private ↦ rw (entry, length, AllRoutable, private) (omega arith, r)
      ]
    ]

length-read_hl_varint :
    (b : List ℕ) (count : ℕ) (rest : List ℕ)
    → read_hl_varint b ≡ some (count, rest)
    → length rest < length b
unfolding read_hl_varint
length-read_hl_varint b count rest h = ground arith

-- A response yields at most one address for seven of its bytes, whatever count it declares, and
-- every address is routable.
pub parse_query_peers_response-Fits :
    (payload : List ℕ) → Fits payload (parse_query_peers_response payload)
unfolding parse_query_peers_response
parse_query_peers_response-Fits [] = (omega arith, tt)
parse_query_peers_response-Fits (tag ∷ payload) = elim (Bool-cases (tag == 1)) [
  | inr other ↦ rw (other, length, AllRoutable) (omega arith, tt)
  | inl peers ↦ elim (Option-cases (read_hl_varint payload)) [
    | inl cut ↦ rw (peers, length, AllRoutable, cut) (omega arith, tt)
    | inr ((count, rest), found) ↦
        let l = length-read_hl_varint payload count rest found in
        let (k, r) = Fits-parse_entries count rest in
        rw (peers, length, AllRoutable, found) (omega arith, r)
  ]
]
