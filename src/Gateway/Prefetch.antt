-- ===== src/Gateway/Prefetch.antt =====
-- The prefetch of the next client-block range (src/gateway/client_blocks.rs), and the range
-- requests. The task that fetches is a parameter of the gateway and has no field here.
pub mod Requests
use hypersync.Prelude.{
  ℕ, ◌+◌, ◌-◌, ◌*◌, ◌/◌, ◌%◌, Bool, ◌&&◌, ◌||◌, Option, none, some, List, [], ◌∷◌, ◌++◌, leb, ltb,
  ◌==◌, if◌then◌else◌, from_le_bytes, u32_max,
}

-- 20 s.
abbrev pub prefetch_max_age : ℕ
prefetch_max_age = 20_000_000_000

abbrev pub prefetch_tip_margin : ℕ
prefetch_tip_margin = 300

abbrev pub prefetch_max_width : ℕ
prefetch_max_width = 1_000

-- `u32::to_le_bytes`.
abbrev pub to_le_bytes : ℕ → List ℕ
to_le_bytes n = n % 256 ∷ n / 256 % 256 ∷ n / 65_536 % 256 ∷ n / 16_777_216 % 256 ∷ []

unfoldable pub client_block_range_request : ℕ → ℕ → List ℕ
client_block_range_request start end =
    (0 ∷ 0 ∷ 0 ∷ 11 ∷ 0 ∷ 0 ∷ 0xfc ∷ []) ++ (to_le_bytes start ++ (0xfc ∷ to_le_bytes end))

-- A request of exactly 16 bytes, else `none`.
unfoldable pub client_block_range : List ℕ → Option (ℕ × ℕ)
client_block_range (a ∷ b ∷ c ∷ d ∷ e ∷ f ∷ g ∷ s0 ∷ s1 ∷ s2 ∷ s3 ∷ h ∷ e0 ∷ e1 ∷ e2 ∷ e3 ∷ []) =
    if (a == 0 && b == 0 && c == 0 && d == 11 && e == 0) && (f == 0 && g == 0xfc && h == 0xfc)
    then some (from_le_bytes s0 s1 s2 s3, from_le_bytes e0 e1 e2 e3)
    else none
client_block_range _ = none

-- `checked_add` on `u32` gives none past `u32_max`.
unfoldable pub next_prefetch_range : ℕ → ℕ → ℕ → Option (ℕ × ℕ)
next_prefetch_range start end freshest =
    if ltb end start || ltb u32_max (end - start + 1)
    then none
    else let width = end - start + 1 in
      if ltb prefetch_max_width width
      then none
      else if ltb u32_max (end + 1) || ltb u32_max (end + width)
      then none
      else if ltb freshest (end + width)
      then none
      else if leb prefetch_tip_margin (freshest - (end + width))
      then some (end + 1, end + width)
      else none

pub record Prefetch : Type 0 where
  pub id : ℕ
  pub start : ℕ
  pub end : ℕ
  pub generation : ℕ
  pub at : ℕ

unfoldable pub serves : ℕ → ℕ → ℕ → ℕ → Prefetch → Bool
serves start end generation now p =
    p.start == start
    && p.end == end
    && p.generation == generation
    && leb (now - p.at) prefetch_max_age
