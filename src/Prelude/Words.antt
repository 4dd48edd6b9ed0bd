-- ===== src/Prelude/Words.antt =====
-- Machine words over the native numbers: the range of a `u32`, saturating sums, byte order.
use Prim.Native.Nat.{ℕ, ◌+◌, ◌*◌, min}

abbrev pub u32_max : ℕ
u32_max = 4_294_967_295

-- `u32::saturating_add`.
abbrev pub saturating_add : ℕ → ℕ → ℕ
saturating_add a b = min (a + b) u32_max

-- `u32::from_le_bytes` and `u32::from_be_bytes`.
abbrev pub from_le_bytes : ℕ → ℕ → ℕ → ℕ → ℕ
from_le_bytes b0 b1 b2 b3 = b0 + 256 * b1 + 65536 * b2 + 16777216 * b3

abbrev pub from_be_bytes : ℕ → ℕ → ℕ → ℕ → ℕ
from_be_bytes b0 b1 b2 b3 = from_le_bytes b3 b2 b1 b0

-- `Duration::as_millis` of a span in nanoseconds.
abbrev pub ns_per_ms : ℕ
ns_per_ms = 1_000_000
