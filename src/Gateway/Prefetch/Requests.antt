-- ===== src/Gateway/Prefetch/Requests.antt =====
-- Range requests (src/gateway/client_blocks.rs).
use hypersync.Prelude.{ℕ, ◌/◌, ◌%◌, ◌≤◌, ◌≡◌, refl, some, from_le_bytes, u32_max, arith}
use hypersync.Gateway.Prefetch.{client_block_range, client_block_range_request}

bytes_of :
    (n : ℕ)
    → n ≤ u32_max
    → from_le_bytes (n % 256) (n / 256 % 256) (n / 65_536 % 256) (n / 16_777_216 % 256) ≡ n
bytes_of n le = omega arith

-- A request for a range of rounds, as the gateway writes it, is read back as the same range.
pub client_block_range-client_block_range_request :
    (start end : ℕ)
    → start ≤ u32_max
    → end ≤ u32_max
    → client_block_range (client_block_range_request start end) ≡ some (start, end)
unfolding client_block_range client_block_range_request
client_block_range-client_block_range_request start end s e =
    rw (bytes_of start s, bytes_of end e) refl
