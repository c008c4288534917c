-- ===== src/Bfd/ByteOrder.antt =====
-- htonl and ntohl of the C library on a host that is little-endian, on which the headers of
-- keepalived/bfd are built and read: the four bytes of a uint32_t in the opposite order.
use keepalived.Common.{ℕ, ◌+◌, ◌*◌, ◌/◌, ◌%◌, ◌^◌, ◌<◌, ◌≡◌, ◌≢◌, arith}

unfoldable pub htonl : ℕ → ℕ
htonl n =
    n % 2 ^ 8 * 2 ^ 24
    + n / 2 ^ 8 % 2 ^ 8 * 2 ^ 16
    + n / 2 ^ 16 % 2 ^ 8 * 2 ^ 8
    + n / 2 ^ 24 % 2 ^ 8

unfoldable pub ntohl : ℕ → ℕ
unfolding htonl
ntohl n = htonl n

pub ntohl-htonl : (n : ℕ) → n < 2 ^ 32 → ntohl (htonl n) ≡ n
unfolding ntohl htonl
ntohl-htonl n h = omega arith

-- The test for zero may be made in either order.
pub htonl_nonzero : (n : ℕ) → n < 2 ^ 32 → n ≢ 0 → htonl n ≢ 0
unfolding htonl
htonl_nonzero n h k e = k (omega arith)
