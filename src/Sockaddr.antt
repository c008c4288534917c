-- ===== src/Sockaddr.antt =====
-- Socket addresses, and their comparison in lib/utils.c. An address is the number that its bytes
-- make in network order, so that the words of an IPv6 address need no loop.
use keepalived.Common.{ℕ, not, ◌&&◌, ltb, ◌==◌, if◌then◌else◌}
use keepalived.Common.Int.{ℤ, pos, negsuc}

-- The family (0 where none is set) and the address, with no port.
pub record Sockaddr : Type 0 where
  pub ss_family : ℕ
  pub addr : ℕ

abbrev pub af_inet : ℕ
af_inet = 2

abbrev pub af_inet6 : ℕ
af_inet6 = 10

-- 1, 0 or -1 by the order of the addresses, and -2 for an unknown family.
unfoldable pub inet_inaddrcmp : ℕ → ℕ → ℕ → ℤ
inet_inaddrcmp family a b =
    if not (family == af_inet) && not (family == af_inet6)
    then negsuc 1
    else if ltb b a
    then pos 1
    else if ltb a b
    then negsuc 0
    else pos 0

unfoldable pub inet_sockaddrcmp : Sockaddr → Sockaddr → ℤ
unfolding inet_inaddrcmp
inet_sockaddrcmp a b =
    if not (a.ss_family == b.ss_family)
    then negsuc 1
    else if a.ss_family == af_inet
    then inet_inaddrcmp a.ss_family a.addr b.addr
    else if a.ss_family == af_inet6
    then inet_inaddrcmp a.ss_family a.addr b.addr
    else pos 0
