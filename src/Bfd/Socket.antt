-- ===== src/Bfd/Socket.antt =====
-- keepalived/bfd/bfd_scheduler.c: the output socket. What the system calls answer is in `Net`.
pub mod Open
use keepalived.Common.{
  ℕ, zero, suc, ◌+◌, ◌%◌, ◌^◌, Bool, true, false, not, ◌&&◌, ltb, ◌==◌, if◌then◌else◌, Option, none,
  some, ◌>>=◌, ◌>>◌, assert, is_some,
}
use keepalived.Bfd.Session.{Bfd, Ctx, Net, Bind, bound, in_use, failed, with_session}
use keepalived.Bfd.Random.{rand_intv, take_random}

abbrev pub bfd_min_port : ℕ
bfd_min_port = 49152

abbrev pub bfd_max_port : ℕ
bfd_max_port = 65535

-- read_local_port_range: the default where the file cannot be read.
range_or_default : Option (ℕ × ℕ) → ℕ × ℕ
range_or_default none = (49152, 60999)
range_or_default (some r) = r

-- The range of /proc/sys/net/ipv4/ip_local_port_range, which `net` gives where it can be read.
unfoldable pub port_limits : Net → ℕ × ℕ
unfolding range_or_default
port_limits net =
    let (lo, hi) = range_or_default net.local_port_range in
    let lo' = if ltb lo bfd_min_port then bfd_min_port else lo in
    let hi' = if ltb bfd_max_port hi then bfd_max_port else hi in
    if ltb hi' (lo' + 1023) then (bfd_min_port, bfd_max_port) else (lo', hi')

-- `if (++port > port_limits[1]) port = port_limits[0];` on a uint16_t
unfoldable pub next_port : ℕ → ℕ → ℕ → ℕ
next_port lo hi port = let p = (port + 1) % 2 ^ 16 in if ltb hi p then lo else p

-- The bind loop from `port`, with fuel: what the last `bind` answered, and for which port.
unfoldable pub bind_loop : (ℕ → Bind) → ℕ → ℕ → ℕ → ℕ → ℕ → Bind × ℕ
unfolding next_port
bind_loop bind lo hi orig zero port = (failed, port)
bind_loop bind lo hi orig (suc fuel) port =
    let p = next_port lo hi port in
    let rest = bind_loop bind lo hi orig fuel p in
    elim (bind port) [
      | in_use ↦ if p == orig then (in_use, port) else rest
      | bound ↦ (bound, port)
      | failed ↦ (failed, port)
    ]

-- No port comes up twice, so the loop has ended within 2 ^ 16 rounds.
abbrev pub bind_fuel : ℕ
bind_fuel = 2 ^ 16 + 1

abbrev is_bound : Bind → Bool
is_bound bound = true
is_bound _ = false

-- Whether the socket could be bound; a session without a source address binds none.
unfoldable pub bind_out : Ctx → Bool × Ctx
unfolding port_limits bind_loop take_random rand_intv
bind_out c =
    if c.s.src_addr.ss_family == 0
    then (true, c)
    else (let (lo, hi) = port_limits c.net in
        let (r, c') = take_random c in
        let port = rand_intv lo hi r in
        (is_bound (bind_loop c.net.bind lo hi port bind_fuel port).0, c'))

-- socket(), the binding and setsockopt(): the descriptor, which is closed where a later step fails.
unfoldable pub open_with : Option ℕ → Ctx → Option ℕ × Ctx
open_with none c = (none, c)
open_with (some fd) c =
    let (ok, c') = bind_out c in (if ok && c.net.setsockopt then some fd else none, c')

unfoldable pub open_socket : Ctx → Option ℕ × Ctx
unfolding open_with
open_socket c = open_with c.net.socket c

-- The result is `true` where the socket could not be opened.
unfoldable pub bfd_open_fd_out : Ctx → Option (Bool × Ctx)
bfd_open_fd_out c = do
  assert (not (is_some c.s.fd_out))
  let (fd, c') = open_socket c
  some (not (is_some fd), with_session c' (record (c'.s) { fd_out = fd }))
