-- ===== src/Bfd/Machine/Demand.antt =====
-- Two corners of the timers: a session that expires while the neighbour is in demand mode, and the
-- handle of the retry of the socket.
use keepalived.Common.{
  ℕ, ◌≡◌, true, false, Option, none, some, arith, is_some, Succeeds, Option-cases, ◌≤◌, ◌||◌, inl,
  inr,
}
use keepalived.Bfd.Session.{Bfd, Ctx, Thread, State, is_up, is_init, with_session}
use keepalived.Bfd.Socket.{bfd_open_fd_out}
use keepalived.Bfd.Socket.Open.{Opened, bfd_open_fd_out-Opened}
use keepalived.Bfd.Machine.{
  bfd_expire_thread, bfd_reset_thread, bfd_state_down, bfd_state_fall, bfd_event_send, renew_discr,
  bfd_open_fd_out_thread,
}
use keepalived.Bfd.Machine.Invariant.{IsRunning, IsLucky, Renewed, renew_discr-Renewed}
use keepalived.Bfd.Timers.{bfd_sender_schedule}

-- Down, and with no packet to come.
pub record IsSilent (b : Bfd) : Type 0 where
  pub fallen : b.local_state ≡ State.down
  pub nothing_due : b.thread_out ≡ none
  pub reset_due : is_some b.thread_rst ≡ true

fall-IsSilent :
    (c d : Ctx) (diag : ℕ)
    → diag ≤ 8
    → Renewed c d
    → renew_discr c ≡ some d
    → is_some c.s.thread_rst ≡ false
    → c.s.thread_out ≡ none
    → Succeeds (bfd_state_down c diag) (λ e. IsSilent e.s)
unfolding bfd_state_down bfd_state_fall bfd_event_send
fall-IsSilent c d diag valid (k, r, renewed) e idle mute =
    rw (e, bfd_state_down) (rw renewed (ground arith))

down-IsSilent :
    (c : Ctx) (diag : ℕ)
    → IsLucky c
    → diag ≤ 8
    → is_some c.s.thread_rst ≡ false
    → c.s.thread_out ≡ none
    → Succeeds (bfd_state_down c diag) (λ e. IsSilent e.s)
down-IsSilent c diag lucky valid idle mute = elim (Option-cases (renew_discr c)) [
  | inl e ↦ absurd (rw e at (renew_discr-Renewed c lucky))
  | inr (d, e) ↦ fall-IsSilent c d diag valid (rw e at (renew_discr-Renewed c lucky)) e idle mute
]

-- A running active session that is up and whose sender stands still, as it does for the neighbour's
-- demand mode, goes Down when it expires without starting its sender, with a free discriminator
-- among the numbers that the search tries.
pub bfd_expire_thread-IsSilent :
    (c : Ctx)
    → IsRunning c.s
    → IsLucky c
    → c.s.local_state ≡ State.up
    → c.s.passive ≡ false
    → c.s.thread_out ≡ none
    → Succeeds (bfd_expire_thread c) (λ d. IsSilent d.s)
unfolding bfd_expire_thread
bfd_expire_thread-IsSilent c v lucky up active mute =
    let live : (is_up c.s.local_state || is_init c.s.local_state) ≡ true = ground arith in
    rw live (
      down-IsSilent (with_session c (record (c.s) { thread_exp = none; remote_discr = 0 })) 1 lucky
        (omega arith) (ground arith) mute)

-- Nor does the reset of the session start it.
pub bfd_reset_thread-silent :
    (c : Ctx)
    → IsSilent c.s
    → Succeeds (bfd_reset_thread c) (λ d.
      (d.s.local_state ≡ State.down) × (d.s.thread_out ≡ none) × (d.s.remote_demand ≡ false))
unfolding bfd_reset_thread
bfd_reset_thread-silent c s = ground arith

-- Out of AdminDown, with the handle of a timer that has run.
abbrev pub IsStale : Option Thread → Bfd → Type 0
IsStale handle b =
    (b.local_state ≡ State.down) × (is_some b.fd_out ≡ true) × (b.thread_open_fd_out ≡ handle)

reopen-IsStale :
    (c d : Ctx)
    → IsRunning c.s
    → is_some c.s.fd_out ≡ false
    → Opened c (false, d)
    → bfd_open_fd_out c ≡ some (false, d)
    → Succeeds (bfd_open_fd_out_thread c) (λ e. IsStale c.s.thread_open_fd_out e.s)
unfolding bfd_open_fd_out_thread bfd_sender_schedule
reopen-IsStale c d v shut (fd, closed, (r, e, _)) o =
    rw (shut, bfd_open_fd_out_thread) (rw o (rw e (ground arith)))

-- When the retry opens the socket of a running session that has none, the session leaves AdminDown, and its handle of the retry is left
-- as it was: it still names the timer that has just run.
pub bfd_open_fd_out_thread-IsStale :
    (c d : Ctx)
    → IsRunning c.s
    → is_some c.s.fd_out ≡ false
    → bfd_open_fd_out c ≡ some (false, d)
    → Succeeds (bfd_open_fd_out_thread c) (λ e. IsStale c.s.thread_open_fd_out e.s)
bfd_open_fd_out_thread-IsStale c d v shut o =
    reopen-IsStale c d v shut (rw o at (bfd_open_fd_out-Opened c shut)) o
