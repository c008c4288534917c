-- ===== src/Bfd/Workers/Reload.antt =====
-- A reload leaves a session running: nothing is lost between the release of the old session and
-- the registration of the new one.
use keepalived.Common.{
  ℕ, ◌≡◌, ◌≢◌, refl, true, false, not, ◌&&◌, ◌||◌, Option, none, some, arith, ap, ◌∙◌, is_some,
  Succeeds, Succeeds->>=, Succeeds-both, ◌>>=◌, ◌==◌, ◌≤◌,
}
use keepalived.Timer.{Timeval, timer_never}
use keepalived.Bfd.Session.{Bfd, Ctx, Thread, is_up, is_down, is_init, is_admin_down, with_session}
use keepalived.Bfd.Timers.{thread_time_to_wakeup, bfd_sender_schedule}
use keepalived.Bfd.Machine.Invariant.{IsRunning}
use keepalived.Bfd.Workers.{
  inherit, register_sender, register_expire, register_reset, register_rest, register_session,
  release_session,
}

-- No timer is due 2 ^ 64 - 1 microseconds ahead, the value that stands for "not suspended".
abbrev pub Wakes : Timeval → Option Thread → Type 0
Wakes now none = Unit
Wakes now (some t) = thread_time_to_wakeup now t ≢ timer_never

pub record AllWake (now : Timeval) (b : Bfd) : Type 0 where
  pub wake_out : Wakes now b.thread_out
  pub wake_exp : Wakes now b.thread_exp
  pub wake_rst : Wakes now b.thread_rst

-- A session between its release and its registration: what was a timer is now an interval.
pub record IsSuspended (b : Bfd) : Type 0 where
  pub out : b.thread_out ≡ none
  pub exp : b.thread_exp ≡ none
  pub rst : b.thread_rst ≡ none
  pub open_fd : b.thread_open_fd_out ≡ none
  pub fd : b.fd_out ≡ none
  pub out_kept : (not (b.sands_out == timer_never) && is_admin_down b.local_state) ≡ false
  pub exp_kept : not (b.sands_exp == timer_never) ≡ (is_init b.local_state || is_up b.local_state)
  pub rst_kept : (not (b.sands_rst == timer_never) && not (is_down b.local_state)) ≡ false
  pub diag : b.local_diag ≤ 8

pub release_session-IsSuspended :
    (now : Timeval) (b : Bfd)
    → IsRunning b
    → AllWake now b
    → Succeeds (release_session now b) IsSuspended
unfolding release_session
release_session-IsSuspended now b v w = ground arith

-- The new session of a reload, before its socket is opened: nothing of it runs.
pub record IsNew (b : Bfd) : Type 0 where
  pub out : b.thread_out ≡ none
  pub exp : b.thread_exp ≡ none
  pub rst : b.thread_rst ≡ none
  pub open_fd : b.thread_open_fd_out ≡ none
  pub fd : b.fd_out ≡ none

-- The state and the intervals pass to the session of the new configuration.
pub inherit-IsSuspended : (old b : Bfd) → IsSuspended old → IsNew b → IsSuspended (inherit old b)
unfolding inherit
inherit-IsSuspended old b s n = ground arith

-- After the sender, and after the detection timer, of a session outside AdminDown.
record HasSender (b : Bfd) : Type 0 where
  alive : is_admin_down b.local_state ≡ false
  exp : b.thread_exp ≡ none
  rst : b.thread_rst ≡ none
  fd : is_some b.fd_out ≡ true
  awake_out : b.sands_out ≡ timer_never
  exp_kept : not (b.sands_exp == timer_never) ≡ (is_init b.local_state || is_up b.local_state)
  rst_kept : (not (b.sands_rst == timer_never) && not (is_down b.local_state)) ≡ false
  diag : b.local_diag ≤ 8

record HasExpire (b : Bfd) : Type 0 where
  alive : is_admin_down b.local_state ≡ false
  exp : is_some b.thread_exp ≡ (is_init b.local_state || is_up b.local_state)
  rst : b.thread_rst ≡ none
  fd : is_some b.fd_out ≡ true
  awake_out : b.sands_out ≡ timer_never
  awake_exp : b.sands_exp ≡ timer_never
  rst_kept : (not (b.sands_rst == timer_never) && not (is_down b.local_state)) ≡ false
  diag : b.local_diag ≤ 8

register_sender-HasSender :
    (c : Ctx)
    → IsSuspended (record (c.s) { fd_out = none })
    → is_admin_down c.s.local_state ≡ false
    → is_some c.s.fd_out ≡ true
    → Succeeds (register_sender c) (λ d. HasSender d.s)
unfolding register_sender bfd_sender_schedule
register_sender-HasSender c s alive fd = ground arith

register_expire-HasExpire :
    (now : Timeval) (b : Bfd) → HasSender b → Succeeds (register_expire now b) HasExpire
unfolding register_expire
register_expire-HasExpire now b s = ground arith

register_reset-IsRunning :
    (now : Timeval) (b : Bfd) → HasExpire b → Succeeds (register_reset now b) IsRunning
unfolding register_reset
register_reset-IsRunning now b s = ground arith

register_rest-IsRunning : (c : Ctx) → IsRunning c.s → IsRunning (register_rest c).s
unfolding register_rest
register_rest-IsRunning c v = ground arith

-- With its socket open a suspended session outside AdminDown runs again.
pub register_session-IsRunning :
    (c : Ctx)
    → IsSuspended (record (c.s) { fd_out = none })
    → is_admin_down c.s.local_state ≡ false
    → is_some c.s.fd_out ≡ true
    → Succeeds (register_session c) (λ d. IsRunning d.s)
unfolding register_session
register_session-IsRunning c s alive fd =
    Succeeds->>= (λ d. HasSender d.s) (λ d. IsRunning d.s) (register_sender c) _
      (register_sender-HasSender c s alive fd)
      λ c' h.
        Succeeds->>= HasExpire (λ d. IsRunning d.s) (register_expire c'.now c'.s) _
          (register_expire-HasExpire c'.now c'.s h)
          λ b e.
            Succeeds->>= IsRunning (λ d. IsRunning d.s) (register_reset c'.now b) _
              (register_reset-IsRunning c'.now b e)
              λ b' v. register_rest-IsRunning (with_session c' b') v

-- A whole reload of one session: release, copy, open, register.
pub reload_session : Timeval → Bfd → Bfd → Ctx → ℕ → Option Ctx
reload_session now old b c fd = release_session now old >>= λ s.
    register_session (with_session c (record (inherit s b) { fd_out = some fd }))

release_session-state :
    (now : Timeval) (b : Bfd)
    → IsRunning b
    → AllWake now b
    → Succeeds (release_session now b) (λ s. s.local_state ≡ b.local_state)
unfolding release_session
release_session-state now b v w = ground arith

inherit-state : (s b : Bfd) → (inherit s b).local_state ≡ s.local_state
unfolding inherit
inherit-state s b = ground arith

abbrev without_fd : Bfd → Bfd
without_fd b = record b { fd_out = none }

no_fd : (b : Bfd) → IsSuspended b → IsSuspended (without_fd b)
no_fd b s = ground arith

-- A session that runs outside AdminDown runs after the reload, if its socket can be opened and no
-- timer of it is due exactly 2 ^ 64 - 1 microseconds ahead.
pub reload_session-IsRunning :
    (now : Timeval) (old b : Bfd) (c : Ctx) (fd : ℕ)
    → IsRunning old
    → is_admin_down old.local_state ≡ false
    → AllWake now old
    → IsNew b
    → Succeeds (reload_session now old b c fd) (λ d. IsRunning d.s)
unfolding reload_session
reload_session-IsRunning now old b c fd v alive w n =
    Succeeds->>= (λ s. IsSuspended s × (s.local_state ≡ old.local_state)) (λ d. IsRunning d.s)
      (release_session now old) _
      (Succeeds-both IsSuspended (λ s. s.local_state ≡ old.local_state) _
        (release_session-IsSuspended now old v w) (release_session-state now old v w))
      λ s h.
        register_session-IsRunning (with_session c (record (inherit s b) { fd_out = some fd }))
          (no_fd (inherit s b) (inherit-IsSuspended s b h.0 n))
          (ap is_admin_down (inherit-state s b ∙ h.1) ∙ alive) refl
