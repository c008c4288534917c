-- ===== src/Bfd/Machine/Invariant.antt =====
-- What holds of a session whenever no handler of it runs, and that the state change handlers and
-- the timers keep it: in particular no assertion of theirs fails.
use keepalived.Common.{
  ℕ, zero, suc, ◌≤◌, ◌≡◌, refl, ◌⊎◌, inl, inr, Bool, true, false, not, ◌&&◌, ◌||◌, Option, none,
  some, List, ◌∷◌, arith, is_some, Succeeds, Succeeds-mono, sym, Bool-cases, Option-cases,
}
use mathlib.Core.Path.{subst₃}
use keepalived.Timer.{Timeval, timer_never}
use keepalived.Bfd.Session.{Bfd, Ctx, is_up, is_down, is_init, is_admin_down, with_session}
use keepalived.Bfd.Random.{tries}
use keepalived.Bfd.Random.Fresh.{FreeWithin, bfd_get_random_discr_fresh}
use keepalived.Bfd.Socket.{bfd_open_fd_out}
use keepalived.Bfd.Socket.Open.{Opened, bfd_open_fd_out-Opened}
use keepalived.Bfd.Timers.{bfd_sender_schedule}
use keepalived.Bfd.Machine.{
  renew_discr, bfd_state_fall, bfd_state_down, bfd_state_rise, bfd_state_up, bfd_state_init,
  bfd_expire_thread, bfd_reset_thread, bfd_sender_thread, bfd_open_fd_out_thread, bfd_event_send,
}

-- The detection timer runs exactly in Init and Up, the reset timer only in Down; a session in
-- AdminDown sends nothing and has no socket, any other has one; nothing is suspended.
pub record IsRunning (b : Bfd) : Type 0 where
  pub exp : is_some b.thread_exp ≡ (is_init b.local_state || is_up b.local_state)
  pub rst : (is_some b.thread_rst && not (is_down b.local_state)) ≡ false
  pub out : (is_some b.thread_out && is_admin_down b.local_state) ≡ false
  pub fd : is_some b.fd_out ≡ not (is_admin_down b.local_state)
  pub awake_out : b.sands_out ≡ timer_never
  pub awake_exp : b.sands_exp ≡ timer_never
  pub awake_rst : b.sands_rst ≡ timer_never
  pub diag : b.local_diag ≤ 8

-- The numbers of a stream from the n-th on.
abbrev pub later : ℕ → (ℕ → ℕ) → ℕ → ℕ
later zero r = r
later (suc n) r = later n (λ i. r (suc i))

-- Wherever the stream of random numbers stands, the next `tries` of it contain one that gives a
-- free discriminator.
abbrev pub LuckyFor : List ℕ → Timeval → (ℕ → ℕ) → Type 0
LuckyFor discrs now random = (start : ℕ) → FreeWithin tries discrs now (later start random)

abbrev pub IsLucky : Ctx → Type 0
IsLucky c = LuckyFor (c.s.local_discr ∷ c.discrs) c.now c.random

-- At most one random number is used, and no discriminator changes.
pub record SameLuck (c d : Ctx) : Type 0 where
  pub same_discrs : (d.s.local_discr ∷ d.discrs) ≡ (c.s.local_discr ∷ c.discrs)
  pub same_now : d.now ≡ c.now
  pub stream : (d.random ≡ c.random) ⊎ (d.random ≡ λ n. c.random (suc n))

pub SameLuck-IsLucky : (c d : Ctx) → SameLuck c d → IsLucky c → IsLucky d
SameLuck-IsLucky c d l lucky = go l.stream
  where
    go : (d.random ≡ c.random) ⊎ (d.random ≡ λ n. c.random (suc n)) → IsLucky d
    go (inl e) = subst₃ LuckyFor (sym l.same_discrs) (sym l.same_now) (sym e) lucky
    go (inr e) =
        subst₃ LuckyFor (sym l.same_discrs) (sym l.same_now) (sym e) (λ start. lucky (suc start))

-- The handler gives a result, and in it the session runs outside AdminDown.
abbrev pub IsLive : Ctx → Type 0
IsLive c = IsRunning c.s × (is_admin_down c.s.local_state ≡ false)

abbrev pub Lives : Option Ctx → Type 0
Lives o = Succeeds o IsLive

-- The handler gives a result, and in it the session runs.
abbrev pub Runs : Option Ctx → Type 0
Runs o = Succeeds o (λ c. IsRunning c.s)

abbrev pub Renewed : Ctx → Ctx → Type 0
Renewed c d =
    (k : ℕ) × (r : ℕ → ℕ) × (d ≡ record c { s = record (c.s) { local_discr = k }; random = r })

pub renew_discr-Renewed : (c : Ctx) → IsLucky c → Succeeds (renew_discr c) (Renewed c)
unfolding renew_discr
renew_discr-Renewed c lucky = elim (Bool-cases (is_up c.s.local_state)) [
  | inl e ↦
      let (d, rest, found, _, _, _) = bfd_get_random_discr_fresh c (lucky 0) in
      rw (e, renew_discr) (rw found (d, rest, refl))
  | inr e ↦ rw (e, renew_discr) (c.s.local_discr, c.random, refl)
]

-- What a session must meet before a change of its state.
pub record IsOpen (b : Bfd) : Type 0 where
  pub fd : is_some b.fd_out ≡ true
  pub awake_out : b.sands_out ≡ timer_never
  pub awake_exp : b.sands_exp ≡ timer_never
  pub awake_rst : b.sands_rst ≡ timer_never

fall_rest :
    (c d : Ctx) (diag : ℕ)
    → diag ≤ 8
    → IsOpen c.s
    → c.s.thread_rst ≡ none
    → renew_discr c ≡ some d
    → Renewed c d
    → Lives (bfd_state_down c diag)
unfolding bfd_state_down bfd_state_fall bfd_event_send
fall_rest c d diag valid f no_rst e (k, r, renewed) =
    rw (e, bfd_state_down) (rw renewed (ground arith))

pub bfd_state_down-Lives :
    (c : Ctx) (diag : ℕ)
    → IsLucky c
    → diag ≤ 8
    → IsOpen c.s
    → c.s.thread_rst ≡ none
    → Lives (bfd_state_down c diag)
bfd_state_down-Lives c diag lucky valid f no_rst = elim (Option-cases (renew_discr c)) [
  | inl e ↦ absurd (rw e at (renew_discr-Renewed c lucky))
  | inr (d, e) ↦ fall_rest c d diag valid f no_rst e (rw e at (renew_discr-Renewed c lucky))
]

pub bfd_state_up-Lives : (c : Ctx) → IsOpen c.s → Lives (bfd_state_up c)
unfolding bfd_state_up bfd_state_rise bfd_event_send
bfd_state_up-Lives c f = ground arith

pub bfd_state_init-Lives :
    (c : Ctx) → IsOpen c.s → is_up c.s.local_state ≡ false → Lives (bfd_state_init c)
unfolding bfd_state_init bfd_state_rise bfd_sender_schedule
bfd_state_init-Lives c f h = ground arith

pub bfd_state_init-SameLuck :
    (c : Ctx) → is_up c.s.local_state ≡ false → Succeeds (bfd_state_init c) (SameLuck c)
unfolding bfd_state_init bfd_state_rise bfd_sender_schedule
bfd_state_init-SameLuck c h = ground arith

pub bfd_sender_schedule-Runs :
    (c : Ctx)
    → IsRunning c.s
    → is_admin_down c.s.local_state ≡ false
    → c.s.thread_out ≡ none
    → Runs (bfd_sender_schedule c)
unfolding bfd_sender_schedule
bfd_sender_schedule-Runs c v alive idle = ground arith

-- The sender, run by its timer or to answer a poll.
pub bfd_sender_thread-Runs :
    (c : Ctx) (by_timer : Bool)
    → IsRunning c.s
    → is_admin_down c.s.local_state ≡ false
    → Runs (bfd_sender_thread c by_timer)
unfolding bfd_sender_thread bfd_sender_schedule
bfd_sender_thread-Runs c true v alive = ground arith
bfd_sender_thread-Runs c false v alive = ground arith

-- The detection timer of a session that runs.
pub bfd_expire_thread-Runs :
    (c : Ctx)
    → IsRunning c.s
    → IsLucky c
    → is_some c.s.thread_exp ≡ true
    → Runs (bfd_expire_thread c)
unfolding bfd_expire_thread
bfd_expire_thread-Runs c v lucky due =
    let live : (is_up c.s.local_state || is_init c.s.local_state) ≡ true = ground arith in
    rw live (
      Succeeds-mono IsLive (λ d. IsRunning d.s) _
        (bfd_state_down-Lives
          (with_session c (record (c.s) { thread_exp = none; remote_discr = 0 })) 1 lucky
          (omega arith) (ground arith) (ground arith))
        (λ d l. l.0))

pub bfd_reset_thread-Runs :
    (c : Ctx) → IsRunning c.s → is_some c.s.thread_rst ≡ true → Runs (bfd_reset_thread c)
unfolding bfd_reset_thread
bfd_reset_thread-Runs c v due = ground arith

retry_rest :
    (c d : Ctx) (closed : Bool)
    → IsRunning c.s
    → is_some c.s.fd_out ≡ false
    → Opened c (closed, d)
    → bfd_open_fd_out c ≡ some (closed, d)
    → Runs (bfd_open_fd_out_thread c)
unfolding bfd_open_fd_out_thread bfd_sender_schedule
retry_rest c d true v shut (fd, closed, (r, e, _)) o =
    rw (shut, bfd_open_fd_out_thread) (rw o (rw e (ground arith)))
retry_rest c d false v shut (fd, closed, (r, e, _)) o =
    rw (shut, bfd_open_fd_out_thread) (rw o (rw e (ground arith)))

-- The retry of the socket of a session in AdminDown.
pub bfd_open_fd_out_thread-Runs : (c : Ctx) → IsRunning c.s → Runs (bfd_open_fd_out_thread c)
unfolding bfd_open_fd_out_thread
bfd_open_fd_out_thread-Runs c v = elim (Bool-cases (is_some c.s.fd_out)) [
  | inr shut ↦ elim (Option-cases (bfd_open_fd_out c)) [
    | inl e ↦ absurd (rw e at (bfd_open_fd_out-Opened c shut))
    | inr ((closed, d), e) ↦
        retry_rest c d closed v shut (rw e at (bfd_open_fd_out-Opened c shut)) e
  ]
  | inl e ↦ rw (e, bfd_open_fd_out_thread) v
]
