-- ===== src/Bfd/System.antt =====
-- A session under everything that can happen to it while the process runs: packets, timers that
-- come due, the event list, and changes of the surroundings, in any order.
use keepalived.Common.{ℕ, ◌≡◌, true, false, Option, some, is_some, List, arith}
use keepalived.Timer.{Timeval}
use keepalived.Bfd.Session.{Ctx, Net, Packet, is_admin_down}
use keepalived.Bfd.Machine.{
  bfd_sender_thread, bfd_expire_thread, bfd_reset_thread, bfd_open_fd_out_thread,
}
use keepalived.Bfd.Machine.Invariant.{
  IsRunning, IsLucky, Runs, bfd_sender_thread-Runs, bfd_expire_thread-Runs, bfd_reset_thread-Runs,
  bfd_open_fd_out_thread-Runs,
}
use keepalived.Bfd.Handle.{handle_session}
use keepalived.Bfd.Handle.Safety.{handle_session-Runs}

-- What the scheduler may run next.
pub data Happening : Type 0 where
  packet : Packet → Happening
  sender_due : Happening
  answer : Happening
  expire_due : Happening
  reset_due : Happening
  retry_due : Happening

pub run_happening : Happening → Ctx → Option Ctx
run_happening (packet p) c = handle_session p c
run_happening sender_due c = bfd_sender_thread c true
run_happening answer c = bfd_sender_thread c false
run_happening expire_due c = bfd_expire_thread c
run_happening reset_due c = bfd_reset_thread c
run_happening retry_due c = bfd_open_fd_out_thread c

-- A timer's handler runs only while the session has the timer, and a queued answer only outside
-- AdminDown, which a session does not enter while the process runs.
abbrev pub Due : Happening → Ctx → Type 0
Due (packet p) c = Unit
Due sender_due c = is_some c.s.thread_out ≡ true
Due answer c = is_admin_down c.s.local_state ≡ false
Due expire_due c = is_some c.s.thread_exp ≡ true
Due reset_due c = is_some c.s.thread_rst ≡ true
Due retry_due c = Unit

run_happening-Runs :
    (h : Happening) (c : Ctx) → IsRunning c.s → IsLucky c → Due h c → Runs (run_happening h c)
unfolding run_happening
run_happening-Runs (packet p) c v lucky due = handle_session-Runs p c v lucky
run_happening-Runs sender_due c v lucky due = bfd_sender_thread-Runs c true v (sending c v due)
  where
    sending :
        (c : Ctx)
        → IsRunning c.s
        → is_some c.s.thread_out ≡ true
        → is_admin_down c.s.local_state ≡ false
    sending c v due = ground arith
run_happening-Runs answer c v lucky due = bfd_sender_thread-Runs c false v due
run_happening-Runs expire_due c v lucky due = bfd_expire_thread-Runs c v lucky due
run_happening-Runs reset_due c v lucky due = bfd_reset_thread-Runs c v due
run_happening-Runs retry_due c v lucky due = bfd_open_fd_out_thread-Runs c v

-- One handler runs to its end, or the surroundings change: time passes, the system answers
-- otherwise, other sessions take other discriminators.
pub data Step (c : Ctx) : Ctx → Type 0 where
  happens : (h : Happening) {d : Ctx} → IsLucky c → Due h c → run_happening h c ≡ some d → Step c d
  passes :
      (now : Timeval) (random : ℕ → ℕ) (net : Net) (discrs : List ℕ)
      → Step c (record c { now = now; random = random; net = net; discrs = discrs })

pub data Reach (c : Ctx) : Ctx → Type 0 where
  here : Reach c c
  next : {d e : Ctx} → Reach c d → Step d e → Reach c e

Step-IsRunning : {c d : Ctx} → Step c d → IsRunning c.s → IsRunning d.s
Step-IsRunning {c} (happens h lucky due e) v = rw e at (run_happening-Runs h c v lucky due)
Step-IsRunning (passes now random net discrs) v = v

pub Reach-IsRunning : {c d : Ctx} → Reach c d → IsRunning c.s → IsRunning d.s
Reach-IsRunning here v = v
Reach-IsRunning (next r st) v = Step-IsRunning st (Reach-IsRunning r v)

-- In every state that a running session reaches, and in which a free discriminator is among the
-- numbers that the search tries, whatever is due runs to its end: no assertion of
-- its handler fails, and the session is left running.
pub Reach-run_happening :
    {c d : Ctx} (h : Happening)
    → IsRunning c.s
    → Reach c d
    → IsLucky d
    → Due h d
    → Runs (run_happening h d)
Reach-run_happening {d} h v r lucky due = run_happening-Runs h d (Reach-IsRunning r v) lucky due
