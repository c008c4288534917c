-- ===== src/Scheduler/Shutdown.antt =====
-- lib/scheduler.c: what process_threads still runs while the process shuts down.
use keepalived.Common.{ℕ, Bool, true, false, ◌||◌, ◌≡◌, refl, sym, ◌∙◌, if_false, maybe, arith}
use keepalived.Scheduler.{ThreadType, Thread, Master, code}
use keepalived.Scheduler.Run.{is_fd, is_called, run_thread}

-- The scheduler's own fds, and those of the SNMP agent.
unfoldable pub is_own_fd : (ℕ → Bool) → Thread → Master → Bool
is_own_fd snmp t m =
    is_fd t.fd m.timer_fd || is_fd t.fd m.signal_fd || maybe t.fd false (λ fd. snmp fd)

-- By type: children, the shutdown timer and termination are served, fds where they are the scheduler's
-- own, and no event, timer or timeout is.
unfoldable pub is_served : (ℕ → Bool) → ThreadType → Thread → Master → Bool
is_served snmp ThreadType.child t m = true
is_served snmp ThreadType.child_timeout t m = true
is_served snmp ThreadType.child_terminated t m = true
is_served snmp ThreadType.timer_shutdown t m = true
is_served snmp ThreadType.terminate t m = true
is_served snmp ThreadType.ready_read_fd t m = is_own_fd snmp t m
is_served snmp ThreadType.ready_write_fd t m = is_own_fd snmp t m
is_served snmp ThreadType.read_error t m = is_own_fd snmp t m
is_served snmp ThreadType.write_error t m = is_own_fd snmp t m
is_served snmp _ t m = false

or_none : (b : Bool) → (b || false || false || false || false || false) ≡ b
or_none b = ground arith

served :
    (snmp : ℕ → Bool) (y : ThreadType) (t : Thread) (m : Master)
    → t.type ≡ y
    → m.shutting_down ≡ true
    → is_called snmp t m ≡ is_served snmp y t m
unfolding is_called is_served is_own_fd code
served snmp ThreadType.read t m e h = rw (h, e)
served snmp ThreadType.write t m e h = rw (h, e)
served snmp ThreadType.timer t m e h = rw (h, e)
served snmp ThreadType.timer_shutdown t m e h = rw (h, e)
served snmp ThreadType.child t m e h = rw (h, e)
served snmp ThreadType.unused t m e h = rw (h, e)
served snmp ThreadType.ready t m e h = rw (h, e)
served snmp ThreadType.event t m e h = rw (h, e)
served snmp ThreadType.write_timeout t m e h = rw (h, e)
served snmp ThreadType.read_timeout t m e h = rw (h, e)
served snmp ThreadType.child_timeout t m e h = rw (h, e)
served snmp ThreadType.child_terminated t m e h = rw (h, e)
served snmp ThreadType.terminate_start t m e h = rw (h, e)
served snmp ThreadType.terminate t m e h = rw (h, e)
served snmp ThreadType.ready_timer t m e h = rw (h, e)
served snmp ThreadType.ready_read_fd t m e h = rw (h, e) (or_none _)
served snmp ThreadType.ready_write_fd t m e h = rw (h, e) (or_none _)
served snmp ThreadType.read_error t m e h = rw (h, e) (or_none _)
served snmp ThreadType.write_error t m e h = rw (h, e) (or_none _)

-- While the process shuts down, the function of a thread that is not served is not called: what
-- process_threads makes of the state is the same whatever that function does.
pub run_thread-is_served :
    (call other : Master → Master) (snmp : ℕ → Bool) (t : Thread) (m : Master)
    → m.shutting_down ≡ true
    → is_served snmp t.type t m ≡ false
    → run_thread call snmp t m ≡ run_thread other snmp t m
unfolding run_thread
run_thread-is_served call other snmp t m h g =
    let e = served snmp t.type t m refl h ∙ g in if_false _ _ _ e ∙ sym (if_false _ _ _ e)
