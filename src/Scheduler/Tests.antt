-- ===== src/Scheduler/Tests.antt =====
-- lib/scheduler.c: a master with a child process, a timer and a socket, on concrete times.
use keepalived.Common.{ℕ, ltb, ◌+◌, true, false, ◌≡◌, refl, none, some, All, ◌⊎◌, List, [], ◌∷◌}
use keepalived.Common.Int.{pos, ◌+ℤ◌}
use keepalived.Timer.{Timeval, timer_zero, timer_add_long, timer_less, timer_lt}
use keepalived.Scheduler.{
  ThreadType, Thread, Master, Kernel, code, thread_make_master, thread_new, take_struct,
  fresh_thread, rb_add, erase, find, is_disabled,
}
use keepalived.Scheduler.Events.{
  thread_events_resize, add_event, event_of, store_event, store, thread_event_new, thread_event_get,
  thread_event_set, unbind_read, unbind_write,
}
use keepalived.Scheduler.Add.{
  sands_of, event_for, read_thread, register_read, place_read, thread_add_read_sands,
  thread_add_read, thread_add_timer_uval, thread_add_timer_uval_sands, thread_add_child, add_pid,
}
use keepalived.Scheduler.Ready.{
  retyped, is_due, unbind, thread_rb_move_ready, move_reads, move_writes, move_timers,
  move_children, thread_timerfd_handler,
}
use keepalived.Scheduler.Alarm.{timerisset, earliest_timer}
use keepalived.Scheduler.Child.{find_pid, process_child_termination}
use keepalived.Scheduler.Cancel.{either, thread_at, thread_cancel}
use keepalived.Scheduler.Cleanup.{thread_cleanup_master}
use keepalived.Scheduler.Run.{run_thread}
use keepalived.Scheduler.Count.{tick, count, count_pid}
use keepalived.Scheduler.Sound.{places}
use keepalived.Scheduler.System.{Step, Reach}
use keepalived.Scheduler.Sound.Cleanup.{thread_cleanup_master-freed}
use keepalived.Scheduler.System.Kept.{Reach-IsSound}
use keepalived.Scheduler.Due.{later}
use keepalived.Scheduler.Timerfd.{Gained, made_ready, thread_timerfd_handler-due}
use keepalived.Scheduler.Earliest.{Waits, IsTime, earliest_timer-Waits}
use keepalived.Scheduler.Cancelled.{is_cancellable, thread_cancel-places}
use keepalived.Scheduler.Reaped.{Reported, process_child_termination-Reported}
use keepalived.Scheduler.Refused.{Call, add_reads, thread_add_read_sands-refused}
use keepalived.Scheduler.Shutdown.{is_served, run_thread-is_served}

abbrev at : ℕ → Timeval
at s = record { tv_sec = pos s; tv_usec = 0 }

abbrev willing : Kernel
willing = record { epoll_ctl = λ a b c d. true }

abbrev unwilling : Kernel
unwilling = record { epoll_ctl = λ a b c d. false }

abbrev empty : Master
empty = thread_make_master 3 4

-- A child of pid 100, due at 15 seconds.
abbrev with_child : Master
with_child = (thread_add_child (at 10) 7 0 100 5000000 empty).1

-- A timer due at 40 seconds.
abbrev with_timer : Master
with_timer = (thread_add_timer_uval (at 10) 0 8 0 0 30000000 with_child).1

-- A reader of fd 6, due at 16 seconds.
abbrev with_reader : Master
with_reader = (thread_add_read willing (at 10) 9 0 6 6000000 0 with_timer).1

-- The timerfd fires at 20 seconds.
abbrev fired : Master
fired = (thread_timerfd_handler willing (at 20) 5 with_reader).1

Reach-with_reader : Reach 3 4 with_reader
Reach-with_reader =
    Reach.step
      (Reach.step (Reach.step Reach.start (Step.add_child (at 10) 7 0 100 5000000))
        (Step.add_timer (at 10) 0 8 0 0 30000000))
      (Step.add_read willing (at 10) 9 0 6 6000000 0)

Reach-fired : Reach 3 4 fired
Reach-fired = Reach.step Reach-with_reader (Step.timerfd willing (at 20) 5)

-- A reload after that keeps the child.
abbrev reloaded : Master
reloaded = thread_cleanup_master willing true fired

-- The child is kept, and the struct 1 of the timer is freed.
thread_cleanup_master-freed_example :
    (count 1 reloaded.freed + count 1 fired.child ≡ tick (ltb 1 fired.alloc))
    × (count_pid 1 reloaded.child_pid ≡ count 1 fired.child)
thread_cleanup_master-freed_example =
    thread_cleanup_master-freed willing true fired (Reach-IsSound 3 4 fired Reach-fired) 1

thread_timerfd_handler-due_example :
    (fired.ready ≡ made_ready (at 20) with_reader)
    × (fired.write ≡ later (at 20) with_reader.write)
    × (fired.timer ≡ later (at 20) with_reader.timer)
    × (fired.child ≡ later (at 20) with_reader.child)
    × Gained (at 20) with_reader.timer_fd (later (at 20) with_reader.read) fired.read
thread_timerfd_handler-due_example =
    thread_timerfd_handler-due willing (at 20) 5 with_reader
      (Reach-IsSound 3 4 with_reader Reach-with_reader)

abbrev the_timer : Thread
the_timer = record {
  ptr = 1;
  id = 1;
  type = ThreadType.timer;
  func = some 8;
  arg = 0;
  sands = at 40;
  val = 0;
  fd = some 0;
  flags = 0;
  pid = 0;
  status = 0;
  event = none;
}

thread_cancel-places_example :
    (count 1 (thread_cancel willing 1 with_reader).unuse ≡ 1)
    × (places 1 (thread_cancel willing 1 with_reader) ≡ 1)
unfolding thread_make_master thread_new take_struct fresh_thread rb_add erase find
    thread_events_resize add_event event_of store_event store thread_event_new thread_event_get
    thread_event_set unbind_read sands_of event_for read_thread register_read place_read
    thread_add_read_sands thread_add_read thread_add_timer_uval thread_add_timer_uval_sands
    thread_add_child add_pid timer_add_long timer_less ◌+ℤ◌ either thread_at is_cancellable code
thread_cancel-places_example =
    thread_cancel-places willing 1 the_timer with_reader
      (Reach-IsSound 3 4 with_reader Reach-with_reader) refl refl

process_child_termination-Reported_example :
    Reported 0 256 (process_child_termination 100 256 fired)
unfolding thread_make_master thread_new take_struct fresh_thread rb_add erase find
    thread_events_resize add_event event_of store_event store thread_event_new thread_event_get
    thread_event_set unbind_read sands_of event_for read_thread register_read place_read
    thread_add_read_sands thread_add_read thread_add_timer_uval thread_add_timer_uval_sands
    thread_add_child add_pid timer_add_long timer_less ◌+ℤ◌ unbind retyped is_due is_disabled
    timer_lt thread_rb_move_ready move_reads move_writes move_timers move_children
    thread_timerfd_handler code find_pid unbind_write
process_child_termination-Reported_example =
    process_child_termination-Reported 100 256 (record { pid = 100; ptr = 0 }) fired
      (Reach-IsSound 3 4 fired Reach-fired) refl

abbrev later_calls : List Call
later_calls =
    record { func = 8; arg = 1; sands = at 13; flags = 0 }
    ∷ record { func = 9; arg = 0; sands = at 14; flags = 2 }
    ∷ []

thread_add_read_sands-refused_example :
    ((thread_add_read_sands unwilling 9 0 6 (at 12) 0 empty).0 ≡ none)
    × (add_reads willing 6 later_calls (thread_add_read_sands unwilling 9 0 6 (at 12) 0 empty).1
        ≡ (none ∷ none ∷ [], (thread_add_read_sands unwilling 9 0 6 (at 12) 0 empty).1))
unfolding thread_make_master thread_new take_struct fresh_thread rb_add erase find
    thread_events_resize add_event event_of store_event store thread_event_new thread_event_get
    thread_event_set unbind_read sands_of event_for read_thread register_read place_read
    thread_add_read_sands thread_add_read thread_add_timer_uval thread_add_timer_uval_sands
    thread_add_child add_pid timer_add_long timer_less ◌+ℤ◌
thread_add_read_sands-refused_example =
    thread_add_read_sands-refused unwilling willing 9 0 6 (at 12) 0 later_calls empty refl refl refl

abbrev due_timer : Thread
due_timer = record the_timer { type = ThreadType.ready_timer }

abbrev stopping : Master
stopping = record empty { shutting_down = true; current_thread = some due_timer }

run_thread-is_served_example :
    run_thread (λ m. with_child) (λ fd. false) due_timer stopping
    ≡ run_thread (λ m. m) (λ fd. false) due_timer stopping
unfolding is_served thread_make_master
run_thread-is_served_example =
    run_thread-is_served (λ m. with_child) (λ m. m) (λ fd. false) due_timer stopping refl refl

earliest_timer-Waits_example :
    All (Waits (earliest_timer with_reader)) with_reader.read
    × All (Waits (earliest_timer with_reader)) with_reader.write
    × All (Waits (earliest_timer with_reader)) with_reader.timer
    × All (Waits (earliest_timer with_reader)) with_reader.child
    × ((earliest_timer with_reader ≡ timer_zero)
        ⊎ (IsTime (earliest_timer with_reader) with_reader.read
            ⊎ (IsTime (earliest_timer with_reader) with_reader.write
                ⊎ (IsTime (earliest_timer with_reader) with_reader.timer
                    ⊎ IsTime (earliest_timer with_reader) with_reader.child))))
unfolding thread_make_master thread_new take_struct fresh_thread rb_add erase find
    thread_events_resize add_event event_of store_event store thread_event_new thread_event_get
    thread_event_set unbind_read sands_of event_for read_thread register_read place_read
    thread_add_read_sands thread_add_read thread_add_timer_uval thread_add_timer_uval_sands
    thread_add_child add_pid timer_add_long timer_less ◌+ℤ◌ timerisset
earliest_timer-Waits_example =
    earliest_timer-Waits with_reader (Reach-IsSound 3 4 with_reader Reach-with_reader) (refl, tt) tt
      (refl, tt) (refl, tt)
