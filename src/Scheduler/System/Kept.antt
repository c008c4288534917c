-- ===== src/Scheduler/System/Kept.antt =====
-- lib/scheduler.c: the queues are sound at every time.
use keepalived.Common.{ℕ, refl, Option, none, some, List, [], ◌∷◌}
use keepalived.Scheduler.{ThreadType, Thread, Master, Kernel, code}
use keepalived.Scheduler.Add.{
  sands_of, thread_add_timer_uval, thread_add_timer_sands, thread_add_timer_shutdown,
  thread_add_parent_terminate_event, thread_add_start_terminate_event,
}
use keepalived.Scheduler.Cancel.{
  reader_of, writer_of, cancel_writer, thread_cancel, thread_cancel_read,
}
use keepalived.Scheduler.Child.{thread_child_handler}
use keepalived.Scheduler.Sound.{IsSound, is_timer, is_event, io-IsSound, thread_make_master-IsSound}
use keepalived.Scheduler.Sound.Add.{
  maybe-IsSound, thread_add_read_sands-IsSound, thread_add_read-IsSound, thread_add_write-IsSound,
  thread_add_timer_uval_sands-IsSound, thread_add_child-IsSound, thread_add_event-IsSound,
  thread_add_generic_terminate_event-IsSound,
}
use keepalived.Scheduler.Sound.Requeue.{
  thread_read_requeue-IsSound, timer_thread_update_timeout-IsSound,
  thread_children_reschedule-IsSound,
}
use keepalived.Scheduler.Sound.Ready.{thread_timerfd_handler-IsSound, handle_events-IsSound}
use keepalived.Scheduler.Sound.Cancel.{thread_cancel-IsSound}
use keepalived.Scheduler.Sound.Child.{process_child_termination-IsSound}
use keepalived.Scheduler.Sound.Cleanup.{thread_cleanup_master-IsSound}
use keepalived.Scheduler.Sound.Run.{
  fetch_thread-IsSound, skip_thread-IsSound, note_shutdown-IsSound, end_thread-IsSound,
}
use keepalived.Scheduler.System.{Step, Reach}

thread_child_handler-IsSound :
    (cs : List (ℕ × ℕ)) (m : Master) → IsSound none m → IsSound none (thread_child_handler cs m)
unfolding thread_child_handler
thread_child_handler-IsSound [] m s = s
thread_child_handler-IsSound (c ∷ cs) m s =
    thread_child_handler-IsSound cs _ (process_child_termination-IsSound c.0 c.1 m s)

cancel_writer-IsSound :
    (k : Kernel) (t : Thread) (o : Option ℕ) (m : Master)
    → IsSound none m
    → IsSound none (cancel_writer k t o m)
unfolding cancel_writer
cancel_writer-IsSound k t none m s = s
cancel_writer-IsSound k t (some p) m s =
    io-IsSound none _ (thread_cancel k p m) (thread_cancel-IsSound k p m s)

thread_cancel_read-IsSound :
    (k : Kernel) (fd : ℕ) (m : Master) → IsSound none m → IsSound none (thread_cancel_read k fd m)
unfolding thread_cancel_read
thread_cancel_read-IsSound k fd m s =
    maybe-IsSound (reader_of fd m.read) m _ s
      (λ t _. thread_cancel-IsSound k t.ptr _ (cancel_writer-IsSound k t (writer_of t.event m) m s))

step-IsSound : (m n : Master) → Step m n → IsSound none m → IsSound none n
unfolding thread_add_timer_uval thread_add_timer_sands thread_add_timer_shutdown
    thread_add_parent_terminate_event thread_add_start_terminate_event is_timer is_event code
step-IsSound m n (Step.add_read k now func arg fd timer flags) s =
    thread_add_read-IsSound k now func arg fd timer flags m s
step-IsSound m n (Step.add_read_sands k func arg fd sands flags) s =
    thread_add_read_sands-IsSound k func arg fd sands flags m s
step-IsSound m n (Step.add_write k now func arg fd timer flags) s =
    thread_add_write-IsSound k now func arg fd timer flags m s
step-IsSound m n (Step.requeue_read fd sands) s = thread_read_requeue-IsSound fd sands m s
step-IsSound m n (Step.add_timer now garbage func arg val timer) s =
    thread_add_timer_uval_sands-IsSound ThreadType.timer func arg val (sands_of now timer garbage) m
      refl s
step-IsSound m n (Step.add_timer_sands func arg sands) s =
    thread_add_timer_uval_sands-IsSound ThreadType.timer func arg 0 sands m refl s
step-IsSound m n (Step.add_timer_shutdown now garbage func arg timer) s =
    thread_add_timer_uval_sands-IsSound ThreadType.timer_shutdown func arg 0
      (sands_of now timer garbage) m refl s
step-IsSound m n (Step.update_timeout now p timer) s =
    timer_thread_update_timeout-IsSound now p timer m s
step-IsSound m n (Step.add_child now func arg pid timer) s =
    thread_add_child-IsSound now func arg pid timer m s
step-IsSound m n (Step.reschedule now func timer) s =
    thread_children_reschedule-IsSound now func timer m s
step-IsSound m n (Step.add_event func arg val) s = thread_add_event-IsSound func arg val m s
step-IsSound m n (Step.add_terminate status) s =
    thread_add_generic_terminate_event-IsSound ThreadType.terminate none status m refl s
step-IsSound m n (Step.add_start_terminate func) s =
    thread_add_generic_terminate_event-IsSound ThreadType.terminate_start (some func) 0 m refl s
step-IsSound m n (Step.cancel k p) s = thread_cancel-IsSound k p m s
step-IsSound m n (Step.cancel_read k fd) s = thread_cancel_read-IsSound k fd m s
step-IsSound m n (Step.cleanup k keep) s = thread_cleanup_master-IsSound k keep m s
step-IsSound m n (Step.timerfd k now handler) s = thread_timerfd_handler-IsSound k now handler m s
step-IsSound m n (Step.epoll vs e) s = handle_events-IsSound vs m n s e
step-IsSound m n (Step.reaped cs) s = thread_child_handler-IsSound cs m s
step-IsSound m n (Step.fetch idle o) s = fetch_thread-IsSound m n o idle s
step-IsSound m n (Step.skip t e) s = skip_thread-IsSound t m e s
step-IsSound m n (Step.returned type) s = note_shutdown-IsSound type m s
step-IsSound m n (Step.finish type) s = end_thread-IsSound type m s

pub Reach-IsSound :
    (timer_fd signal_fd : ℕ) (m : Master) → Reach timer_fd signal_fd m → IsSound none m
Reach-IsSound a b m Reach.start = thread_make_master-IsSound a b
Reach-IsSound a b m (Reach.step r st) = step-IsSound _ m st (Reach-IsSound a b _ r)
