-- ===== src/Scheduler/System.antt =====
-- lib/scheduler.c: the master of a process, from thread_make_master on. A step is one operation: those
-- that a thread's function or a signal handler calls, and those of the dispatcher around it. A run goes
-- up to an event of epoll whose thread is not in its tree any more, which the C code does not detect.
pub mod Kept
use keepalived.Common.{ℕ, Bool, true, ◌≡◌, Option, none, some, List}
use keepalived.Timer.{Timeval}
use keepalived.Scheduler.{ThreadType, Thread, Master, Kernel, thread_make_master}
use keepalived.Scheduler.Add.{
  sands_of, thread_add_read_sands, thread_add_read, thread_add_write, thread_read_requeue,
  thread_add_timer_uval, thread_add_timer_sands, thread_add_timer_shutdown,
  timer_thread_update_timeout, thread_add_child, thread_children_reschedule, thread_add_event,
  thread_add_terminate_event, thread_add_parent_terminate_event, thread_add_start_terminate_event,
}
use keepalived.Scheduler.Ready.{thread_timerfd_handler, EpollEvent, handle_events}
use keepalived.Scheduler.Child.{thread_child_handler}
use keepalived.Scheduler.Cancel.{thread_cancel, thread_cancel_read}
use keepalived.Scheduler.Cleanup.{thread_cleanup_master}
use keepalived.Scheduler.Run.{fetch_thread, skip_thread, note_shutdown, end_thread}

pub data Step : Master → Master → Type 0 where
  add_read :
      (k : Kernel) (now : Timeval) (func arg fd timer flags : ℕ) {m : Master}
      → Step m (thread_add_read k now func arg fd timer flags m).1
  add_read_sands :
      (k : Kernel) (func arg fd : ℕ) (sands : Timeval) (flags : ℕ) {m : Master}
      → Step m (thread_add_read_sands k func arg fd sands flags m).1
  add_write :
      (k : Kernel) (now : Timeval) (func arg fd timer flags : ℕ) {m : Master}
      → Step m (thread_add_write k now func arg fd timer flags m).1
  requeue_read : (fd : ℕ) (sands : Timeval) {m : Master} → Step m (thread_read_requeue fd sands m)
  add_timer :
      (now : Timeval) (garbage func arg val timer : ℕ) {m : Master}
      → Step m (thread_add_timer_uval now garbage func arg val timer m).1
  add_timer_sands :
      (func arg : ℕ) (sands : Timeval) {m : Master}
      → Step m (thread_add_timer_sands func arg sands m).1
  add_timer_shutdown :
      (now : Timeval) (garbage func arg timer : ℕ) {m : Master}
      → Step m (thread_add_timer_shutdown now garbage func arg timer m).1
  update_timeout :
      (now : Timeval) (p timer : ℕ) {m : Master}
      → Step m (timer_thread_update_timeout now p timer m)
  add_child :
      (now : Timeval) (func arg pid timer : ℕ) {m : Master}
      → Step m (thread_add_child now func arg pid timer m).1
  reschedule :
      (now : Timeval) (func timer : ℕ) {m : Master}
      → Step m (thread_children_reschedule now func timer m)
  add_event : (func arg val : ℕ) {m : Master} → Step m (thread_add_event func arg val m).1
  add_terminate : (status : ℕ) {m : Master} → Step m (thread_add_parent_terminate_event status m).1
  add_start_terminate : (func : ℕ) {m : Master} → Step m (thread_add_start_terminate_event func m).1
  cancel : (k : Kernel) (p : ℕ) {m : Master} → Step m (thread_cancel k p m)
  cancel_read : (k : Kernel) (fd : ℕ) {m : Master} → Step m (thread_cancel_read k fd m)
  cleanup :
      (k : Kernel) (keep_children : Bool) {m : Master}
      → Step m (thread_cleanup_master k keep_children m)
  timerfd :
      (k : Kernel) (now : Timeval) (handler : ℕ) {m : Master}
      → Step m (thread_timerfd_handler k now handler m).1
  epoll : (vs : List EpollEvent) {m n : Master} → handle_events vs m ≡ some n → Step m n
  reaped : (cs : List (ℕ × ℕ)) {m : Master} → Step m (thread_child_handler cs m)
  fetch : {m n : Master} → m.current_thread ≡ none → fetch_thread m ≡ some n → Step m n
  skip : (t : Thread) {m : Master} → m.current_thread ≡ some t → Step m (skip_thread t m)
  returned : (type : ThreadType) {m : Master} → Step m (note_shutdown type m)
  finish : (type : ThreadType) {m : Master} → Step m (end_thread type m.current_thread m)

pub data Reach (timer_fd signal_fd : ℕ) : Master → Type 0 where
  start : Reach timer_fd signal_fd (thread_make_master timer_fd signal_fd)
  step : {m n : Master} → Reach timer_fd signal_fd m → Step m n → Reach timer_fd signal_fd n
