-- ===== src/Scheduler/Run.antt =====
-- lib/scheduler.c: the dispatcher. The code of a thread's function is not part of the scheduler: it acts
-- on the master by the operations of the other files.
use keepalived.Common.{
  ℕ, Bool, true, false, not, ◌&&◌, ◌||◌, ◌==◌, if◌then◌else◌, Option, none, some, maybe, List, [],
  ◌∷◌,
}
use keepalived.Scheduler.{ThreadType, Thread, Master, ◌is◌, erase_pid, thread_add_unuse}
use keepalived.Scheduler.Events.{thread_event_cancel}

-- THREAD_CHILD_TIMEOUT leaves the child_pid tree when it is taken from the ready list.
unfoldable pub begin_thread : Thread → Master → Master
begin_thread t m = record m {
  current_thread = some t;
  child_pid =
      if t.type is ThreadType.child_timeout then erase_pid t.ptr m.child_pid else m.child_pid;
}

-- The first thread of the event list, or else of the ready list, becomes the current one; `none` where
-- the scheduler has to wait.
unfoldable pub take_thread : List Thread → List Thread → Master → Option Master
take_thread (t ∷ ts) ready m = some (begin_thread t (record m { event = ts }))
take_thread [] (t ∷ ts) m = some (begin_thread t (record m { ready = ts }))
take_thread [] [] m = none

unfoldable pub fetch_thread : Master → Option Master
fetch_thread m = take_thread m.event m.ready m

unfoldable pub is_fd : Option ℕ → ℕ → Bool
is_fd none n = false
is_fd (some fd) n = fd == n

-- Whether the function of a thread is called; `snmp` tells the fds of the SNMP agent.
unfoldable pub is_called : (ℕ → Bool) → Thread → Master → Bool
is_called snmp t m =
    not m.shutting_down
    || (((t.type is ThreadType.ready_read_fd)
          || (t.type is ThreadType.ready_write_fd)
          || (t.type is ThreadType.read_error)
          || (t.type is ThreadType.write_error))
        && (is_fd t.fd m.timer_fd || is_fd t.fd m.signal_fd || maybe t.fd false (λ fd. snmp fd)))
    || (t.type is ThreadType.child)
    || (t.type is ThreadType.child_timeout)
    || (t.type is ThreadType.child_terminated)
    || (t.type is ThreadType.timer_shutdown)
    || (t.type is ThreadType.terminate)

unfoldable pub is_fd_type : ThreadType → Bool
is_fd_type type =
    (type is ThreadType.ready_read_fd)
    || (type is ThreadType.ready_write_fd)
    || (type is ThreadType.read_timeout)
    || (type is ThreadType.write_timeout)
    || (type is ThreadType.read_error)
    || (type is ThreadType.write_error)

unfoldable pub cancel_event_of : Option ℕ → Master → Master
cancel_event_of none m = m
cancel_event_of (some fd) m = record m { io = thread_event_cancel fd m.io }

-- The fd of the current thread is closed, and its event is dropped.
unfoldable pub thread_close_fd : Thread → Master → Master
thread_close_fd t m = maybe t.fd m (λ fd. record (cancel_event_of t.event m) {
  current_thread = some (record t { fd = none; event = none });
})

-- What is done with a thread that the shutdown keeps from running.
unfoldable pub skip_thread : Thread → Master → Master
skip_thread t m = if is_fd_type t.type then thread_close_fd t m else m

-- After the function has returned: `type` is what the thread had before.
unfoldable pub note_shutdown : ThreadType → Master → Master
note_shutdown type m =
    if type is ThreadType.terminate_start then record m { shutting_down = true } else m

unfoldable pub end_thread : ThreadType → Option Thread → Master → Master
end_thread type none m = record m { io = record m.io { current_event = none } }
end_thread type (some t) m = record (thread_add_unuse t m) {
  current_thread = none;
  io = record m.io {
    current_event =
        if (type is ThreadType.ready_read_fd) || (type is ThreadType.ready_write_fd)
        then t.event
        else none;
  };
}

-- process_threads on the current thread; `call` is its function.
unfoldable pub run_thread : (Master → Master) → (ℕ → Bool) → Thread → Master → Master
run_thread call snmp t m =
    if is_called snmp t m
    then (let n = note_shutdown t.type (maybe t.func m (λ _. call m)) in
        end_thread t.type n.current_thread n)
    else (let n = skip_thread t m in end_thread t.type n.current_thread n)

unfoldable pub is_empty : List Thread → Bool
is_empty [] = true
is_empty (t ∷ ts) = false

-- Whether process_threads returns after a thread of that type, and with which code.
unfoldable pub stops : ThreadType → ℕ → Master → Option ℕ
stops type val m =
    if m.shutting_down && not m.shutdown_timer_running && is_empty m.child
    then some 0
    else if type is ThreadType.terminate
    then some val
    else none
