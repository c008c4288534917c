-- ===== src/Scheduler/Cancel.antt =====
-- lib/scheduler.c: a thread is cancelled.
use keepalived.Common.{ℕ, ◌==◌, if◌then◌else◌, Option, none, some, maybe, List, [], ◌∷◌}
use keepalived.Scheduler.{
  ThreadType, Thread, Master, Kernel, erase, find, erase_pid, thread_add_unuse,
}
use keepalived.Scheduler.Events.{
  thread_event_get, unbind_write, thread_event_del_read, thread_event_del_write,
}

-- What a pointer to a thread refers to.
unfoldable pub either : Option Thread → Option Thread → Option Thread
either (some t) o = some t
either none o = o

unfoldable pub thread_at : ℕ → Master → Option Thread
thread_at p m = either (find p m.read) (
    either (find p m.write) (
      either (find p m.timer) (either (find p m.child) (either (find p m.event) (find p m.ready)))))

-- list_del_init: the thread is on one of the two lists.
unfoldable pub list_del : ℕ → Master → Master
list_del p m = record m { event = erase p m.event; ready = erase p m.ready }

-- The switch on the type; `none` where the function returns before thread_add_unuse.
unfoldable pub cancel_by : Kernel → ThreadType → Thread → Master → Option Master
cancel_by k ThreadType.read t m =
    some (record m { io = thread_event_del_read k t.event m.io; read = erase t.ptr m.read })
cancel_by k ThreadType.write t m =
    some (record m { io = thread_event_del_write k t.event m.io; write = erase t.ptr m.write })
cancel_by k ThreadType.timer t m = some (record m { timer = erase t.ptr m.timer })
cancel_by k ThreadType.child t m =
    some (record m { child = erase t.ptr m.child; child_pid = erase_pid t.ptr m.child_pid })
cancel_by k ThreadType.ready_read_fd t m =
    some (list_del t.ptr (record m { io = thread_event_del_read k t.event m.io }))
cancel_by k ThreadType.read_timeout t m =
    some (list_del t.ptr (record m { io = thread_event_del_read k t.event m.io }))
cancel_by k ThreadType.read_error t m =
    some (list_del t.ptr (record m { io = thread_event_del_read k t.event m.io }))
cancel_by k ThreadType.ready_write_fd t m =
    some (list_del t.ptr (record m { io = thread_event_del_write k t.event m.io }))
cancel_by k ThreadType.write_timeout t m =
    some (list_del t.ptr (record m { io = thread_event_del_write k t.event m.io }))
cancel_by k ThreadType.write_error t m =
    some (list_del t.ptr (record m { io = thread_event_del_write k t.event m.io }))
cancel_by k ThreadType.child_timeout t m =
    some (list_del t.ptr (record m { child_pid = erase_pid t.ptr m.child_pid }))
cancel_by k ThreadType.child_terminated t m = some (list_del t.ptr m)
cancel_by k ThreadType.event t m = some (list_del t.ptr m)
cancel_by k ThreadType.ready t m = some (list_del t.ptr m)
cancel_by k ThreadType.ready_timer t m = some (list_del t.ptr m)
cancel_by k ThreadType.timer_shutdown t m = none
cancel_by k ThreadType.terminate_start t m = none
cancel_by k ThreadType.terminate t m = none
cancel_by k ThreadType.unused t m = none

-- A thread on no queue is unused, or it is the one that runs, which no caller cancels.
unfoldable pub thread_cancel : Kernel → ℕ → Master → Master
thread_cancel k p m =
    maybe (thread_at p m) m (λ t. maybe (cancel_by k t.type t m) m (λ n. thread_add_unuse t n))

unfoldable pub reader_of : ℕ → List Thread → Option Thread
reader_of fd [] = none
reader_of fd (t ∷ ts) =
    let rest = reader_of fd ts in maybe t.fd rest (λ f. if f == fd then some t else rest)

-- thread->event->write of a thread that waits to be read.
unfoldable pub writer_of : Option ℕ → Master → Option ℕ
writer_of none m = none
writer_of (some fd) m = maybe (thread_event_get fd m.io) none (λ e. e.write)

unfoldable pub cancel_writer : Kernel → Thread → Option ℕ → Master → Master
cancel_writer k t none m = m
cancel_writer k t (some p) m =
    let n = thread_cancel k p m in record n { io = unbind_write t.event n.io }

-- The first thread that waits to read the fd is cancelled, after the writer of its event.
unfoldable pub thread_cancel_read : Kernel → ℕ → Master → Master
thread_cancel_read k fd m =
    maybe (reader_of fd m.read) m
      (λ t. thread_cancel k t.ptr (cancel_writer k t (writer_of t.event m) m))
