-- ===== src/Scheduler/Add.antt =====
-- lib/scheduler.c: threads are added, and their timeouts changed. `now` is what set_time_now reads.
use keepalived.Common.{
  ℕ, Bool, true, false, ◌&&◌, ltb, ◌==◌, if◌then◌else◌, Option, none, some, is_some, maybe, List,
  [], ◌∷◌, ◌++◌, map,
}
use keepalived.Common.Int.{◌==ℤ◌}
use keepalived.Timer.{Timeval, timer_never, timer_disabled, timer_add_long}
use keepalived.Scheduler.{
  ThreadType, Thread, ThreadEvent, Io, PidNode, Master, Kernel, rb_add, erase, find,
  thread_add_unuse, thread_new,
}
use keepalived.Scheduler.Events.{
  thread_event_new, thread_event_get, thread_event_set, new_event, store,
}

-- The due time of a timeout; `disabled` is what tv_usec holds where there is none.
unfoldable pub sands_of : Timeval → ℕ → ℕ → Timeval
sands_of now timer disabled =
    if timer == timer_never
    then record { tv_sec = timer_disabled; tv_usec = disabled }
    else timer_add_long now timer

-- The event of the fd, made where it has none. m->current_event is one of the tree, so that the shortcut
-- to it finds the same.
unfoldable pub event_for : ℕ → Io → ThreadEvent × Io
event_for fd io =
    maybe (thread_event_get fd io) (new_event fd, thread_event_new fd io) (λ e. (e, io))

unfoldable pub read_thread : ℕ → ℕ → ℕ → ℕ → Thread → Thread
read_thread func arg fd flags t = record t {
  type = ThreadType.read;
  func = some func;
  arg = arg;
  fd = some fd;
  flags = flags;
  event = some fd;
}

unfoldable pub write_thread : ℕ → ℕ → ℕ → ℕ → Thread → Thread
write_thread func arg fd flags t = record t {
  type = ThreadType.write;
  func = some func;
  arg = arg;
  fd = some fd;
  flags = flags;
  event = some fd;
}

-- The registration of the wanted read, where epoll does not have it.
unfoldable pub register_read : Kernel → ThreadEvent → ThreadEvent × Bool
register_read k e =
    if e.epoll_read
    then (e, true)
    else (let r = thread_event_set k e in
        if r.1 then (record r.0 { epoll_read = true }, true) else (r.0, false))

unfoldable pub register_write : Kernel → ThreadEvent → ThreadEvent × Bool
register_write k e =
    if e.epoll_write
    then (e, true)
    else (let r = thread_event_set k e in
        if r.1 then (record r.0 { epoll_write = true }, true) else (r.0, false))

-- The thread goes to its tree, or back to the unuse list where its event is not registered.
unfoldable pub place_read : Thread → Timeval → ThreadEvent × Bool → Io → Master → Option ℕ × Master
place_read t sands (e, ok) io m =
    if ok
    then (
      some t.ptr,
      record m { read = rb_add (record t { sands = sands }) m.read; io = store e io },
    )
    else (none, thread_add_unuse t (record m { io = store e io }))

unfoldable pub place_write : Thread → Timeval → ThreadEvent × Bool → Io → Master → Option ℕ × Master
place_write t sands (e, ok) io m =
    if ok
    then (
      some t.ptr,
      record m { write = rb_add (record t { sands = sands }) m.write; io = store e io },
    )
    else (none, thread_add_unuse t (record m { io = store e io }))

unfoldable pub thread_add_read_sands : Kernel → ℕ → ℕ → ℕ → Timeval → ℕ → Master → Option ℕ × Master
thread_add_read_sands k func arg fd sands flags m =
    let found = event_for fd m.io in
    let e = found.0 in
    if e.want_read && is_some e.read
    then (none, m)
    else (let n = thread_new m in
        let t = read_thread func arg fd flags n.0 in
        place_read t sands (register_read k (record e { want_read = true; read = some t.ptr }))
          found.1 n.1)

unfoldable pub thread_add_read : Kernel → Timeval → ℕ → ℕ → ℕ → ℕ → ℕ → Master → Option ℕ × Master
thread_add_read k now func arg fd timer flags m =
    thread_add_read_sands k func arg fd (sands_of now timer 0) flags m

-- With a timeout that is off, tv_usec keeps what the struct held.
unfoldable pub thread_add_write : Kernel → Timeval → ℕ → ℕ → ℕ → ℕ → ℕ → Master → Option ℕ × Master
thread_add_write k now func arg fd timer flags m =
    let found = event_for fd m.io in
    let e = found.0 in
    if e.want_write && is_some e.write
    then (none, m)
    else (let n = thread_new m in
        let t = write_thread func arg fd flags n.0 in
        place_write t (sands_of now timer t.sands.tv_usec)
          (register_write k (record e { want_write = true; write = some t.ptr })) found.1 n.1)

unfoldable pub requeue : Timeval → Thread → List Thread → List Thread
requeue sands t q = rb_add (record t { sands = sands }) (erase t.ptr q)

-- thread_requeue_read: the read thread of an fd gets another due time, unless it has left the tree.
unfoldable pub thread_read_requeue : ℕ → Timeval → Master → Master
thread_read_requeue fd sands m = maybe (thread_event_get fd m.io) m (λ e.
    maybe e.read m (λ p. maybe (find p m.read) m (λ t. record m { read = requeue sands t m.read })))

unfoldable pub thread_add_timer_uval_sands : ThreadType → ℕ → ℕ → ℕ → Timeval → Master → ℕ × Master
thread_add_timer_uval_sands type func arg val sands m =
    let n = thread_new m in
    let t = record n.0 { type = type; func = some func; arg = arg; val = val; sands = sands } in
    (t.ptr, record n.1 { timer = rb_add t n.1.timer })

-- `garbage` is what the local variable's tv_usec holds where no timeout is asked for.
unfoldable pub thread_add_timer_uval : Timeval → ℕ → ℕ → ℕ → ℕ → ℕ → Master → ℕ × Master
thread_add_timer_uval now garbage func arg val timer m =
    thread_add_timer_uval_sands ThreadType.timer func arg val (sands_of now timer garbage) m

unfoldable pub thread_add_timer : Timeval → ℕ → ℕ → ℕ → ℕ → Master → ℕ × Master
thread_add_timer now garbage func arg timer m = thread_add_timer_uval now garbage func arg 0 timer m

unfoldable pub thread_add_timer_sands : ℕ → ℕ → Timeval → Master → ℕ × Master
thread_add_timer_sands func arg sands m =
    thread_add_timer_uval_sands ThreadType.timer func arg 0 sands m

-- The type is changed after the thread is in the tree, whose order does not read it.
unfoldable pub thread_add_timer_shutdown : Timeval → ℕ → ℕ → ℕ → ℕ → Master → ℕ × Master
thread_add_timer_shutdown now garbage func arg timer m =
    thread_add_timer_uval_sands ThreadType.timer_shutdown func arg 0 (sands_of now timer garbage) m

-- timer_thread_update_timeout on a thread of the timer tree; one that is due already is left to run.
unfoldable pub timer_thread_update_timeout : Timeval → ℕ → ℕ → Master → Master
timer_thread_update_timeout now p timer m =
    let sands = timer_add_long now timer in
    maybe (find p m.timer) m (λ t.
      if (t.sands.tv_sec ==ℤ sands.tv_sec) && (t.sands.tv_usec == sands.tv_usec)
      then m
      else record m { timer = requeue sands t m.timer })

-- rb_add with thread_child_pid_less
unfoldable pub add_pid : PidNode → List PidNode → List PidNode
add_pid n [] = n ∷ []
add_pid n (k ∷ ks) = let rest = add_pid n ks in if ltb n.pid k.pid then n ∷ k ∷ ks else k ∷ rest

unfoldable pub thread_add_child : Timeval → ℕ → ℕ → ℕ → ℕ → Master → ℕ × Master
thread_add_child now func arg pid timer m =
    let n = thread_new m in
    let t = record n.0 {
      type = ThreadType.child;
      func = some func;
      arg = arg;
      pid = pid;
      status = 0;
      sands = sands_of now timer n.0.sands.tv_usec;
    } in
    (
      t.ptr,
      record n.1 {
        child = rb_add t n.1.child;
        child_pid = add_pid (record { pid = pid; ptr = t.ptr }) n.1.child_pid;
      },
    )

-- All the children get the same due time, so that the tree keeps its shape.
unfoldable pub rescheduled : Timeval → ℕ → ℕ → Thread → Thread
rescheduled now func timer t = record t {
  func = some func;
  sands = timer_add_long now timer;
  arg = 0;
}

unfoldable pub thread_children_reschedule : Timeval → ℕ → ℕ → Master → Master
thread_children_reschedule now func timer m = record m {
  child = map (rescheduled now func timer) m.child;
}

unfoldable pub thread_add_event : ℕ → ℕ → ℕ → Master → ℕ × Master
thread_add_event func arg val m =
    let n = thread_new m in
    let t = record n.0 { type = ThreadType.event; func = some func; arg = arg; val = val } in
    (t.ptr, record n.1 { event = n.1.event ++ t ∷ [] })

unfoldable pub thread_add_generic_terminate_event : ThreadType → Option ℕ → ℕ → Master → ℕ × Master
thread_add_generic_terminate_event type func status m =
    let n = thread_new m in
    let t = record n.0 { type = type; func = func; arg = 0; val = status } in
    (t.ptr, record n.1 { event = n.1.event ++ t ∷ [] })

unfoldable pub thread_add_terminate_event : Master → ℕ × Master
thread_add_terminate_event m = thread_add_generic_terminate_event ThreadType.terminate none 0 m

unfoldable pub thread_add_parent_terminate_event : ℕ → Master → ℕ × Master
thread_add_parent_terminate_event status m =
    thread_add_generic_terminate_event ThreadType.terminate none status m

unfoldable pub thread_add_start_terminate_event : ℕ → Master → ℕ × Master
thread_add_start_terminate_event func m =
    thread_add_generic_terminate_event ThreadType.terminate_start (some func) 0 m
