-- ===== src/Scheduler/Ready.antt =====
-- lib/scheduler.c: threads move to the ready list, when their time has come and when epoll reports
-- their fd.
use keepalived.Common.{
  ℕ, Bool, true, false, not, ◌||◌, if◌then◌else◌, Option, none, some, maybe, List, [], ◌∷◌, ◌++◌,
}
use keepalived.Timer.{Timeval, timer_never, timer_lt}
use keepalived.Scheduler.{
  ThreadType, Thread, ThreadEvent, Io, Master, Kernel, ◌is◌, erase, find, is_disabled,
}
use keepalived.Scheduler.Events.{thread_event_get, store, unbind_read, unbind_write}
use keepalived.Scheduler.Add.{thread_add_read}

-- The thread on the ready list: its type changes, unless it has to do with the shutdown.
unfoldable pub retyped : ThreadType → Thread → Thread
retyped type t = if t.type is ThreadType.timer_shutdown then t else record t { type = type }

unfoldable pub is_due : Timeval → Thread → Bool
is_due now t = not (is_disabled t || timer_lt now t.sands)

-- Which of its two pointers the event of a thread loses.
unfoldable pub unbind : ThreadType → Thread → Io → Io
unbind type t io =
    if type is ThreadType.read_timeout
    then unbind_read t.event io
    else if type is ThreadType.write_timeout
    then unbind_write t.event io
    else io

-- A tree, the ready list and the events, as the loop over the tree leaves them.
pub record Moved : Type 0 where
  pub root : List Thread
  pub ready : List Thread
  pub io : Io

unfoldable pub thread_rb_move_ready : Timeval → ThreadType → List Thread → List Thread → Io → Moved
thread_rb_move_ready now type [] ready io = record { root = []; ready = ready; io = io }
thread_rb_move_ready now type (t ∷ ts) ready io =
    let rest = thread_rb_move_ready now type ts (ready ++ retyped type t ∷ []) (unbind type t io) in
    if is_due now t then rest else record { root = t ∷ ts; ready = ready; io = io }

unfoldable pub move_reads : Timeval → Master → Master
move_reads now m =
    let r = thread_rb_move_ready now ThreadType.read_timeout m.read m.ready m.io in
    record m { read = r.root; ready = r.ready; io = r.io }

unfoldable pub move_writes : Timeval → Master → Master
move_writes now m =
    let r = thread_rb_move_ready now ThreadType.write_timeout m.write m.ready m.io in
    record m { write = r.root; ready = r.ready; io = r.io }

unfoldable pub move_timers : Timeval → Master → Master
move_timers now m =
    let r = thread_rb_move_ready now ThreadType.ready_timer m.timer m.ready m.io in
    record m { timer = r.root; ready = r.ready; io = r.io }

unfoldable pub move_children : Timeval → Master → Master
move_children now m =
    let r = thread_rb_move_ready now ThreadType.child_timeout m.child m.ready m.io in
    record m { child = r.root; ready = r.ready; io = r.io }

-- `handler` is the address of thread_timerfd_handler itself; m->timer_thread is the first result.
unfoldable pub thread_timerfd_handler : Kernel → Timeval → ℕ → Master → Option ℕ × Master
thread_timerfd_handler k now handler m =
    thread_add_read k now handler 0 m.timer_fd timer_never 0
      (move_children now (move_timers now (move_writes now (move_reads now m))))

-- thread_move_ready on the thread that an event points to. rb_erase on a struct that is not in the tree
-- is undefined in C, and `none` here: the pointer may be stale, since a refused registration leaves it.
unfoldable pub ready_read : ThreadType → ℕ → Master → Option Master
ready_read type p m =
    maybe (find p m.read) none
      (λ t. some (record m { read = erase p m.read; ready = m.ready ++ retyped type t ∷ [] }))

unfoldable pub ready_write : ThreadType → ℕ → Master → Option Master
ready_write type p m =
    maybe (find p m.write) none
      (λ t. some (record m { write = erase p m.write; ready = m.ready ++ retyped type t ∷ [] }))

-- ev->read = NULL after its thread has moved; and so for ev->write.
unfoldable pub wake_read : ThreadType → ThreadEvent → ℕ → Master → Option Master
wake_read type e p m =
    maybe (ready_read type p m) none
      (λ r. some (record r { io = store (record e { read = none }) r.io }))

unfoldable pub wake_write : ThreadType → ThreadEvent → ℕ → Master → Option Master
wake_write type e p m =
    maybe (ready_write type p m) none
      (λ r. some (record r { io = store (record e { write = none }) r.io }))

-- struct epoll_event: the event's fd; one of EPOLLHUP, EPOLLERR and EPOLLRDHUP; EPOLLIN; EPOLLOUT.
pub record EpollEvent : Type 0 where
  pub fd : ℕ
  pub error : Bool
  pub input : Bool
  pub output : Bool

unfoldable pub handle_error : ThreadEvent → Option ℕ → Option ℕ → Master → Option Master
handle_error e (some p) w m = wake_read ThreadType.read_error e p m
handle_error e none (some p) m = wake_write ThreadType.write_error e p m
handle_error e none none m = some m

unfoldable pub handle_output : Bool → ThreadEvent → Option ℕ → Master → Option Master
handle_output false e w m = some m
handle_output true e none m = some m
handle_output true e (some p) m = wake_write ThreadType.ready_write_fd e p m

-- An event that asks for input where no thread reads is left before its output is looked at.
unfoldable pub handle_input : Bool → Bool → ThreadEvent → Option ℕ → Master → Option Master
handle_input false output e r m = handle_output output e e.write m
handle_input true output e none m = some m
handle_input true output e (some p) m =
    maybe (wake_read ThreadType.ready_read_fd e p m) none
      (handle_output output (record e { read = none }) e.write)

unfoldable pub handle_event : EpollEvent → ThreadEvent → Master → Option Master
handle_event v e m =
    if v.error then handle_error e e.read e.write m else handle_input v.input v.output e e.read m

unfoldable pub handle_events : List EpollEvent → Master → Option Master
handle_events [] m = some m
handle_events (v ∷ vs) m =
    maybe (maybe (thread_event_get v.fd m.io) (some m) (λ e. handle_event v e m)) none
      (λ n. handle_events vs n)
