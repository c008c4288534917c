-- ===== src/Scheduler/Events.antt =====
-- lib/scheduler.c: the events registered with epoll. The tree io_events is a list in the order of the
-- fds. An allocation that fails ends the process, so that it has no result here.
use keepalived.Common.{
  ℕ, ◌+◌, ◌-◌, ◌*◌, ◌/◌, ◌%◌, ◌^◌, Bool, true, false, not, ltb, ◌==◌, if◌then◌else◌, Option, none,
  some, maybe, List, [], ◌∷◌,
}
use keepalived.Scheduler.{ThreadEvent, Io, Kernel}

-- The new count, after epoll_count += delta
unfoldable pub thread_events_resize : ℕ → Io → Io
thread_events_resize count io =
    if ltb count io.epoll_size
    then record io { epoll_count = count }
    else record io { epoll_count = count; epoll_size = (count / 64 + 1) * 64 }

unfoldable pub add_event : ThreadEvent → List ThreadEvent → List ThreadEvent
add_event e [] = e ∷ []
add_event e (f ∷ fs) = let rest = add_event e fs in if ltb e.fd f.fd then e ∷ f ∷ fs else f ∷ rest

unfoldable pub event_of : ℕ → List ThreadEvent → Option ThreadEvent
event_of fd [] = none
event_of fd (e ∷ es) = let rest = event_of fd es in if e.fd == fd then some e else rest

unfoldable pub erase_event : ℕ → List ThreadEvent → List ThreadEvent
erase_event fd [] = []
erase_event fd (e ∷ es) = let rest = erase_event fd es in if e.fd == fd then es else e ∷ rest

-- A write through a pointer to the event.
unfoldable pub store_event : ThreadEvent → List ThreadEvent → List ThreadEvent
store_event e [] = []
store_event e (f ∷ fs) = let rest = store_event e fs in if f.fd == e.fd then e ∷ fs else f ∷ rest

unfoldable pub store : ThreadEvent → Io → Io
store e io = record io { io_events = store_event e io.io_events }

abbrev pub new_event : ℕ → ThreadEvent
new_event fd = record {
  fd = fd;
  read = none;
  write = none;
  want_read = false;
  want_write = false;
  epoll = false;
  epoll_read = false;
  epoll_write = false;
}

unfoldable pub thread_event_new : ℕ → Io → Io
thread_event_new fd io =
    let r = thread_events_resize ((io.epoll_count + 1) % 2 ^ 32) io in
    record r { io_events = add_event (new_event fd) r.io_events }

unfoldable pub thread_event_get : ℕ → Io → Option ThreadEvent
thread_event_get fd io = event_of fd io.io_events

-- The event as the call leaves it, and whether it succeeds.
unfoldable pub thread_event_set : Kernel → ThreadEvent → ThreadEvent × Bool
thread_event_set k e =
    if k.epoll_ctl e.epoll e.fd e.want_read e.want_write
    then (record e { epoll = true }, true)
    else (e, false)

-- m->current_event is reset where it is the event that goes.
unfoldable pub forget : ℕ → Option ℕ → Option ℕ
forget fd none = none
forget fd (some e) = if e == fd then none else some e

-- A failed EPOLL_CTL_DEL is only logged.
unfoldable pub thread_event_cancel : ℕ → Io → Io
thread_event_cancel fd io =
    thread_events_resize ((io.epoll_count + (2 ^ 32 - 1)) % 2 ^ 32) (record io {
      io_events = erase_event fd io.io_events;
      current_event = forget fd io.current_event;
    })

-- What thread_event_set leaves of the event; the flag goes only where the call succeeds.
unfoldable pub settle_read : ThreadEvent × Bool → Io → Io
settle_read (e, ok) io = store (if ok then record e { epoll_read = false } else e) io

unfoldable pub settle_write : ThreadEvent × Bool → Io → Io
settle_write (e, ok) io = store (if ok then record e { epoll_write = false } else e) io

-- thread_event_del with THREAD_FL_EPOLL_READ_BIT
unfoldable pub del_read : Kernel → ThreadEvent → Io → Io
del_read k e io =
    if not e.epoll_read
    then io
    else if not e.epoll_write
    then thread_event_cancel e.fd io
    else settle_read (thread_event_set k (record e { want_read = false; read = none })) io

-- thread_event_del with THREAD_FL_EPOLL_WRITE_BIT
unfoldable pub del_write : Kernel → ThreadEvent → Io → Io
del_write k e io =
    if not e.epoll_write
    then io
    else if not e.epoll_read
    then thread_event_cancel e.fd io
    else settle_write (thread_event_set k (record e { want_write = false; write = none })) io

-- thread_event_del on the event that a thread points to, where it does.
unfoldable pub thread_event_del_read : Kernel → Option ℕ → Io → Io
thread_event_del_read k none io = io
thread_event_del_read k (some fd) io = maybe (thread_event_get fd io) io (λ e. del_read k e io)

unfoldable pub thread_event_del_write : Kernel → Option ℕ → Io → Io
thread_event_del_write k none io = io
thread_event_del_write k (some fd) io = maybe (thread_event_get fd io) io (λ e. del_write k e io)

-- ev->read = NULL, and ev->write = NULL
unfoldable pub unbind_read : Option ℕ → Io → Io
unbind_read none io = io
unbind_read (some fd) io =
    maybe (thread_event_get fd io) io (λ e. store (record e { read = none }) io)

unfoldable pub unbind_write : Option ℕ → Io → Io
unbind_write none io = io
unbind_write (some fd) io =
    maybe (thread_event_get fd io) io (λ e. store (record e { write = none }) io)
