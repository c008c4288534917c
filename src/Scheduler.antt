-- ===== src/Scheduler.antt =====
-- lib/scheduler.h and lib/scheduler.c: the threads, the queues of the master, and what every operation
-- does to them. A thread's `ptr` stands for the address of its struct; `thread_new` takes a struct from
-- the unuse list, or a new one, whose address is the number of structs allocated before it, and
-- the structs that thread_cleanup_master frees are in `freed`, so that no address is used twice. A red-black tree is the list of its threads in the tree's order, with
-- a new thread after those that compare equal, as rb_add puts it.
pub mod Events
pub mod Add
pub mod Ready
pub mod Alarm
pub mod Child
pub mod Cancel
pub mod Run
pub mod Cleanup
pub mod Order
pub mod Count
pub mod Sound
pub mod System
pub mod Due
pub mod Timerfd
pub mod Earliest
pub mod Cancelled
pub mod Reaped
pub mod Refused
pub mod Shutdown
mod Tests
use keepalived.Common.{
  ℕ, ◌+◌, Bool, true, false, not, ◌&&◌, ◌==◌, if◌then◌else◌, Option, none, some, List, [], ◌∷◌,
  ◌++◌,
}
use keepalived.Common.Int.{◌==ℤ◌}
use keepalived.Timer.{Timeval, timer_zero, timer_disabled, timer_less}

-- thread_type_t
pub data ThreadType : Type 0 where
  read : ThreadType
  write : ThreadType
  timer : ThreadType
  timer_shutdown : ThreadType
  child : ThreadType
  unused : ThreadType
  ready : ThreadType
  event : ThreadType
  write_timeout : ThreadType
  read_timeout : ThreadType
  child_timeout : ThreadType
  child_terminated : ThreadType
  terminate_start : ThreadType
  terminate : ThreadType
  ready_timer : ThreadType
  ready_read_fd : ThreadType
  ready_write_fd : ThreadType
  read_error : ThreadType
  write_error : ThreadType

-- The value of the enum.
unfoldable pub code : ThreadType → ℕ
code ThreadType.read = 0
code ThreadType.write = 1
code ThreadType.timer = 2
code ThreadType.timer_shutdown = 3
code ThreadType.child = 4
code ThreadType.unused = 5
code ThreadType.ready = 6
code ThreadType.event = 7
code ThreadType.write_timeout = 8
code ThreadType.read_timeout = 9
code ThreadType.child_timeout = 10
code ThreadType.child_terminated = 11
code ThreadType.terminate_start = 12
code ThreadType.terminate = 13
code ThreadType.ready_timer = 14
code ThreadType.ready_read_fd = 15
code ThreadType.ready_write_fd = 16
code ThreadType.read_error = 17
code ThreadType.write_error = 18

infix 50 ◌is◌
abbrev pub ◌is◌ : ThreadType → ThreadType → Bool
a is b = code a == code b

-- struct _thread. The members of the union thread_arg2 are fields of their own; an fd of -1 is `none`,
-- and so is a func or an event that is NULL. An event is named by its fd.
pub record Thread : Type 0 where
  pub ptr : ℕ
  pub id : ℕ
  pub type : ThreadType
  pub func : Option ℕ
  pub arg : ℕ
  pub sands : Timeval
  pub val : ℕ
  pub fd : Option ℕ
  pub flags : ℕ
  pub pid : ℕ
  pub status : ℕ
  pub event : Option ℕ

-- thread_event_t: `read` and `write` are addresses of threads, and the bits of `flags` are Booleans.
pub record ThreadEvent : Type 0 where
  pub fd : ℕ
  pub read : Option ℕ
  pub write : Option ℕ
  pub want_read : Bool
  pub want_write : Bool
  pub epoll : Bool
  pub epoll_read : Bool
  pub epoll_write : Bool

-- The epoll members of the master.
pub record Io : Type 0 where
  pub io_events : List ThreadEvent
  pub current_event : Option ℕ
  pub epoll_size : ℕ
  pub epoll_count : ℕ

-- A node of the child_pid tree.
pub record PidNode : Type 0 where
  pub pid : ℕ
  pub ptr : ℕ

-- thread_master_t, and the global shutting_down
pub record Master : Type 0 where
  pub read : List Thread
  pub write : List Thread
  pub timer : List Thread
  pub child : List Thread
  pub event : List Thread
  pub ready : List Thread
  pub unuse : List Thread
  pub current_thread : Option Thread
  pub child_pid : List PidNode
  pub io : Io
  pub timer_fd : ℕ
  pub signal_fd : ℕ
  pub alloc : ℕ
  pub freed : List Thread
  pub next_id : ℕ
  pub shutdown_timer_running : Bool
  pub shutting_down : Bool

-- What the kernel answers: whether an epoll_ctl of an operation on an fd succeeds, by the wanted bits.
pub record Kernel : Type 0 where
  pub epoll_ctl : Bool → ℕ → Bool → Bool → Bool

-- thread_make_master
unfoldable pub thread_make_master : ℕ → ℕ → Master
thread_make_master timer_fd signal_fd = record {
  read = [];
  write = [];
  timer = [];
  child = [];
  event = [];
  ready = [];
  unuse = [];
  current_thread = none;
  child_pid = [];
  io = record { io_events = []; current_event = none; epoll_size = 0; epoll_count = 0 };
  timer_fd = timer_fd;
  signal_fd = signal_fd;
  alloc = 0;
  freed = [];
  next_id = 0;
  shutdown_timer_running = false;
  shutting_down = false;
}

-- rb_add_cached with thread_timer_less
unfoldable pub rb_add : Thread → List Thread → List Thread
rb_add t [] = t ∷ []
rb_add t (u ∷ us) =
    let rest = rb_add t us in if timer_less t.sands u.sands then t ∷ u ∷ us else u ∷ rest

-- rb_erase_cached and list_del_init: the thread of an address leaves its queue.
unfoldable pub erase : ℕ → List Thread → List Thread
erase p [] = []
erase p (t ∷ ts) = let rest = erase p ts in if t.ptr == p then ts else t ∷ rest

unfoldable pub find : ℕ → List Thread → Option Thread
find p [] = none
find p (t ∷ ts) = let rest = find p ts in if t.ptr == p then some t else rest

unfoldable pub erase_pid : ℕ → List PidNode → List PidNode
erase_pid p [] = []
erase_pid p (n ∷ ns) = let rest = erase_pid p ns in if n.ptr == p then ns else n ∷ rest

unfoldable pub is_disabled : Thread → Bool
is_disabled t = t.sands.tv_sec ==ℤ timer_disabled

-- PMALLOC: a struct of zeroes.
unfoldable pub fresh_thread : ℕ → Thread
fresh_thread p = record {
  ptr = p;
  id = 0;
  type = ThreadType.read;
  func = none;
  arg = 0;
  sands = timer_zero;
  val = 0;
  fd = some 0;
  flags = 0;
  pid = 0;
  status = 0;
  event = none;
}

unfoldable pub thread_add_unuse : Thread → Master → Master
thread_add_unuse t m = record m {
  unuse = m.unuse ++ record t { type = ThreadType.unused; event = none } ∷ [];
}

-- The head of the unuse list, or a new struct; the thread is returned beside the master.
unfoldable pub take_struct : List Thread → Master → Thread × Master
take_struct [] m = (
  record (fresh_thread m.alloc) { id = m.next_id },
  record m { alloc = m.alloc + 1; next_id = m.next_id + 1 },
)
take_struct (t ∷ ts) m =
    (record t { id = m.next_id }, record m { unuse = ts; next_id = m.next_id + 1 })

unfoldable pub thread_new : Master → Thread × Master
thread_new m = take_struct m.unuse m
