-- ===== src/Scheduler/Cleanup.antt =====
-- lib/scheduler.c: thread_cleanup_master, at a reload or at the end of the process. The structs that
-- thread_clean_unuse gives back are kept in `freed`, and their addresses are not used again. The
-- arguments that THREAD_DESTROY_FREE_ARG frees are left out, and a pointer to an event that another
-- thread of the same fd has freed is taken for none.
use keepalived.Common.{
  ℕ, ◌%◌, Bool, ◌&&◌, ◌||◌, ◌==◌, if◌then◌else◌, Option, none, some, is_some, List, [], ◌∷◌, ◌++◌,
}
use keepalived.Scheduler.{ThreadType, Thread, PidNode, Io, Master, Kernel, ◌is◌, erase_pid}
use keepalived.Scheduler.Events.{
  thread_event_get, thread_event_cancel, thread_event_del_read, thread_event_del_write,
}
use keepalived.Scheduler.Run.{is_fd_type}

-- The unuse list and the events, as the destruction of a queue leaves them.
pub record Trash : Type 0 where
  pub unuse : List Thread
  pub io : Io

-- thread_del_read and thread_del_write, by the type of the thread.
unfoldable pub del_events : Kernel → Thread → Io → Io
del_events k t io =
    if t.type is ThreadType.read
    then thread_event_del_read k t.event io
    else if t.type is ThreadType.write
    then thread_event_del_write k t.event io
    else if is_fd_type t.type
    then thread_event_del_write k t.event (thread_event_del_read k t.event io)
    else io

-- thread_close_fd on the event of the thread, where it is still there.
unfoldable pub close_event : Option ℕ → Io → Io
close_event none io = io
close_event (some fd) io =
    if is_some (thread_event_get fd io) then thread_event_cancel fd io else io

-- THREAD_DESTROY_CLOSE_FD
unfoldable pub closes_fd : Thread → Bool
closes_fd t =
    ((t.type is ThreadType.read) || (t.type is ThreadType.write) || is_fd_type t.type)
    && t.flags % 2 == 1
    && is_some t.fd

-- One turn of the loops of thread_destroy_rb and thread_destroy_list.
unfoldable pub destroy_thread : Kernel → Thread → Trash → Trash
destroy_thread k t w =
    let io = del_events k t w.io in
    let last = record (if closes_fd t then record t { fd = none } else t) {
      type = ThreadType.unused;
      event = none;
    } in
    record { unuse = w.unuse ++ last ∷ []; io = if closes_fd t then close_event t.event io else io }

unfoldable pub thread_destroy : Kernel → List Thread → Trash → Trash
thread_destroy k [] w = w
thread_destroy k (t ∷ ts) w = thread_destroy k ts (destroy_thread k t w)

-- The children on the ready list whose timeout has not been handled leave the child_pid tree.
unfoldable pub erase_timeouts : List Thread → List PidNode → List PidNode
erase_timeouts [] ns = ns
erase_timeouts (t ∷ ts) ns =
    erase_timeouts ts (if t.type is ThreadType.child_timeout then erase_pid t.ptr ns else ns)

-- The current thread goes to the unuse list too.
unfoldable pub destroy_current : Option Thread → List Thread → List Thread
destroy_current none unuse = unuse
destroy_current (some t) unuse = unuse ++ record t { type = ThreadType.unused; event = none } ∷ []

unfoldable pub thread_cleanup_master : Kernel → Bool → Master → Master
thread_cleanup_master k keep_children m =
    let start : Trash = record { unuse = m.unuse; io = record m.io { current_event = none } } in
    let reads = thread_destroy k m.read start in
    let writes = thread_destroy k m.write reads in
    let timers = thread_destroy k m.timer writes in
    let children = thread_destroy k (if keep_children then [] else m.child) timers in
    let events = thread_destroy k m.event children in
    let readies = thread_destroy k m.ready events in
    record m {
      read = [];
      write = [];
      timer = [];
      child = if keep_children then m.child else [];
      event = [];
      ready = [];
      child_pid = if keep_children then erase_timeouts m.ready m.child_pid else [];
      current_thread = none;
      unuse = [];
      freed = m.freed ++ destroy_current m.current_thread readies.unuse;
      io = record readies.io { epoll_size = 0; epoll_count = 0 };
    }
