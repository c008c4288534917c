-- ===== src/Scheduler/Sound.antt =====
-- lib/scheduler.c: what holds of the queues of the master, with a thread out of them while an operation
-- has it in hand; and how a thread is put on a queue and taken off one.
pub mod Put
pub mod Pull
pub mod Add
pub mod Move
pub mod Requeue
pub mod Ready
pub mod Listed
pub mod Switch
pub mod Cancel
pub mod Child
pub mod Run
pub mod Cleanup
use keepalived.Common.{
  ℕ, zero, suc, ◌+◌, ◌-◌, ◌≤◌, ◌<◌, Bool, true, false, ◌&&◌, ◌||◌, ◌≡◌, refl, sym, ap, ◌∙◌, ◌==◌,
  ltb, Option, none, some, List, [], ◌∷◌, ◌++◌, All, subst, arith,
}
use keepalived.Timer.{timer_less}
use keepalived.Scheduler.{
  ThreadType, Thread, PidNode, Io, Master, code, ◌is◌, rb_add, erase, find, erase_pid,
  thread_add_unuse, take_struct, thread_new, fresh_thread, thread_make_master,
}
use keepalived.Scheduler.Add.{add_pid}
use keepalived.Scheduler.Order.{
  Sorted, All-rb_add, All-erase, All-snoc, All-find, Sorted-rb_add, Sorted-erase,
}
use keepalived.Scheduler.Count.{
  tick, count, count_timeout, count_pid, count-rb_add, count-snoc, count_timeout-snoc, count-erase,
  count_pid-erase, find-ptr, count-find, count_timeout_le,
}

unfoldable pub in_hand : ℕ → Option Thread → ℕ
in_hand p none = 0
in_hand p (some t) = tick (t.ptr == p)

-- On how many queues a thread is, the current one and the freed ones counted.
unfoldable pub places : ℕ → Master → ℕ
places p m =
    count p m.read
    + count p m.write
    + count p m.timer
    + count p m.child
    + count p m.event
    + count p m.ready
    + count p m.unuse
    + count p m.freed
    + in_hand p m.current_thread

unfoldable pub is_timer : ThreadType → Bool
is_timer type = (type is ThreadType.timer) || (type is ThreadType.timer_shutdown)

unfoldable pub is_event : ThreadType → Bool
is_event type =
    (type is ThreadType.event)
    || (type is ThreadType.terminate)
    || (type is ThreadType.terminate_start)

unfoldable pub is_ready : ThreadType → Bool
is_ready type =
    (type is ThreadType.ready_read_fd)
    || (type is ThreadType.ready_write_fd)
    || (type is ThreadType.read_timeout)
    || (type is ThreadType.write_timeout)
    || (type is ThreadType.read_error)
    || (type is ThreadType.write_error)
    || (type is ThreadType.ready_timer)
    || (type is ThreadType.child_timeout)
    || (type is ThreadType.child_terminated)
    || (type is ThreadType.timer_shutdown)

unfoldable pub Typed : (ThreadType → Bool) → List Thread → Type 0
Typed f q = All (λ t. f t.type ≡ true) q

-- Every struct is in one place, that is where its type says; the trees are in order; and the child_pid
-- tree has exactly the children that run and those that wait to be told of a timeout.
pub record IsSound (t : Option Thread) (m : Master) : Type 0 where
  pub placed : (p : ℕ) → places p m + in_hand p t ≡ tick (ltb p m.alloc)
  pub children : (p : ℕ) → count_pid p m.child_pid ≡ count p m.child + count_timeout p m.ready
  pub reads : Typed (λ y. y is ThreadType.read) m.read × Sorted m.read
  pub writes : Typed (λ y. y is ThreadType.write) m.write × Sorted m.write
  pub timers : Typed is_timer m.timer × Sorted m.timer
  pub childs : Typed (λ y. y is ThreadType.child) m.child × Sorted m.child
  pub events : Typed is_event m.event
  pub readies : Typed is_ready m.ready
  pub unuses : Typed (λ y. y is ThreadType.unused) m.unuse

pub count_pid-add_pid :
    (p : ℕ) (n : PidNode) (ns : List PidNode)
    → count_pid p (add_pid n ns) ≡ tick (n.ptr == p) + count_pid p ns
unfolding count_pid add_pid
count_pid-add_pid p n [] = refl
count_pid-add_pid p n (k ∷ ks) = ground (arith, count_pid-add_pid p n ks)

pub thread_make_master-IsSound :
    (timer_fd signal_fd : ℕ) → IsSound none (thread_make_master timer_fd signal_fd)
unfolding thread_make_master places count count_timeout count_pid in_hand Typed Sorted
thread_make_master-IsSound timer_fd signal_fd = record {
  placed = λ p. ground arith;
  children = λ p. refl;
  reads = (tt, tt);
  writes = (tt, tt);
  timers = (tt, tt);
  childs = (tt, tt);
  events = tt;
  readies = tt;
  unuses = tt;
}

-- The io part and the flags of the master take no part.
pub io-IsSound :
    (t : Option Thread) (io : Io) (m : Master) → IsSound t m → IsSound t (record m { io = io })
unfolding places
io-IsSound t io m s = record {
  placed = s.placed;
  children = s.children;
  reads = s.reads;
  writes = s.writes;
  timers = s.timers;
  childs = s.childs;
  events = s.events;
  readies = s.readies;
  unuses = s.unuses;
}

take_struct-IsSound :
    (q : List Thread) (m : Master)
    → m.unuse ≡ q
    → IsSound none m
    → IsSound (some (take_struct q m).0) (take_struct q m).1
unfolding take_struct fresh_thread places in_hand count Typed
take_struct-IsSound [] m e s = record {
  placed = λ p. (let h = s.placed p in ground arith);
  children = s.children;
  reads = s.reads;
  writes = s.writes;
  timers = s.timers;
  childs = s.childs;
  events = s.events;
  readies = s.readies;
  unuses = s.unuses;
}
take_struct-IsSound (u ∷ us) m e s = record {
  placed = λ p. (let h = s.placed p in let k = ap (count p) e in ground arith);
  children = s.children;
  reads = s.reads;
  writes = s.writes;
  timers = s.timers;
  childs = s.childs;
  events = s.events;
  readies = s.readies;
  unuses = (subst (Typed (λ y. y is ThreadType.unused)) e s.unuses).1;
}

pub thread_new-IsSound :
    (m : Master) → IsSound none m → IsSound (some (thread_new m).0) (thread_new m).1
unfolding thread_new
thread_new-IsSound m s = take_struct-IsSound m.unuse m refl s
