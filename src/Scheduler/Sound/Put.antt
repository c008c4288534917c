-- ===== src/Scheduler/Sound/Put.antt =====
-- lib/scheduler.c: a thread in hand is put on a queue.
use keepalived.Common.{true, false, ◌≡◌, refl, none, some, [], ◌∷◌, ◌++◌, arith}
use keepalived.Scheduler.{ThreadType, Thread, Master, code, ◌is◌, rb_add, thread_add_unuse}
use keepalived.Scheduler.Add.{add_pid}
use keepalived.Scheduler.Order.{All-rb_add, All-snoc, Sorted-rb_add}
use keepalived.Scheduler.Count.{count-rb_add, count-snoc, count_timeout-snoc}
use keepalived.Scheduler.Sound.{
  IsSound, in_hand, places, Typed, is_timer, is_event, is_ready, count_pid-add_pid,
}

-- A change of a thread in hand that keeps its address.
pub same-IsSound :
    (t u : Thread) (m : Master) → t.ptr ≡ u.ptr → IsSound (some t) m → IsSound (some u) m
unfolding in_hand
same-IsSound t u m e s = record {
  placed = λ p. (let h = s.placed p in ground arith);
  children = s.children;
  reads = s.reads;
  writes = s.writes;
  timers = s.timers;
  childs = s.childs;
  events = s.events;
  readies = s.readies;
  unuses = s.unuses;
}

pub put_read-IsSound :
    (t : Thread) (m : Master)
    → (t.type is ThreadType.read) ≡ true
    → IsSound (some t) m
    → IsSound none (record m { read = rb_add t m.read })
unfolding places in_hand Typed code
put_read-IsSound t m k s = record {
  placed = λ p. (let h = s.placed p in let c = count-rb_add p t m.read in omega arith);
  children = s.children;
  reads = (All-rb_add _ t m.read k s.reads.0, Sorted-rb_add t m.read s.reads.1);
  writes = s.writes;
  timers = s.timers;
  childs = s.childs;
  events = s.events;
  readies = s.readies;
  unuses = s.unuses;
}

pub put_write-IsSound :
    (t : Thread) (m : Master)
    → (t.type is ThreadType.write) ≡ true
    → IsSound (some t) m
    → IsSound none (record m { write = rb_add t m.write })
unfolding places in_hand Typed code
put_write-IsSound t m k s = record {
  placed = λ p. (let h = s.placed p in let c = count-rb_add p t m.write in omega arith);
  children = s.children;
  reads = s.reads;
  writes = (All-rb_add _ t m.write k s.writes.0, Sorted-rb_add t m.write s.writes.1);
  timers = s.timers;
  childs = s.childs;
  events = s.events;
  readies = s.readies;
  unuses = s.unuses;
}

pub put_timer-IsSound :
    (t : Thread) (m : Master)
    → is_timer t.type ≡ true
    → IsSound (some t) m
    → IsSound none (record m { timer = rb_add t m.timer })
unfolding places in_hand Typed code
put_timer-IsSound t m k s = record {
  placed = λ p. (let h = s.placed p in let c = count-rb_add p t m.timer in omega arith);
  children = s.children;
  reads = s.reads;
  writes = s.writes;
  timers = (All-rb_add _ t m.timer k s.timers.0, Sorted-rb_add t m.timer s.timers.1);
  childs = s.childs;
  events = s.events;
  readies = s.readies;
  unuses = s.unuses;
}

pub put_child-IsSound :
    (t : Thread) (m : Master)
    → (t.type is ThreadType.child) ≡ true
    → IsSound (some t) m
    → IsSound none (record m {
      child = rb_add t m.child;
      child_pid = add_pid (record { pid = t.pid; ptr = t.ptr }) m.child_pid;
    })
unfolding places in_hand Typed code
put_child-IsSound t m k s = record {
  placed = λ p. (let h = s.placed p in let c = count-rb_add p t m.child in omega arith);
  children = λ p.
      (let h = s.children p in
        let c = count-rb_add p t m.child in
        let d = count_pid-add_pid p (record { pid = t.pid; ptr = t.ptr }) m.child_pid in
        omega arith);
  reads = s.reads;
  writes = s.writes;
  timers = s.timers;
  childs = (All-rb_add _ t m.child k s.childs.0, Sorted-rb_add t m.child s.childs.1);
  events = s.events;
  readies = s.readies;
  unuses = s.unuses;
}

pub put_event-IsSound :
    (t : Thread) (m : Master)
    → is_event t.type ≡ true
    → IsSound (some t) m
    → IsSound none (record m { event = m.event ++ t ∷ [] })
unfolding places in_hand Typed code
put_event-IsSound t m k s = record {
  placed = λ p. (let h = s.placed p in let c = count-snoc p m.event t in omega arith);
  children = s.children;
  reads = s.reads;
  writes = s.writes;
  timers = s.timers;
  childs = s.childs;
  events = All-snoc _ m.event t s.events k;
  readies = s.readies;
  unuses = s.unuses;
}

-- A child that has timed out keeps its node, so that it is not put in by this lemma.
pub put_ready-IsSound :
    (t : Thread) (m : Master)
    → is_ready t.type ≡ true
    → (t.type is ThreadType.child_timeout) ≡ false
    → IsSound (some t) m
    → IsSound none (record m { ready = m.ready ++ t ∷ [] })
unfolding places in_hand Typed code
put_ready-IsSound t m k l s = record {
  placed = λ p. (let h = s.placed p in let c = count-snoc p m.ready t in omega arith);
  children = λ p. (let h = s.children p in let c = count_timeout-snoc p m.ready t in ground arith);
  reads = s.reads;
  writes = s.writes;
  timers = s.timers;
  childs = s.childs;
  events = s.events;
  readies = All-snoc _ m.ready t s.readies k;
  unuses = s.unuses;
}

pub thread_add_unuse-IsSound :
    (t : Thread) (m : Master) → IsSound (some t) m → IsSound none (thread_add_unuse t m)
unfolding places in_hand Typed code thread_add_unuse
thread_add_unuse-IsSound t m s = record {
  placed = λ p.
      (let h = s.placed p in
        let c = count-snoc p m.unuse (record t { type = ThreadType.unused; event = none }) in
        omega arith);
  children = s.children;
  reads = s.reads;
  writes = s.writes;
  timers = s.timers;
  childs = s.childs;
  events = s.events;
  readies = s.readies;
  unuses = All-snoc _ m.unuse (record t { type = ThreadType.unused; event = none }) s.unuses refl;
}
