-- ===== src/Scheduler/Sound/Pull.antt =====
-- lib/scheduler.c: a thread on a queue is taken in hand.
use keepalived.Common.{ℕ, ◌≡◌, none, some, arith}
use keepalived.Scheduler.{Thread, Master, code, erase, find, erase_pid}
use keepalived.Scheduler.Order.{All-erase, Sorted-erase}
use keepalived.Scheduler.Count.{count-erase, count_pid-erase, find-ptr, count-find}
use keepalived.Scheduler.Sound.{IsSound, in_hand, places, Typed}

pub pull_read-IsSound :
    (p : ℕ) (t : Thread) (m : Master)
    → find p m.read ≡ some t
    → IsSound none m
    → IsSound (some t) (record m { read = erase p m.read })
unfolding places in_hand Typed code
pull_read-IsSound p t m e s = record {
  placed = λ r.
      (let h = s.placed r in
        let c = count-erase r p m.read in
        let d = count-find p m.read t e in let i = find-ptr p m.read t e in ground arith);
  children = s.children;
  reads = (All-erase _ p m.read s.reads.0, Sorted-erase p m.read s.reads.1);
  writes = s.writes;
  timers = s.timers;
  childs = s.childs;
  events = s.events;
  readies = s.readies;
  unuses = s.unuses;
}

pub pull_write-IsSound :
    (p : ℕ) (t : Thread) (m : Master)
    → find p m.write ≡ some t
    → IsSound none m
    → IsSound (some t) (record m { write = erase p m.write })
unfolding places in_hand Typed code
pull_write-IsSound p t m e s = record {
  placed = λ r.
      (let h = s.placed r in
        let c = count-erase r p m.write in
        let d = count-find p m.write t e in let i = find-ptr p m.write t e in ground arith);
  children = s.children;
  reads = s.reads;
  writes = (All-erase _ p m.write s.writes.0, Sorted-erase p m.write s.writes.1);
  timers = s.timers;
  childs = s.childs;
  events = s.events;
  readies = s.readies;
  unuses = s.unuses;
}

pub pull_timer-IsSound :
    (p : ℕ) (t : Thread) (m : Master)
    → find p m.timer ≡ some t
    → IsSound none m
    → IsSound (some t) (record m { timer = erase p m.timer })
unfolding places in_hand Typed code
pull_timer-IsSound p t m e s = record {
  placed = λ r.
      (let h = s.placed r in
        let c = count-erase r p m.timer in
        let d = count-find p m.timer t e in let i = find-ptr p m.timer t e in ground arith);
  children = s.children;
  reads = s.reads;
  writes = s.writes;
  timers = (All-erase _ p m.timer s.timers.0, Sorted-erase p m.timer s.timers.1);
  childs = s.childs;
  events = s.events;
  readies = s.readies;
  unuses = s.unuses;
}

pub pull_child-IsSound :
    (p : ℕ) (t : Thread) (m : Master)
    → find p m.child ≡ some t
    → IsSound none m
    → IsSound (some t) (record m { child = erase p m.child; child_pid = erase_pid p m.child_pid })
unfolding places in_hand Typed code
pull_child-IsSound p t m e s = record {
  placed = λ r.
      (let h = s.placed r in
        let c = count-erase r p m.child in
        let d = count-find p m.child t e in let i = find-ptr p m.child t e in ground arith);
  children = λ r.
      (let h = s.children r in
        let c = count-erase r p m.child in
        let d = count-find p m.child t e in
        let b = count_pid-erase r p m.child_pid in ground arith);
  reads = s.reads;
  writes = s.writes;
  timers = s.timers;
  childs = (All-erase _ p m.child s.childs.0, Sorted-erase p m.child s.childs.1);
  events = s.events;
  readies = s.readies;
  unuses = s.unuses;
}
