-- ===== src/Scheduler/Sound/Cleanup.antt =====
-- lib/scheduler.c: thread_cleanup_master frees every struct but those of the children that are kept, and
-- leaves these sound.
use keepalived.Common.{
  ℕ, ◌+◌, ◌-◌, Bool, true, false, ◌≡◌, refl, ap, ◌∙◌, ◌==◌, if_both, ltb, Option, none, some, List,
  [], ◌∷◌, ◌++◌, arith, if◌then◌else◌,
}
use keepalived.Scheduler.{ThreadType, Thread, PidNode, Master, Kernel, ◌is◌, erase_pid}
use keepalived.Scheduler.Cleanup.{
  Trash, closes_fd, destroy_thread, thread_destroy, erase_timeouts, destroy_current,
  thread_cleanup_master,
}
use keepalived.Scheduler.Count.{tick, count, count_timeout, count_pid, count-snoc}
use keepalived.Scheduler.Sound.{IsSound, in_hand, places, Typed}
use keepalived.Scheduler.Sound.Run.{begun_pids}
use keepalived.Scheduler.Order.{Sorted}

count-append : (p : ℕ) (q r : List Thread) → count p (q ++ r) ≡ count p q + count p r
unfolding count
count-append p [] r = omega arith
count-append p (t ∷ ts) r = omega (arith, count-append p ts r)

count-destroy_thread :
    (k : Kernel) (p : ℕ) (t : Thread) (w : Trash)
    → count p (destroy_thread k t w).unuse ≡ tick (t.ptr == p) + count p w.unuse
unfolding destroy_thread
count-destroy_thread k p t w = count-snoc p w.unuse _ ∙ same (closes_fd t)
  where
    same :
        (b : Bool)
        → tick ((if b then record t { fd = none } else t).ptr == p) + count p w.unuse
          ≡ tick (t.ptr == p) + count p w.unuse
    same true = refl
    same false = refl

-- The destruction of a queue takes its threads to the unuse list.
count-thread_destroy :
    (k : Kernel) (p : ℕ) (q : List Thread) (w : Trash)
    → count p (thread_destroy k q w).unuse ≡ count p q + count p w.unuse
unfolding thread_destroy count
count-thread_destroy k p [] w = omega arith
count-thread_destroy k p (t ∷ ts) w =
    let h = count-thread_destroy k p ts (destroy_thread k t w) in
    let c = count-destroy_thread k p t w in omega arith

count-destroy_current :
    (p : ℕ) (o : Option Thread) (q : List Thread)
    → count p (destroy_current o q) ≡ in_hand p o + count p q
unfolding destroy_current in_hand
count-destroy_current p none q = omega arith
count-destroy_current p (some t) q = count-snoc p q _

count_pid-erase_timeouts :
    (r : ℕ) (ts : List Thread) (ns : List PidNode)
    → count_pid r (erase_timeouts ts ns) ≡ count_pid r ns - count_timeout r ts
unfolding erase_timeouts count_timeout
count_pid-erase_timeouts r [] ns = omega arith
count_pid-erase_timeouts r (t ∷ ts) ns =
    let b = t.type is ThreadType.child_timeout in
    let h = count_pid-erase_timeouts r ts (if b then erase_pid t.ptr ns else ns) in
    let c = begun_pids b t.ptr ns r in omega arith

kept_placed :
    (k : Kernel) (keep : Bool) (p : ℕ) (m : Master)
    → places p (thread_cleanup_master k keep m) ≡ places p m
unfolding thread_cleanup_master places in_hand count
kept_placed k keep p m =
    let start : Trash = record { unuse = m.unuse; io = record m.io { current_event = none } } in
    let w1 = thread_destroy k m.read start in
    let w2 = thread_destroy k m.write w1 in
    let w3 = thread_destroy k m.timer w2 in
    let w4 = thread_destroy k (if keep then [] else m.child) w3 in
    let w5 = thread_destroy k m.event w4 in
    let w6 = thread_destroy k m.ready w5 in
    let c1 = count-thread_destroy k p m.read start in
    let c2 = count-thread_destroy k p m.write w1 in
    let c3 = count-thread_destroy k p m.timer w2 in
    let c4 = count-thread_destroy k p (if keep then [] else m.child) w3 in
    let c5 = count-thread_destroy k p m.event w4 in
    let c6 = count-thread_destroy k p m.ready w5 in
    let c7 = count-destroy_current p m.current_thread w6.unuse in
    let c8 = count-append p m.freed (destroy_current m.current_thread w6.unuse) in
    let c9 = halves keep in omega arith
  where
    halves :
        (b : Bool)
        → count p (if b then m.child else []) + count p (if b then [] else m.child)
          ≡ count p m.child
    halves true = omega arith
    halves false = omega arith

kept_children :
    (b : Bool) (p : ℕ) (m : Master)
    → IsSound none m
    → count_pid p (if b then erase_timeouts m.ready m.child_pid else [])
      ≡ count p (if b then m.child else []) + count_timeout p []
unfolding count_pid count count_timeout
kept_children true p m s =
    count_pid-erase_timeouts p m.ready m.child_pid ∙ (let h = s.children p in omega arith)
kept_children false p m s = refl

pub thread_cleanup_master-IsSound :
    (k : Kernel) (keep : Bool) (m : Master)
    → IsSound none m
    → IsSound none (thread_cleanup_master k keep m)
unfolding thread_cleanup_master Typed Sorted
thread_cleanup_master-IsSound k keep m s = record {
  placed = λ p. ap (λ n. n + in_hand p none) (kept_placed k keep p m) ∙ s.placed p;
  children = λ p. kept_children keep p m s;
  reads = (tt, tt);
  writes = (tt, tt);
  timers = (tt, tt);
  childs =
      if_both (λ q. Typed (λ y. y is ThreadType.child) q × Sorted q) keep m.child [] s.childs
        (tt, tt);
  events = tt;
  readies = tt;
  unuses = tt;
}

-- From a state with sound queues thread_cleanup_master frees each struct that was allocated exactly once,
-- or had it freed before, but for the children that it is to keep, which it does not free and which are
-- then exactly those of the child_pid tree; so that none is lost and none is freed twice.
pub thread_cleanup_master-freed :
    (k : Kernel) (keep : Bool) (m : Master)
    → IsSound none m
    → (p : ℕ)
    → (count p (thread_cleanup_master k keep m).freed + count p (if keep then m.child else [])
        ≡ tick (ltb p m.alloc))
      × (count_pid p (thread_cleanup_master k keep m).child_pid
          ≡ count p (if keep then m.child else []))
unfolding thread_cleanup_master places in_hand count count_timeout
thread_cleanup_master-freed k keep m s p =
    let n = thread_cleanup_master-IsSound k keep m s in
    let h = n.placed p in let c = n.children p in (omega arith, omega arith)
