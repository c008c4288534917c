-- ===== src/Scheduler/Sound/Requeue.antt =====
-- lib/scheduler.c: changing the timeout of a thread keeps the queues sound.
use keepalived.Common.{
  ℕ, Bool, ◌≡◌, refl, sym, ap, ◌∙◌, ◌==◌, none, some, List, [], ◌∷◌, map, subst, arith,
}
use keepalived.Timer.{Timeval, timer_add_long}
use keepalived.Scheduler.{ThreadType, Thread, Master, ◌is◌, rb_add, erase, find}
use keepalived.Scheduler.Events.{thread_event_get}
use keepalived.Scheduler.Add.{
  requeue, thread_read_requeue, timer_thread_update_timeout, rescheduled,
  thread_children_reschedule,
}
use keepalived.Scheduler.Order.{All-find, Sorted-map}
use keepalived.Scheduler.Count.{tick, count, find-ptr}
use keepalived.Scheduler.Sound.{IsSound, places, Typed}
use keepalived.Scheduler.Sound.Put.{same-IsSound, put_read-IsSound, put_timer-IsSound}
use keepalived.Scheduler.Sound.Pull.{pull_read-IsSound, pull_timer-IsSound}
use keepalived.Scheduler.Sound.Add.{if-IsSound, maybe-IsSound}

requeue_read-IsSound :
    (p : ℕ) (t : Thread) (sands : Timeval) (m : Master)
    → find p m.read ≡ some t
    → IsSound none m
    → IsSound none (record m { read = requeue sands t m.read })
unfolding requeue Typed
requeue_read-IsSound p t sands m e s =
    let u = record t { sands = sands } in
    let n = record m { read = erase p m.read } in
    subst (λ r. IsSound none (record m { read = rb_add u (erase r m.read) }))
      (sym (find-ptr p m.read t e))
      (put_read-IsSound u n (All-find _ p m.read t s.reads.0 e)
        (same-IsSound t u n refl (pull_read-IsSound p t m e s)))

requeue_timer-IsSound :
    (p : ℕ) (t : Thread) (sands : Timeval) (m : Master)
    → find p m.timer ≡ some t
    → IsSound none m
    → IsSound none (record m { timer = requeue sands t m.timer })
unfolding requeue Typed
requeue_timer-IsSound p t sands m e s =
    let u = record t { sands = sands } in
    let n = record m { timer = erase p m.timer } in
    subst (λ r. IsSound none (record m { timer = rb_add u (erase r m.timer) }))
      (sym (find-ptr p m.timer t e))
      (put_timer-IsSound u n (All-find _ p m.timer t s.timers.0 e)
        (same-IsSound t u n refl (pull_timer-IsSound p t m e s)))

pub thread_read_requeue-IsSound :
    (fd : ℕ) (sands : Timeval) (m : Master)
    → IsSound none m
    → IsSound none (thread_read_requeue fd sands m)
unfolding thread_read_requeue
thread_read_requeue-IsSound fd sands m s = maybe-IsSound (thread_event_get fd m.io) m _ s (λ e _.
    maybe-IsSound e.read m _ s
      (λ p _. maybe-IsSound (find p m.read) m _ s (λ t h. requeue_read-IsSound p t sands m h s)))

pub timer_thread_update_timeout-IsSound :
    (now : Timeval) (p timer : ℕ) (m : Master)
    → IsSound none m
    → IsSound none (timer_thread_update_timeout now p timer m)
unfolding timer_thread_update_timeout
timer_thread_update_timeout-IsSound now p timer m s =
    maybe-IsSound (find p m.timer) m _ s
      (λ t h. if-IsSound _ m _ s (requeue_timer-IsSound p t (timer_add_long now timer) m h s))

count-map :
    (f : Thread → Thread)
    → ((t : Thread) → (f t).ptr ≡ t.ptr)
    → (p : ℕ) (q : List Thread) → count p (map f q) ≡ count p q
unfolding count
count-map f same p [] = refl
count-map f same p (t ∷ ts) =
    let h = ap (λ x. tick (x == p)) (same t) in omega (arith, count-map f same p ts)

Typed-map :
    (f : Thread → Thread) (y : ThreadType → Bool)
    → ((t : Thread) → (f t).type ≡ t.type)
    → (q : List Thread) → Typed y q
    → Typed y (map f q)
unfolding Typed
Typed-map f y same [] a = tt
Typed-map f y same (t ∷ ts) a = (ap y (same t) ∙ a.0, Typed-map f y same ts a.1)

pub thread_children_reschedule-IsSound :
    (now : Timeval) (func timer : ℕ) (m : Master)
    → IsSound none m
    → IsSound none (thread_children_reschedule now func timer m)
unfolding thread_children_reschedule rescheduled places
thread_children_reschedule-IsSound now func timer m s =
    let f = rescheduled now func timer in
    record {
      placed =
          λ p. (let c = count-map f (λ t. refl) p m.child in let h = s.placed p in omega arith);
      children =
          λ p. (let c = count-map f (λ t. refl) p m.child in let h = s.children p in omega arith);
      reads = s.reads;
      writes = s.writes;
      timers = s.timers;
      childs = (
        Typed-map f (λ y. y is ThreadType.child) (λ t. refl) m.child s.childs.0,
        Sorted-map f (timer_add_long now timer) (λ t. refl) m.child,
      );
      events = s.events;
      readies = s.readies;
      unuses = s.unuses;
    }
