-- ===== src/Scheduler/Sound/Ready.antt =====
-- lib/scheduler.c: what moves to the ready list leaves the queues sound.
use keepalived.Common.{
  ℕ, ◌+◌, Bool, true, false, ◌≡◌, refl, sym, ap, ◌∙◌, Option, none, some, maybe, subst, if_both,
  List, [], ◌∷◌, arith,
}
use keepalived.Timer.{Timeval, timer_never}
use keepalived.Scheduler.{ThreadType, ThreadEvent, Master, Kernel, code, ◌is◌, erase, find}
use keepalived.Scheduler.Events.{thread_event_get}
use keepalived.Scheduler.Ready.{
  retyped, move_reads, move_writes, move_timers, move_children, thread_timerfd_handler, ready_read,
  ready_write, wake_read, wake_write, EpollEvent, handle_error, handle_output, handle_input,
  handle_event, handle_events,
}
use keepalived.Scheduler.Count.{count}
use keepalived.Scheduler.Sound.{IsSound, places, is_ready, io-IsSound}
use keepalived.Scheduler.Sound.Put.{same-IsSound, put_ready-IsSound}
use keepalived.Scheduler.Sound.Pull.{pull_read-IsSound, pull_write-IsSound}
use keepalived.Scheduler.Sound.Move.{
  retyped-ptr, retyped-is_ready, retyped_not_timeout, count-move, Typed-root, Sorted-root,
  Typed-ready, count_timeout-move, count_timeout-move_child,
}
use keepalived.Scheduler.Sound.Add.{thread_add_read-IsSound}

move_reads-IsSound : (now : Timeval) (m : Master) → IsSound none m → IsSound none (move_reads now m)
unfolding move_reads places code is_ready
move_reads-IsSound now m s =
    let y = ThreadType.read_timeout in
    record {
      placed = λ p.
          (let h = s.placed p in let c = count-move now y p m.read m.ready m.io in omega arith);
      children = λ p.
          s.children p
          ∙ ap (λ n. count p m.child + n)
              (sym (count_timeout-move now y refl p m.read m.ready m.io));
      reads = (
        Typed-root now y _ m.read m.ready m.io s.reads.0,
        Sorted-root now y m.read m.ready m.io s.reads.1,
      );
      writes = s.writes;
      timers = s.timers;
      childs = s.childs;
      events = s.events;
      readies = Typed-ready now y refl m.read m.ready m.io s.readies;
      unuses = s.unuses;
    }

move_writes-IsSound :
    (now : Timeval) (m : Master) → IsSound none m → IsSound none (move_writes now m)
unfolding move_writes places code is_ready
move_writes-IsSound now m s =
    let y = ThreadType.write_timeout in
    record {
      placed = λ p.
          (let h = s.placed p in let c = count-move now y p m.write m.ready m.io in omega arith);
      children = λ p.
          s.children p
          ∙ ap (λ n. count p m.child + n)
              (sym (count_timeout-move now y refl p m.write m.ready m.io));
      reads = s.reads;
      writes = (
        Typed-root now y _ m.write m.ready m.io s.writes.0,
        Sorted-root now y m.write m.ready m.io s.writes.1,
      );
      timers = s.timers;
      childs = s.childs;
      events = s.events;
      readies = Typed-ready now y refl m.write m.ready m.io s.readies;
      unuses = s.unuses;
    }

move_timers-IsSound :
    (now : Timeval) (m : Master) → IsSound none m → IsSound none (move_timers now m)
unfolding move_timers places code is_ready
move_timers-IsSound now m s =
    let y = ThreadType.ready_timer in
    record {
      placed = λ p.
          (let h = s.placed p in let c = count-move now y p m.timer m.ready m.io in omega arith);
      children = λ p.
          s.children p
          ∙ ap (λ n. count p m.child + n)
              (sym (count_timeout-move now y refl p m.timer m.ready m.io));
      reads = s.reads;
      writes = s.writes;
      timers = (
        Typed-root now y _ m.timer m.ready m.io s.timers.0,
        Sorted-root now y m.timer m.ready m.io s.timers.1,
      );
      childs = s.childs;
      events = s.events;
      readies = Typed-ready now y refl m.timer m.ready m.io s.readies;
      unuses = s.unuses;
    }

move_children-IsSound :
    (now : Timeval) (m : Master) → IsSound none m → IsSound none (move_children now m)
unfolding move_children places code is_ready
move_children-IsSound now m s =
    let y = ThreadType.child_timeout in
    record {
      placed = λ p.
          (let h = s.placed p in let c = count-move now y p m.child m.ready m.io in omega arith);
      children =
          λ p. s.children p ∙ sym (count_timeout-move_child now p m.child m.ready m.io s.childs.0);
      reads = s.reads;
      writes = s.writes;
      timers = s.timers;
      childs = (
        Typed-root now y _ m.child m.ready m.io s.childs.0,
        Sorted-root now y m.child m.ready m.io s.childs.1,
      );
      events = s.events;
      readies = Typed-ready now y refl m.child m.ready m.io s.readies;
      unuses = s.unuses;
    }

pub thread_timerfd_handler-IsSound :
    (k : Kernel) (now : Timeval) (handler : ℕ) (m : Master)
    → IsSound none m
    → IsSound none (thread_timerfd_handler k now handler m).1
unfolding thread_timerfd_handler
thread_timerfd_handler-IsSound k now handler m s =
    thread_add_read-IsSound k now handler 0 m.timer_fd timer_never 0 _ (
      move_children-IsSound now _
        (move_timers-IsSound now _ (move_writes-IsSound now _ (move_reads-IsSound now m s))))

-- What an operation that may be undefined gives, if it is defined, is sound.
Yields : Option Master → Type 0
Yields o = (n : Master) → o ≡ some n → IsSound none n

some-Yields : (m : Master) → IsSound none m → Yields (some m)
unfolding Yields
some-Yields m s n e = subst (IsSound none) same s
  where
    same : m ≡ n
    same = cc

maybe-Yields :
    {A : Type 0} (o : Option A) (f : A → Option Master)
    → ((a : A) → o ≡ some a → Yields (f a))
    → Yields (maybe o none f)
unfolding Yields
maybe-Yields none f h n e = absurd (ground arith)
maybe-Yields (some a) f h n e = h a refl n e

ready_read-Yields :
    (type : ThreadType) (p : ℕ) (m : Master)
    → is_ready type ≡ true
    → (type is ThreadType.child_timeout) ≡ false
    → IsSound none m
    → Yields (ready_read type p m)
unfolding ready_read
ready_read-Yields type p m k l s = maybe-Yields (find p m.read) _ (λ t e.
    let n = record m { read = erase p m.read } in
    some-Yields _ (
      put_ready-IsSound (retyped type t) n (retyped-is_ready type t k)
        (retyped_not_timeout type t l)
        (same-IsSound t (retyped type t) n (sym (retyped-ptr type t))
          (pull_read-IsSound p t m e s))))

ready_write-Yields :
    (type : ThreadType) (p : ℕ) (m : Master)
    → is_ready type ≡ true
    → (type is ThreadType.child_timeout) ≡ false
    → IsSound none m
    → Yields (ready_write type p m)
unfolding ready_write
ready_write-Yields type p m k l s = maybe-Yields (find p m.write) _ (λ t e.
    let n = record m { write = erase p m.write } in
    some-Yields _ (
      put_ready-IsSound (retyped type t) n (retyped-is_ready type t k)
        (retyped_not_timeout type t l)
        (same-IsSound t (retyped type t) n (sym (retyped-ptr type t))
          (pull_write-IsSound p t m e s))))

wake_read-Yields :
    (type : ThreadType) (e : ThreadEvent) (p : ℕ) (m : Master)
    → is_ready type ≡ true
    → (type is ThreadType.child_timeout) ≡ false
    → IsSound none m
    → Yields (wake_read type e p m)
unfolding wake_read Yields
wake_read-Yields type e p m k l s =
    maybe-Yields (ready_read type p m) _
      (λ r h. some-Yields _ (io-IsSound none _ r (ready_read-Yields type p m k l s r h)))

wake_write-Yields :
    (type : ThreadType) (e : ThreadEvent) (p : ℕ) (m : Master)
    → is_ready type ≡ true
    → (type is ThreadType.child_timeout) ≡ false
    → IsSound none m
    → Yields (wake_write type e p m)
unfolding wake_write Yields
wake_write-Yields type e p m k l s =
    maybe-Yields (ready_write type p m) _
      (λ r h. some-Yields _ (io-IsSound none _ r (ready_write-Yields type p m k l s r h)))

handle_error-Yields :
    (e : ThreadEvent) (r w : Option ℕ) (m : Master) → IsSound none m → Yields (handle_error e r w m)
unfolding handle_error is_ready code
handle_error-Yields e (some p) w m s = wake_read-Yields ThreadType.read_error e p m refl refl s
handle_error-Yields e none (some p) m s = wake_write-Yields ThreadType.write_error e p m refl refl s
handle_error-Yields e none none m s = some-Yields m s

handle_output-Yields :
    (b : Bool) (e : ThreadEvent) (w : Option ℕ) (m : Master)
    → IsSound none m
    → Yields (handle_output b e w m)
unfolding handle_output is_ready code
handle_output-Yields false e w m s = some-Yields m s
handle_output-Yields true e none m s = some-Yields m s
handle_output-Yields true e (some p) m s =
    wake_write-Yields ThreadType.ready_write_fd e p m refl refl s

handle_input-Yields :
    (a b : Bool) (e : ThreadEvent) (r : Option ℕ) (m : Master)
    → IsSound none m
    → Yields (handle_input a b e r m)
unfolding handle_input is_ready code Yields
handle_input-Yields false b e r m s = handle_output-Yields b e e.write m s
handle_input-Yields true b e none m s = some-Yields m s
handle_input-Yields true b e (some p) m s =
    maybe-Yields (wake_read ThreadType.ready_read_fd e p m) _ (λ r h.
      handle_output-Yields b (record e { read = none }) e.write r
        (wake_read-Yields ThreadType.ready_read_fd e p m refl refl s r h))

handle_event-Yields :
    (v : EpollEvent) (e : ThreadEvent) (m : Master) → IsSound none m → Yields (handle_event v e m)
unfolding handle_event
handle_event-Yields v e m s =
    if_both Yields v.error _ _ (handle_error-Yields e e.read e.write m s)
      (handle_input-Yields v.input v.output e e.read m s)

found-Yields :
    (v : EpollEvent) (o : Option ThreadEvent) (m : Master)
    → IsSound none m
    → Yields (maybe o (some m) (λ e. handle_event v e m))
found-Yields v none m s = some-Yields m s
found-Yields v (some e) m s = handle_event-Yields v e m s

-- Where no stale pointer is met, what epoll reports leaves the queues sound.
pub handle_events-IsSound :
    (vs : List EpollEvent) (m n : Master)
    → IsSound none m
    → handle_events vs m ≡ some n
    → IsSound none n
unfolding handle_events Yields
handle_events-IsSound [] m n s = some-Yields m s n
handle_events-IsSound (v ∷ vs) m n s =
    maybe-Yields (maybe (thread_event_get v.fd m.io) (some m) (λ e. handle_event v e m)) _
      (λ r h k. handle_events-IsSound vs r k (found-Yields v (thread_event_get v.fd m.io) m s r h))
      n
