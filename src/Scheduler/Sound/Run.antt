-- ===== src/Scheduler/Sound/Run.antt =====
-- lib/scheduler.c: taking a thread, running it and letting go of it keep the queues sound.
use keepalived.Common.{
  ℕ, ◌-◌, Bool, true, false, ◌&&◌, ◌≡◌, refl, ap, ◌∙◌, ◌==◌, if_both, Option, none, some, maybe,
  List, [], ◌∷◌, subst, arith, if◌then◌else◌,
}
use keepalived.Scheduler.{
  ThreadType, Thread, Io, PidNode, Master, ◌is◌, erase_pid, thread_add_unuse,
}
use keepalived.Scheduler.Events.{thread_event_cancel}
use keepalived.Scheduler.Run.{
  begin_thread, take_thread, fetch_thread, is_fd_type, cancel_event_of, thread_close_fd,
  skip_thread, note_shutdown, end_thread,
}
use keepalived.Scheduler.Count.{tick, count, count_timeout, count_pid, count_pid-erase}
use keepalived.Scheduler.Sound.{IsSound, in_hand, places, Typed, is_event, is_ready, io-IsSound}
use keepalived.Scheduler.Sound.Put.{thread_add_unuse-IsSound}
use keepalived.Scheduler.Sound.Listed.{is_event_not_timeout}

pub begun_pids :
    (b : Bool) (p : ℕ) (ns : List PidNode) (r : ℕ)
    → count_pid r (if b then erase_pid p ns else ns) ≡ count_pid r ns - tick ((p == r) && b)
begun_pids true p ns r = count_pid-erase r p ns ∙ ground arith
begun_pids false p ns r = ground arith

take_event :
    (t : Thread) (ts : List Thread) (m : Master)
    → m.event ≡ t ∷ ts
    → m.current_thread ≡ none
    → IsSound none m
    → IsSound none (begin_thread t (record m { event = ts }))
unfolding begin_thread places in_hand Typed count
take_event t ts m e idle s =
    let a = subst (Typed is_event) e s.events in
    record {
      placed = λ p.
          (let h = s.placed p in
            let c = ap (count p) e in let d = ap (in_hand p) idle in omega arith);
      children = λ p.
          begun_pids (t.type is ThreadType.child_timeout) t.ptr m.child_pid p
          ∙ (let k = is_event_not_timeout t.type a.0 in let h = s.children p in ground arith);
      reads = s.reads;
      writes = s.writes;
      timers = s.timers;
      childs = s.childs;
      events = a.1;
      readies = s.readies;
      unuses = s.unuses;
    }

take_ready :
    (t : Thread) (ts : List Thread) (m : Master)
    → m.ready ≡ t ∷ ts
    → m.current_thread ≡ none
    → IsSound none m
    → IsSound none (begin_thread t (record m { ready = ts }))
unfolding begin_thread places in_hand Typed count count_timeout
take_ready t ts m e idle s = record {
  placed = λ p.
      (let h = s.placed p in let c = ap (count p) e in let d = ap (in_hand p) idle in omega arith);
  children = λ p.
      begun_pids (t.type is ThreadType.child_timeout) t.ptr m.child_pid p
      ∙ (let h = s.children p in let c = ap (count_timeout p) e in omega arith);
  reads = s.reads;
  writes = s.writes;
  timers = s.timers;
  childs = s.childs;
  events = s.events;
  readies = (subst (Typed is_ready) e s.readies).1;
  unuses = s.unuses;
}

take_thread-IsSound :
    (q r : List Thread) (m n : Master)
    → m.event ≡ q
    → m.ready ≡ r
    → take_thread q r m ≡ some n
    → m.current_thread ≡ none
    → IsSound none m
    → IsSound none n
unfolding take_thread
take_thread-IsSound (t ∷ ts) r m n e f o idle s =
    subst (IsSound none) (some_inj o) (take_event t ts m e idle s)
  where
    some_inj : {a b : Master} → some a ≡ some b → a ≡ b
    some_inj e = cc
take_thread-IsSound [] (t ∷ ts) m n e f o idle s =
    subst (IsSound none) (some_inj o) (take_ready t ts m f idle s)
  where
    some_inj : {a b : Master} → some a ≡ some b → a ≡ b
    some_inj e = cc
take_thread-IsSound [] [] m n e f o idle s = cc

pub fetch_thread-IsSound :
    (m n : Master)
    → fetch_thread m ≡ some n
    → m.current_thread ≡ none
    → IsSound none m
    → IsSound none n
unfolding fetch_thread
fetch_thread-IsSound m n o idle s = take_thread-IsSound m.event m.ready m n refl refl o idle s

-- The current thread and the flags aside, nothing changes.
current_as :
    (o : Option Thread) (f : Bool) (io : Io) (m : Master)
    → ((p : ℕ) → in_hand p m.current_thread ≡ in_hand p o)
    → IsSound none m
    → IsSound none (record m { current_thread = o; shutting_down = f; io = io })
unfolding places
current_as o f io m same s = record {
  placed = λ p. (let h = s.placed p in let k = same p in omega arith);
  children = s.children;
  reads = s.reads;
  writes = s.writes;
  timers = s.timers;
  childs = s.childs;
  events = s.events;
  readies = s.readies;
  unuses = s.unuses;
}

pub note_shutdown-IsSound :
    (type : ThreadType) (m : Master) → IsSound none m → IsSound none (note_shutdown type m)
unfolding note_shutdown
note_shutdown-IsSound type m s =
    if_both (IsSound none) (type is ThreadType.terminate_start) (record m { shutting_down = true })
      m (current_as m.current_thread true m.io m (λ p. refl) s) s

release :
    (t : Thread) (m : Master)
    → m.current_thread ≡ some t
    → IsSound none m
    → IsSound (some t) (record m { current_thread = none })
unfolding places in_hand
release t m e s = record {
  placed = λ p. (let h = s.placed p in let k = ap (in_hand p) e in omega arith);
  children = s.children;
  reads = s.reads;
  writes = s.writes;
  timers = s.timers;
  childs = s.childs;
  events = s.events;
  readies = s.readies;
  unuses = s.unuses;
}

ended :
    (type : ThreadType) (o : Option Thread) (m : Master)
    → m.current_thread ≡ o
    → IsSound none m
    → IsSound none (end_thread type o m)
unfolding end_thread thread_add_unuse
ended type none m e s = io-IsSound none (record m.io { current_event = none }) m s
ended type (some t) m e s =
    let n = record m { current_thread = none } in
    io-IsSound none _ (thread_add_unuse t n) (thread_add_unuse-IsSound t n (release t m e s))

pub end_thread-IsSound :
    (type : ThreadType) (m : Master)
    → IsSound none m
    → IsSound none (end_thread type m.current_thread m)
end_thread-IsSound type m s = ended type m.current_thread m refl s

cancel_event_of-IsSound :
    (o : Option ℕ) (t : Thread) (m : Master)
    → m.current_thread ≡ some t
    → IsSound none m
    → IsSound none (record (cancel_event_of o m) {
      current_thread = some (record t { fd = none; event = none });
    })
unfolding cancel_event_of in_hand
cancel_event_of-IsSound none t m e s =
    current_as (some (record t { fd = none; event = none })) m.shutting_down m.io m
      (λ p. ap (in_hand p) e) s
cancel_event_of-IsSound (some fd) t m e s =
    current_as (some (record t { fd = none; event = none })) m.shutting_down
      (thread_event_cancel fd m.io) m (λ p. ap (in_hand p) e) s

pub skip_thread-IsSound :
    (t : Thread) (m : Master)
    → m.current_thread ≡ some t
    → IsSound none m
    → IsSound none (skip_thread t m)
unfolding skip_thread thread_close_fd
skip_thread-IsSound t m e s = if_both (IsSound none) (is_fd_type t.type) _ m (closed t.fd) s
  where
    closed :
        (o : Option ℕ)
        → IsSound none (
            maybe o m (λ fd. record (cancel_event_of t.event m) {
              current_thread = some (record t { fd = none; event = none });
            }))
    closed none = s
    closed (some fd) = cancel_event_of-IsSound t.event t m e s
