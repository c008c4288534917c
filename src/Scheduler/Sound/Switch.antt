-- ===== src/Scheduler/Sound/Switch.antt =====
-- lib/scheduler.c: the switch of thread_cancel on a thread of the event list or of the ready list.
use keepalived.Common.{
  ℕ, ◌-◌, Bool, true, false, ◌||◌, ◌≡◌, refl, sym, ap, ◌∙◌, ◌==◌, ==_iff, Option, none, some, maybe,
  List, [], get_elem?, ◌∷◌, arith,
}
use keepalived.Scheduler.{
  ThreadType, Thread, Io, Master, Kernel, code, ◌is◌, erase_pid, thread_add_unuse,
}
use keepalived.Scheduler.Events.{thread_event_del_read, thread_event_del_write}
use keepalived.Scheduler.Sound.Listed.{Listed, after, list_del-IsSound}
use keepalived.Scheduler.Cancel.{list_del, cancel_by}
use keepalived.Scheduler.Count.{tick, count_pid, count_pid-erase}
use keepalived.Scheduler.Sound.{IsSound, is_event, is_ready, io-IsSound}
use keepalived.Scheduler.Sound.Put.{thread_add_unuse-IsSound}

abbrev types : List ThreadType
types =
    ThreadType.read ∷ ThreadType.write ∷ ThreadType.timer ∷ ThreadType.timer_shutdown
    ∷ ThreadType.child ∷ ThreadType.unused ∷ ThreadType.ready ∷ ThreadType.event
    ∷ ThreadType.write_timeout ∷ ThreadType.read_timeout ∷ ThreadType.child_timeout
    ∷ ThreadType.child_terminated ∷ ThreadType.terminate_start ∷ ThreadType.terminate
    ∷ ThreadType.ready_timer ∷ ThreadType.ready_read_fd ∷ ThreadType.ready_write_fd
    ∷ ThreadType.read_error ∷ ThreadType.write_error ∷ []

unfoldable decode : ℕ → ThreadType
decode n = maybe (get_elem? types n) ThreadType.unused (λ y. y)

decode-code : (y : ThreadType) → decode (code y) ≡ y
unfolding decode code
decode-code ThreadType.read = refl
decode-code ThreadType.write = refl
decode-code ThreadType.timer = refl
decode-code ThreadType.timer_shutdown = refl
decode-code ThreadType.child = refl
decode-code ThreadType.unused = refl
decode-code ThreadType.ready = refl
decode-code ThreadType.event = refl
decode-code ThreadType.write_timeout = refl
decode-code ThreadType.read_timeout = refl
decode-code ThreadType.child_timeout = refl
decode-code ThreadType.child_terminated = refl
decode-code ThreadType.terminate_start = refl
decode-code ThreadType.terminate = refl
decode-code ThreadType.ready_timer = refl
decode-code ThreadType.ready_read_fd = refl
decode-code ThreadType.ready_write_fd = refl
decode-code ThreadType.read_error = refl
decode-code ThreadType.write_error = refl

pub is→≡ : (y z : ThreadType) → (y is z) ≡ true → y ≡ z
is→≡ y z h = sym (decode-code y) ∙ ap decode ((==_iff (code y) (code z)).0 h) ∙ decode-code z

-- What thread_cancel does with the result of the switch.
unfoldable pub finish : Thread → Option Master → Master → Master
finish t o m = maybe o m (λ n. thread_add_unuse t n)

pub io_unuse :
    (t : Thread) (io : Io) (m : Master)
    → IsSound (some t) m
    → IsSound none (thread_add_unuse t (record m { io = io }))
io_unuse t io m s = thread_add_unuse-IsSound t (record m { io = io }) (io-IsSound (some t) io m s)

after_kept :
    (t : Thread) (m : Master) (r : ℕ) (y : ThreadType)
    → t.type ≡ y
    → (y is ThreadType.child_timeout) ≡ false
    → after t.ptr t m r ≡ count_pid r m.child_pid
unfolding after
after_kept t m r y e h = let k = ap (λ z. z is ThreadType.child_timeout) e ∙ h in ground arith

after_gone :
    (t : Thread) (m : Master) (r : ℕ)
    → t.type ≡ ThreadType.child_timeout
    → after t.ptr t m r ≡ count_pid r m.child_pid - tick (t.ptr == r)
unfolding after code
after_gone t m r e = let k = ap (λ z. z is ThreadType.child_timeout) e in ground arith

drop :
    (t : Thread) (m : Master)
    → Listed t.ptr t m
    → ((r : ℕ) → count_pid r m.child_pid ≡ after t.ptr t m r)
    → IsSound none m
    → IsSound (some t) (list_del t.ptr m)
unfolding list_del
drop t m o nodes s = list_del-IsSound t.ptr t m m.child_pid o nodes s

unfoldable pub is_listed : ThreadType → Bool
is_listed y = is_event y || is_ready y

pub cancel_listed :
    (k : Kernel) (t : Thread) (m : Master) (y : ThreadType)
    → t.type ≡ y
    → is_listed y ≡ true
    → Listed t.ptr t m
    → IsSound none m
    → IsSound none (finish t (cancel_by k y t m) m)
unfolding finish cancel_by is_listed is_event is_ready code list_del
cancel_listed k t m ThreadType.read e b o s = cc
cancel_listed k t m ThreadType.write e b o s = cc
cancel_listed k t m ThreadType.timer e b o s = cc
cancel_listed k t m ThreadType.timer_shutdown e b o s = s
cancel_listed k t m ThreadType.child e b o s = cc
cancel_listed k t m ThreadType.unused e b o s = cc
cancel_listed k t m ThreadType.ready e b o s = cc
cancel_listed k t m ThreadType.event e b o s =
    thread_add_unuse-IsSound t (list_del t.ptr m)
      (drop t m o (λ r. sym (after_kept t m r _ e refl)) s)
cancel_listed k t m ThreadType.write_timeout e b o s =
    io_unuse t (thread_event_del_write k t.event m.io) (list_del t.ptr m)
      (drop t m o (λ r. sym (after_kept t m r _ e refl)) s)
cancel_listed k t m ThreadType.read_timeout e b o s =
    io_unuse t (thread_event_del_read k t.event m.io) (list_del t.ptr m)
      (drop t m o (λ r. sym (after_kept t m r _ e refl)) s)
cancel_listed k t m ThreadType.child_timeout e b o s = thread_add_unuse-IsSound t _ (
    list_del-IsSound t.ptr t m (erase_pid t.ptr m.child_pid) o
      (λ r. count_pid-erase r t.ptr m.child_pid ∙ sym (after_gone t m r e)) s)
cancel_listed k t m ThreadType.child_terminated e b o s =
    thread_add_unuse-IsSound t (list_del t.ptr m)
      (drop t m o (λ r. sym (after_kept t m r _ e refl)) s)
cancel_listed k t m ThreadType.terminate_start e b o s = s
cancel_listed k t m ThreadType.terminate e b o s = s
cancel_listed k t m ThreadType.ready_timer e b o s =
    thread_add_unuse-IsSound t (list_del t.ptr m)
      (drop t m o (λ r. sym (after_kept t m r _ e refl)) s)
cancel_listed k t m ThreadType.ready_read_fd e b o s =
    io_unuse t (thread_event_del_read k t.event m.io) (list_del t.ptr m)
      (drop t m o (λ r. sym (after_kept t m r _ e refl)) s)
cancel_listed k t m ThreadType.ready_write_fd e b o s =
    io_unuse t (thread_event_del_write k t.event m.io) (list_del t.ptr m)
      (drop t m o (λ r. sym (after_kept t m r _ e refl)) s)
cancel_listed k t m ThreadType.read_error e b o s =
    io_unuse t (thread_event_del_read k t.event m.io) (list_del t.ptr m)
      (drop t m o (λ r. sym (after_kept t m r _ e refl)) s)
cancel_listed k t m ThreadType.write_error e b o s =
    io_unuse t (thread_event_del_write k t.event m.io) (list_del t.ptr m)
      (drop t m o (λ r. sym (after_kept t m r _ e refl)) s)
