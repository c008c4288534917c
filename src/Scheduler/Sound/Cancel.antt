-- ===== src/Scheduler/Sound/Cancel.antt =====
-- lib/scheduler.c: a cancelled thread leaves the queues sound.
use keepalived.Common.{
  ℕ, true, ◌≡◌, refl, sym, ◌⊎◌, Bool-cases, Option, none, some, List, subst, arith, inl, inr,
}
use keepalived.Scheduler.{ThreadType, Thread, Master, Kernel, ◌is◌, erase, find}
use keepalived.Scheduler.Events.{thread_event_del_read, thread_event_del_write}
use keepalived.Scheduler.Sound.Listed.{Listed}
use keepalived.Scheduler.Cancel.{either, thread_at, cancel_by, thread_cancel}
use keepalived.Scheduler.Order.{All-find}
use keepalived.Scheduler.Count.{find-ptr}
use keepalived.Scheduler.Sound.{IsSound, Typed, is_timer}
use keepalived.Scheduler.Sound.Put.{thread_add_unuse-IsSound}
use keepalived.Scheduler.Sound.Pull.{
  pull_read-IsSound, pull_write-IsSound, pull_timer-IsSound, pull_child-IsSound,
}
use keepalived.Scheduler.Sound.Add.{maybe-IsSound}
use keepalived.Scheduler.Sound.Switch.{is→≡, finish, io_unuse, is_listed, cancel_listed}

finish_as :
    (k : Kernel) (t : Thread) (m : Master) (y : ThreadType)
    → t.type ≡ y
    → IsSound none (finish t (cancel_by k y t m) m)
    → IsSound none (finish t (cancel_by k t.type t m) m)
finish_as k t m y e s = subst (λ z. IsSound none (finish t (cancel_by k z t m) m)) (sym e) s

cancel_read :
    (k : Kernel) (t : Thread) (m : Master)
    → find t.ptr m.read ≡ some t
    → IsSound none m
    → IsSound none (finish t (cancel_by k t.type t m) m)
unfolding finish cancel_by Typed
cancel_read k t m e s =
    finish_as k t m ThreadType.read (is→≡ t.type _ (All-find _ t.ptr m.read t s.reads.0 e)) (
      io_unuse t (thread_event_del_read k t.event m.io) (record m { read = erase t.ptr m.read })
        (pull_read-IsSound t.ptr t m e s))

cancel_write :
    (k : Kernel) (t : Thread) (m : Master)
    → find t.ptr m.write ≡ some t
    → IsSound none m
    → IsSound none (finish t (cancel_by k t.type t m) m)
unfolding finish cancel_by Typed
cancel_write k t m e s =
    finish_as k t m ThreadType.write (is→≡ t.type _ (All-find _ t.ptr m.write t s.writes.0 e)) (
      io_unuse t (thread_event_del_write k t.event m.io) (record m { write = erase t.ptr m.write })
        (pull_write-IsSound t.ptr t m e s))

cancel_child :
    (k : Kernel) (t : Thread) (m : Master)
    → find t.ptr m.child ≡ some t
    → IsSound none m
    → IsSound none (finish t (cancel_by k t.type t m) m)
unfolding finish cancel_by Typed
cancel_child k t m e s =
    finish_as k t m ThreadType.child (is→≡ t.type _ (All-find _ t.ptr m.child t s.childs.0 e))
      (thread_add_unuse-IsSound t _ (pull_child-IsSound t.ptr t m e s))

is_timer-cases :
    (y : ThreadType) → is_timer y ≡ true → (y ≡ ThreadType.timer) ⊎ (y ≡ ThreadType.timer_shutdown)
unfolding is_timer
is_timer-cases y h = elim (Bool-cases (y is ThreadType.timer)) [
  | inl e ↦ inl (is→≡ y _ e)
  | inr e ↦ inr (is→≡ y _ (ground arith))
]

cancel_timer :
    (k : Kernel) (t : Thread) (m : Master)
    → find t.ptr m.timer ≡ some t
    → IsSound none m
    → IsSound none (finish t (cancel_by k t.type t m) m)
unfolding finish cancel_by Typed
cancel_timer k t m e s = elim (is_timer-cases t.type (All-find _ t.ptr m.timer t s.timers.0 e)) [
  | inl y ↦
      finish_as k t m ThreadType.timer y
        (thread_add_unuse-IsSound t _ (pull_timer-IsSound t.ptr t m e s))
  | inr y ↦ finish_as k t m ThreadType.timer_shutdown y s
]

cancel_event :
    (k : Kernel) (t : Thread) (m : Master)
    → find t.ptr m.event ≡ some t
    → IsSound none m
    → IsSound none (finish t (cancel_by k t.type t m) m)
unfolding Typed Listed is_listed
cancel_event k t m e s =
    let h = All-find _ t.ptr m.event t s.events e in
    cancel_listed k t m t.type refl (ground arith) (inl e) s

cancel_ready :
    (k : Kernel) (t : Thread) (m : Master)
    → find t.ptr m.ready ≡ some t
    → IsSound none m
    → IsSound none (finish t (cancel_by k t.type t m) m)
unfolding Typed Listed is_listed
cancel_ready k t m e s =
    let h = All-find _ t.ptr m.ready t s.readies e in
    cancel_listed k t m t.type refl (ground arith) (inr e) s

pub either-cases :
    (a b : Option Thread) (t : Thread) → either a b ≡ some t → (a ≡ some t) ⊎ (b ≡ some t)
unfolding either
either-cases none b t e = inr e
either-cases (some a) b t e = inl e

-- What a queue gives at an address has that address.
at_own : (p : ℕ) (q : List Thread) (t : Thread) → find p q ≡ some t → find t.ptr q ≡ some t
at_own p q t e = subst (λ r. find r q ≡ some t) (sym (find-ptr p q t e)) e

thread_at-IsSound :
    (k : Kernel) (p : ℕ) (t : Thread) (m : Master)
    → thread_at p m ≡ some t
    → IsSound none m
    → IsSound none (finish t (cancel_by k t.type t m) m)
unfolding thread_at
thread_at-IsSound k p t m e s = elim (either-cases (find p m.read) _ t e) [
  | inl h ↦ cancel_read k t m (at_own p _ t h) s
  | inr e2 ↦ elim (either-cases (find p m.write) _ t e2) [
    | inl h ↦ cancel_write k t m (at_own p _ t h) s
    | inr e3 ↦ elim (either-cases (find p m.timer) _ t e3) [
      | inl h ↦ cancel_timer k t m (at_own p _ t h) s
      | inr e4 ↦ elim (either-cases (find p m.child) _ t e4) [
        | inl h ↦ cancel_child k t m (at_own p _ t h) s
        | inr e5 ↦ elim (either-cases (find p m.event) _ t e5) [
          | inl h ↦ cancel_event k t m (at_own p _ t h) s
          | inr h ↦ cancel_ready k t m (at_own p _ t h) s
        ]
      ]
    ]
  ]
]

pub thread_cancel-IsSound :
    (k : Kernel) (p : ℕ) (m : Master) → IsSound none m → IsSound none (thread_cancel k p m)
unfolding thread_cancel finish
thread_cancel-IsSound k p m s =
    maybe-IsSound (thread_at p m) m _ s (λ t e. thread_at-IsSound k p t m e s)
