-- ===== src/Scheduler/Cancelled.antt =====
-- lib/scheduler.c: what thread_cancel does to the thread.
use keepalived.Common.{
  ℕ, ◌+◌, ◌≤◌, Bool, true, ◌||◌, not, ◌≡◌, refl, ap, ◌∙◌, ◌==◌, Option, none, some, maybe, List,
  Succeeds, inl, inr, arith,
}
use keepalived.Scheduler.{ThreadType, Thread, Master, Kernel, code, ◌is◌, find, thread_add_unuse}
use keepalived.Scheduler.Cancel.{either, thread_at, list_del, cancel_by, thread_cancel}
use keepalived.Scheduler.Count.{tick, count, count-snoc, count-find, find-ptr}
use keepalived.Scheduler.Sound.{IsSound, places, in_hand}
use keepalived.Scheduler.Sound.Cancel.{either-cases, thread_cancel-IsSound}

-- The types that thread_cancel refuses, and those of a thread that is on no queue.
unfoldable pub is_cancellable : ThreadType → Bool
is_cancellable type = not (
    (type is ThreadType.timer_shutdown)
    || (type is ThreadType.terminate_start)
    || (type is ThreadType.terminate)
    || (type is ThreadType.unused))

cancel_by-unuse :
    (k : Kernel) (y : ThreadType) (t : Thread) (m : Master)
    → is_cancellable y ≡ true
    → Succeeds (cancel_by k y t m) (λ n. n.unuse ≡ m.unuse)
unfolding cancel_by is_cancellable code list_del
cancel_by-unuse k ThreadType.read t m h = refl
cancel_by-unuse k ThreadType.write t m h = refl
cancel_by-unuse k ThreadType.timer t m h = refl
cancel_by-unuse k ThreadType.timer_shutdown t m h = cc
cancel_by-unuse k ThreadType.child t m h = refl
cancel_by-unuse k ThreadType.unused t m h = cc
cancel_by-unuse k ThreadType.ready t m h = refl
cancel_by-unuse k ThreadType.event t m h = refl
cancel_by-unuse k ThreadType.write_timeout t m h = refl
cancel_by-unuse k ThreadType.read_timeout t m h = refl
cancel_by-unuse k ThreadType.child_timeout t m h = refl
cancel_by-unuse k ThreadType.child_terminated t m h = refl
cancel_by-unuse k ThreadType.terminate_start t m h = cc
cancel_by-unuse k ThreadType.terminate t m h = cc
cancel_by-unuse k ThreadType.ready_timer t m h = refl
cancel_by-unuse k ThreadType.ready_read_fd t m h = refl
cancel_by-unuse k ThreadType.ready_write_fd t m h = refl
cancel_by-unuse k ThreadType.read_error t m h = refl
cancel_by-unuse k ThreadType.write_error t m h = refl

module _ (p : ℕ) (t : Thread) where
  last_queue : (q : List Thread) → find p q ≡ some t → (t.ptr ≡ p) × (1 ≤ count p q)
  last_queue q e = (find-ptr p q t e, count-find p q t e)

  -- A search that starts with a queue and goes on among n threads.
  next_queue :
      (q : List Thread) (o : Option Thread) (n : ℕ)
      → (o ≡ some t → (t.ptr ≡ p) × (1 ≤ n))
      → either (find p q) o ≡ some t
      → (t.ptr ≡ p) × (1 ≤ count p q + n)
  next_queue q o n f e = elim (either-cases (find p q) o t e) [
    | inl h ↦ (let k = last_queue q h in (k.0, omega arith))
    | inr h ↦ (let k = f h in (k.0, omega arith))
  ]

  -- What a pointer refers to is on one of the queues that are looked at.
  thread_at-count :
      (m : Master)
      → thread_at p m ≡ some t
      → (t.ptr ≡ p)
        × (1
            ≤ count p m.read
              + (count p m.write
                  + (count p m.timer + (count p m.child + (count p m.event + count p m.ready)))))
  unfolding thread_at
  thread_at-count m e =
      next_queue m.read _ _
        (next_queue m.write _ _ (
          next_queue m.timer _ _
            (next_queue m.child _ _ (next_queue m.event _ _ (last_queue m.ready)))))
        e

cancelled-unuse :
    (p : ℕ) (t : Thread) (o : Option Master) (m : Master)
    → Succeeds o (λ n. n.unuse ≡ m.unuse)
    → count p (maybe o m (λ n. thread_add_unuse t n)).unuse ≡ tick (t.ptr == p) + count p m.unuse
unfolding thread_add_unuse
cancelled-unuse p t none m h = elim h [ ]
cancelled-unuse p t (some n) m h =
    count-snoc p n.unuse (record t { type = ThreadType.unused; event = none })
    ∙ ap (λ q. tick (t.ptr == p) + count p q) h

thread_cancel-unuse :
    (k : Kernel) (p : ℕ) (t : Thread) (m : Master)
    → thread_at p m ≡ some t
    → is_cancellable t.type ≡ true
    → count p (thread_cancel k p m).unuse ≡ tick (t.ptr == p) + count p m.unuse
unfolding thread_cancel
thread_cancel-unuse k p t m e h =
    ap
      (λ o.
        count p
          (maybe o m (λ u. maybe (cancel_by k u.type u m) m (λ n. thread_add_unuse u n))).unuse)
      e
    ∙ cancelled-unuse p t (cancel_by k t.type t m) m (cancel_by-unuse k t.type t m h)

-- A thread that is on a queue and may be cancelled is, after thread_cancel, on the unuse list and
-- nowhere else: on no tree, not on the event list or the ready list, so that it is never run, and not
-- the current thread; whatever epoll answers, and whichever of the queues it was on.
pub thread_cancel-places :
    (k : Kernel) (p : ℕ) (t : Thread) (m : Master)
    → IsSound none m
    → thread_at p m ≡ some t
    → is_cancellable t.type ≡ true
    → (count p (thread_cancel k p m).unuse ≡ 1) × (places p (thread_cancel k p m) ≡ 1)
unfolding places in_hand
thread_cancel-places k p t m s e h =
    let c = thread_at-count p t m e in
    let u = thread_cancel-unuse k p t m e h in
    let after = (thread_cancel-IsSound k p m s).placed p in
    let before = s.placed p in (ground arith, ground arith)
