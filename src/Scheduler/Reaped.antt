-- ===== src/Scheduler/Reaped.antt =====
-- lib/scheduler.c: what the end of a child process makes of its thread.
use keepalived.Common.{
  ℕ, ◌+◌, ◌≤◌, true, ◌&&◌, ◌≡◌, refl, sym, ap, ◌∙◌, ◌==◌, if_true, if_false, Bool-cases, Option,
  none, some, maybe, List, [], ◌∷◌, ◌++◌, subst, arith, inl, inr,
}
use keepalived.Scheduler.{ThreadType, Thread, PidNode, Master, code, ◌is◌, erase, find, erase_pid}
use keepalived.Scheduler.Ready.{retyped}
use keepalived.Scheduler.Child.{find_pid, reap, end_child, process_child_termination}
use keepalived.Scheduler.Order.{All-find}
use keepalived.Scheduler.Count.{
  tick, count, count_pid, count_pid-erase, count-erase, count-find, count-find-none, find-ptr,
  count_timeout_le,
}
use keepalived.Scheduler.Sound.{IsSound, places, in_hand, Typed}
use keepalived.Scheduler.Sound.Child.{count_pid-find_pid}

-- The threads of an address that are ready to hear of the end of their child, with a status.
unfoldable pub count_ended : ℕ → ℕ → List Thread → ℕ
count_ended p status [] = 0
count_ended p status (t ∷ ts) =
    tick ((t.ptr == p) && (t.type is ThreadType.child_terminated) && (t.status == status))
    + count_ended p status ts

-- The thread waits, once, to hear that its child has ended with the status, and it is no longer known
-- as a child that runs.
unfoldable pub Reported : ℕ → ℕ → Master → Type 0
Reported p status m =
    (count_ended p status m.ready ≡ 1) × (count_pid p m.child_pid ≡ 0) × (count p m.child ≡ 0)

module _ (p status : ℕ) where
  count_ended_le : (q : List Thread) → count_ended p status q ≤ count p q
  unfolding count_ended count
  count_ended_le [] = omega arith
  count_ended_le (t ∷ ts) = ground (arith, count_ended_le ts)

  count_ended-snoc :
      (q : List Thread) (t : Thread)
      → count_ended p status (q ++ t ∷ [])
        ≡ tick ((t.ptr == p) && (t.type is ThreadType.child_terminated) && (t.status == status))
          + count_ended p status q
  unfolding count_ended
  count_ended-snoc [] t = refl
  count_ended-snoc (u ∷ us) t = omega (arith, count_ended-snoc us t)

  -- A thread that is on the list once hears of it once.
  count_ended-reap : (q : List Thread) → count p q ≡ 1 → count_ended p status (reap p status q) ≡ 1
  unfolding count_ended reap count code
  count_ended-reap [] e = cc
  count_ended-reap (t ∷ ts) e =
      let z = count_ended_le ts in
      elim (Bool-cases (t.ptr == p)) [
        | inl h ↦
            ap (count_ended p status) (
              if_true _ (record t { status = status; type = ThreadType.child_terminated } ∷ ts)
                (t ∷ reap p status ts) h)
            ∙ ground arith
        | inr h ↦
            ap (count_ended p status) (
              if_false _ (record t { status = status; type = ThreadType.child_terminated } ∷ ts)
                (t ∷ reap p status ts) h)
            ∙ (let k = count_ended-reap ts (ground arith) in ground arith)
      ]

  retyped_ended :
      (t : Thread)
      → t.ptr ≡ p
      → (t.type is ThreadType.child) ≡ true
      → tick (
          ((retyped ThreadType.child_terminated (record t { status = status })).ptr == p)
          && ((retyped ThreadType.child_terminated (record t { status = status })).type
              is ThreadType.child_terminated)
          && ((retyped ThreadType.child_terminated (record t { status = status })).status
              == status))
        ≡ 1
  unfolding retyped code
  retyped_ended t e h = ground arith

  running_child-Reported :
      (t : Thread) (m : Master)
      → find p m.child ≡ some t
      → IsSound none m
      → Reported p status (record m {
        child = erase p m.child;
        child_pid = erase_pid p m.child_pid;
        ready = m.ready ++ retyped ThreadType.child_terminated (record t { status = status }) ∷ [];
      })
  unfolding Reported places in_hand Typed
  running_child-Reported t m e s =
      let h = s.placed p in
      let k = s.children p in
      let c = count-find p m.child t e in
      let z = count_ended_le m.ready in
      let y = count_timeout_le p m.ready in
      let g = retyped_ended t (find-ptr p m.child t e) (All-find _ p m.child t s.childs.0 e) in
      (
        count_ended-snoc m.ready
              (retyped ThreadType.child_terminated (record t { status = status }))
            ∙ none_before g (ground arith),
        count_pid-erase p p m.child_pid ∙ ground arith,
        count-erase p p m.child ∙ ground arith,
      )
    where
      none_before : {a b : ℕ} → a ≡ 1 → b ≡ 0 → a + b ≡ 1
      none_before a b = omega arith

  late_child-Reported :
      (m : Master)
      → find p m.child ≡ none
      → 1 ≤ count_pid p m.child_pid
      → IsSound none m
      → Reported p status
          (record m { child_pid = erase_pid p m.child_pid; ready = reap p status m.ready })
  unfolding Reported places in_hand
  late_child-Reported m e few s =
      let h = s.placed p in
      let k = s.children p in
      let c = count-find-none p m.child e in
      let y = count_timeout_le p m.ready in
      (count_ended-reap m.ready (ground arith), count_pid-erase p p m.child_pid ∙ ground arith, c)

  end_child-Reported :
      (m : Master)
      → IsSound none m
      → 1 ≤ count_pid p m.child_pid
      → Reported p status (end_child p status (record m { child_pid = erase_pid p m.child_pid }))
  unfolding end_child
  end_child-Reported m s few = go (find p m.child) refl
    where
      go :
          (o : Option Thread)
          → find p m.child ≡ o
          → Reported p status (
              maybe o
                (record m { child_pid = erase_pid p m.child_pid; ready = reap p status m.ready })
                (λ t. record m {
                  child = erase p m.child;
                  child_pid = erase_pid p m.child_pid;
                  ready =
                      m.ready
                      ++ retyped ThreadType.child_terminated (record t { status = status }) ∷ [];
                }))
      go none e = late_child-Reported m e few s
      go (some t) e = running_child-Reported t m e s

-- When a child process ends whose thread is known, in a state with sound queues, the thread is on the
-- ready list exactly once to hear of the end, with the status of the child, whether it was still
-- running, or its timeout was on the ready list and had not been handled; and it is on neither of the
-- trees of children any more.
pub process_child_termination-Reported :
    (pid status : ℕ) (n : PidNode) (m : Master)
    → IsSound none m
    → find_pid pid m.child_pid ≡ some n
    → Reported n.ptr status (process_child_termination pid status m)
unfolding process_child_termination
process_child_termination-Reported pid status n m s e =
    subst
      (λ o. Reported n.ptr status (
        maybe o m
          (λ a. end_child a.ptr status (record m { child_pid = erase_pid a.ptr m.child_pid }))))
      (sym e) (end_child-Reported n.ptr status m s (count_pid-find_pid pid m.child_pid n e))
