-- ===== src/Scheduler/Sound/Listed.antt =====
-- lib/scheduler.c: a thread of the event list or of the ready list is taken off it.
use keepalived.Common.{
  ℕ, ◌+◌, ◌-◌, ◌≤◌, true, false, ◌&&◌, ◌≡◌, ◌==◌, ◌⊎◌, Bool-cases, none, some, List, arith, inl,
  inr,
}
use keepalived.Scheduler.{ThreadType, Thread, PidNode, Master, code, ◌is◌, erase, find}
use keepalived.Scheduler.Cancel.{list_del}
use keepalived.Scheduler.Order.{All-find, All-erase}
use keepalived.Scheduler.Count.{
  tick, count, count_timeout, count_pid, count-erase, count-find, count_timeout-find, find-ptr,
  count_timeout-erase_other, count_timeout_le,
}
use keepalived.Scheduler.Sound.{IsSound, in_hand, places, Typed, is_event}

-- On one of the two lists.
unfoldable pub Listed : ℕ → Thread → Master → Type 0
Listed p t m = (find p m.event ≡ some t) ⊎ (find p m.ready ≡ some t)

Listed-count :
    (p : ℕ) (t : Thread) (m : Master) → Listed p t m → 1 ≤ count p m.event + count p m.ready
unfolding Listed
Listed-count p t m (inl e) = let c = count-find p m.event t e in omega arith
Listed-count p t m (inr e) = let c = count-find p m.ready t e in omega arith

Listed-ptr : (p : ℕ) (t : Thread) (m : Master) → Listed p t m → t.ptr ≡ p
unfolding Listed
Listed-ptr p t m (inl e) = find-ptr p m.event t e
Listed-ptr p t m (inr e) = find-ptr p m.ready t e

pub is_event_not_timeout :
    (y : ThreadType) → is_event y ≡ true → (y is ThreadType.child_timeout) ≡ false
unfolding is_event code
is_event_not_timeout y k = ground arith

-- A listed thread is on no other queue, and it is the one that counts as timed out.
pub Listed-count_timeout :
    (p : ℕ) (t : Thread) (m : Master)
    → Listed p t m
    → IsSound none m
    → (count_timeout p m.ready ≡ tick (t.type is ThreadType.child_timeout))
      × (count p m.child ≡ 0)
      × (count p m.ready ≤ 1)
unfolding Listed places in_hand Typed
Listed-count_timeout p t m (inl e) s =
    let h = s.placed p in
    let c = count-find p m.event t e in
    let k = is_event_not_timeout t.type (All-find _ p m.event t s.events e) in
    let z = count_timeout_le p m.ready in (ground arith, ground arith, ground arith)
Listed-count_timeout p t m (inr e) s =
    let h = s.placed p in
    let c = count-find p m.ready t e in
    let k = count_timeout-find p m.ready t e (ground arith) in (k.0, ground arith, ground arith)

-- The nodes that list_del has to leave.
unfoldable pub after : ℕ → Thread → Master → ℕ → ℕ
after p t m r = count_pid r m.child_pid - tick ((t.type is ThreadType.child_timeout) && (p == r))

pub list_del-IsSound :
    (p : ℕ) (t : Thread) (m : Master) (ns : List PidNode)
    → Listed p t m
    → ((r : ℕ) → count_pid r ns ≡ after p t m r)
    → IsSound none m
    → IsSound (some t) (record (list_del p m) { child_pid = ns })
unfolding list_del places in_hand Typed after
list_del-IsSound p t m ns o nodes s = record {
  placed = λ r.
      (let h = s.placed r in
        let c = count-erase r p m.event in
        let d = count-erase r p m.ready in
        let n = Listed-count p t m o in let i = Listed-ptr p t m o in ground arith);
  children = λ r.
      (let h = s.children r in
        let k = Listed-count_timeout p t m o s in
        let c = nodes r in
        let d = count-erase r p m.ready in
        let z = count_timeout_le r (erase p m.ready) in
        elim (Bool-cases (p == r)) [
          | inl e ↦ ground arith
          | inr e ↦ (let other = count_timeout-erase_other r p m.ready e in ground arith)
        ]);
  reads = s.reads;
  writes = s.writes;
  timers = s.timers;
  childs = s.childs;
  events = All-erase _ p m.event s.events;
  readies = All-erase _ p m.ready s.readies;
  unuses = s.unuses;
}
