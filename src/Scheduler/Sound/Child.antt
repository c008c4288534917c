-- ===== src/Scheduler/Sound/Child.antt =====
-- lib/scheduler.c: a child process that ends leaves the queues sound.
use keepalived.Common.{
  ℕ, ◌+◌, ◌-◌, ◌≤◌, ◌≡◌, refl, sym, ap, ◌∙◌, ◌==◌, ==_iff, if_both, if_true, if_false, Bool-cases,
  Option, none, some, maybe, List, [], ◌∷◌, ◌++◌, arith, inl, inr,
}
use keepalived.Scheduler.{ThreadType, Thread, PidNode, Master, code, erase, find, erase_pid}
use keepalived.Scheduler.Ready.{retyped}
use keepalived.Scheduler.Child.{find_pid, reap, end_child, process_child_termination}
use keepalived.Scheduler.Count.{
  tick, count, count_timeout, count_pid, count_pid-erase, count-find-none, count_timeout_le,
}
use keepalived.Scheduler.Sound.{IsSound, in_hand, places, Typed, is_ready}
use keepalived.Scheduler.Sound.Put.{same-IsSound, put_ready-IsSound}
use keepalived.Scheduler.Sound.Pull.{pull_child-IsSound}
use keepalived.Scheduler.Sound.Move.{retyped-ptr, retyped-is_ready, retyped_not_timeout}
use keepalived.Scheduler.Sound.Add.{maybe-IsSound}

module _ (p status : ℕ) where
  pub count-reap : (r : ℕ) (q : List Thread) → count r (reap p status q) ≡ count r q
  unfolding reap count
  count-reap r [] = refl
  count-reap r (t ∷ ts) =
      let h = count-reap r ts in
      if_both (λ q. count r q ≡ tick (t.ptr == r) + count r ts) (t.ptr == p) _
        (t ∷ reap p status ts) refl (omega arith)

  reap-Typed : (q : List Thread) → Typed is_ready q → Typed is_ready (reap p status q)
  unfolding reap Typed is_ready code
  reap-Typed [] a = tt
  reap-Typed (t ∷ ts) a =
      if_both (Typed is_ready) (t.ptr == p) _ (t ∷ reap p status ts) (refl, a.1)
        (a.0, reap-Typed ts a.1)

  -- The thread that ends is no longer counted as timed out, where it is on the list once.
  pub count_timeout-reap :
      (r : ℕ) (q : List Thread)
      → count p q ≤ 1
      → count_timeout r (reap p status q) ≡ count_timeout r q - tick (p == r)
  unfolding reap count count_timeout code
  count_timeout-reap r [] once = ground arith
  count_timeout-reap r (t ∷ ts) once =
      let z = count_timeout_le r ts in
      elim (Bool-cases (t.ptr == p)) [
        | inl e ↦
            ap (count_timeout r) (
              if_true _ (record t { status = status; type = ThreadType.child_terminated } ∷ ts)
                (t ∷ reap p status ts) e)
            ∙ ground arith
        | inr e ↦
            ap (count_timeout r) (
              if_false _ (record t { status = status; type = ThreadType.child_terminated } ∷ ts)
                (t ∷ reap p status ts) e)
            ∙ (let h = count_timeout-reap r ts (ground arith) in ground arith)
      ]

pub count_pid-find_pid :
    (pid : ℕ) (ns : List PidNode) (n : PidNode) → find_pid pid ns ≡ some n → 1 ≤ count_pid n.ptr ns
unfolding find_pid count_pid
count_pid-find_pid pid [] n e = cc
count_pid-find_pid pid (k ∷ ks) n e = elim (Bool-cases (k.pid == pid)) [
  | inl h ↦
      (let i = ap ptr_of (sym (if_true _ (some k) (find_pid pid ks) h) ∙ e) in
        let j = (==_iff k.ptr n.ptr).1 i in ground arith)
  | inr h ↦
      (let i = count_pid-find_pid pid ks n (sym (if_false _ (some k) (find_pid pid ks) h) ∙ e) in
        omega arith)
]
  where
    ptr_of : Option PidNode → ℕ
    ptr_of none = 0
    ptr_of (some a) = a.ptr

-- A child that has not timed out.
running_child :
    (p status : ℕ) (t : Thread) (m : Master)
    → find p m.child ≡ some t
    → IsSound none m
    → IsSound none (record m {
      child = erase p m.child;
      child_pid = erase_pid p m.child_pid;
      ready = m.ready ++ retyped ThreadType.child_terminated (record t { status = status }) ∷ [];
    })
unfolding is_ready code
running_child p status t m e s =
    let y = ThreadType.child_terminated in
    let u = record t { status = status } in
    let n = record m { child = erase p m.child; child_pid = erase_pid p m.child_pid } in
    put_ready-IsSound (retyped y u) n (retyped-is_ready y u refl) (retyped_not_timeout y u refl)
      (same-IsSound t (retyped y u) n (sym (retyped-ptr y u)) (pull_child-IsSound p t m e s))

-- A child whose timeout waits to be told.
late_child :
    (p status : ℕ) (m : Master)
    → find p m.child ≡ none
    → 1 ≤ count_pid p m.child_pid
    → IsSound none m
    → IsSound none (record m { child_pid = erase_pid p m.child_pid; ready = reap p status m.ready })
unfolding places in_hand
late_child p status m e few s =
    let h = s.placed p in
    let c = count-find-none p m.child e in
    let k = s.children p in
    let z = count_timeout_le p m.ready in
    record {
      placed = λ r. (let i = s.placed r in let j = count-reap p status r m.ready in omega arith);
      children = λ r.
          (let i = s.children r in
            let j = count_timeout-reap p status r m.ready (ground arith) in
            let d = count_pid-erase r p m.child_pid in ground arith);
      reads = s.reads;
      writes = s.writes;
      timers = s.timers;
      childs = s.childs;
      events = s.events;
      readies = reap-Typed p status m.ready s.readies;
      unuses = s.unuses;
    }

end_child-IsSound :
    (p status : ℕ) (m : Master)
    → 1 ≤ count_pid p m.child_pid
    → IsSound none m
    → IsSound none (end_child p status (record m { child_pid = erase_pid p m.child_pid }))
unfolding end_child
end_child-IsSound p status m few s = go (find p m.child) refl
  where
    go :
        (o : Option Thread)
        → find p m.child ≡ o
        → IsSound none (
            maybe o
              (record m { child_pid = erase_pid p m.child_pid; ready = reap p status m.ready })
              (λ t. record m {
                child = erase p m.child;
                child_pid = erase_pid p m.child_pid;
                ready =
                    m.ready
                    ++ retyped ThreadType.child_terminated (record t { status = status }) ∷ [];
              }))
    go none e = late_child p status m e few s
    go (some t) e = running_child p status t m e s

pub process_child_termination-IsSound :
    (pid status : ℕ) (m : Master)
    → IsSound none m
    → IsSound none (process_child_termination pid status m)
unfolding process_child_termination
process_child_termination-IsSound pid status m s =
    maybe-IsSound (find_pid pid m.child_pid) m _ s
      (λ n e. end_child-IsSound n.ptr status m (count_pid-find_pid pid m.child_pid n e) s)
