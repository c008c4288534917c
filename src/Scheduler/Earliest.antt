-- ===== src/Scheduler/Earliest.antt =====
-- lib/scheduler.c: the time that thread_set_timer finds.
use keepalived.Common.{
  true, false, ◌≡◌, ◌⊎◌, refl, sym, ◌∙◌, if_both, if_true, if_false, Bool-cases, none, List, [],
  ◌∷◌, All, subst, inl, inr, arith,
}
use keepalived.Timer.{Timeval, timer_lt, timer_less, timer_zero}
use keepalived.Scheduler.{Thread, Master, is_disabled}
use keepalived.Scheduler.Alarm.{timerisset, thread_update_timer, earliest_timer}
use keepalived.Scheduler.Order.{Sorted, All-mono}
use keepalived.Scheduler.Sound.{IsSound}
use keepalived.Timer.Order.{timer_less_irrefl}

-- A thread without a timeout, or with one that is not before the alarm.
unfoldable pub Waits : Timeval → Thread → Type 0
Waits earliest t =
    (is_disabled t ≡ true) ⊎ ((timerisset earliest ≡ true) × (timer_lt t.sands earliest ≡ false))

abbrev pub HasTime : Thread → Type 0
HasTime t = timerisset t.sands ≡ true

-- A time no later than the alarm is, where the alarm is set.
keep-Waits :
    (q : List Thread) (min : Timeval) (t : Thread)
    → All HasTime q
    → Waits min t
    → Waits (thread_update_timer q min) t
unfolding thread_update_timer Waits timer_lt timerisset
keep-Waits [] min t a w = w
keep-Waits (f ∷ fs) min t a w = ground arith

first-Waits :
    (f t : Thread) (fs : List Thread) (min : Timeval)
    → HasTime f
    → timer_less t.sands f.sands ≡ false
    → Waits (thread_update_timer (f ∷ fs) min) t
unfolding thread_update_timer Waits timer_lt timerisset timer_less is_disabled
first-Waits f t fs min a k = ground arith

-- The due time of a thread of a queue that has a timeout.
unfoldable pub IsTime : Timeval → List Thread → Type 0
IsTime e [] = ⊥
IsTime e (t ∷ ts) = ((is_disabled t ≡ false) × (t.sands ≡ e)) ⊎ IsTime e ts

update-IsTime :
    (q : List Thread) (min : Timeval)
    → (thread_update_timer q min ≡ min) ⊎ IsTime (thread_update_timer q min) q
unfolding thread_update_timer IsTime
update-IsTime [] min = inl refl
update-IsTime (f ∷ fs) min = elim (Bool-cases (is_disabled f)) [
  | inl off ↦ inl (if_true _ _ _ off)
  | inr on ↦
      subst (λ e. (e ≡ min) ⊎ (((is_disabled f ≡ false) × (f.sands ≡ e)) ⊎ IsTime e fs))
        (sym (if_false _ _ _ on))
        (if_both (λ e. (e ≡ min) ⊎ (((is_disabled f ≡ false) × (f.sands ≡ e)) ⊎ IsTime e fs)) _
          f.sands min (inr (inl (on, refl))) (inl refl))
]

later-Waits :
    (q : List Thread) (min : Timeval) (ts : List Thread)
    → All HasTime q
    → All (Waits min) ts
    → All (Waits (thread_update_timer q min)) ts
later-Waits q min ts a w = All-mono _ _ (λ t k. keep-Waits q min t a k) ts w

tree-Waits :
    (q : List Thread) (min : Timeval)
    → All HasTime q
    → Sorted q
    → All (Waits (thread_update_timer q min)) q
unfolding Sorted
tree-Waits [] min a s = tt
tree-Waits (f ∷ fs) min a s = (
  first-Waits f f fs min a.0 (timer_less_irrefl f.sands),
  All-mono _ _ (λ t k. first-Waits f t fs min a.0 k) fs s.0,
)

-- In a state with sound queues, none of whose threads is due at the time 0 (which stands for no time
-- here), the time found is no later than that of any thread of the four trees that has a timeout, and it
-- is the time of one of those or, where it is 0, no thread has a timeout.
pub earliest_timer-Waits :
    (m : Master)
    → IsSound none m
    → All HasTime m.read
    → All HasTime m.write
    → All HasTime m.timer
    → All HasTime m.child
    → All (Waits (earliest_timer m)) m.read
      × All (Waits (earliest_timer m)) m.write
      × All (Waits (earliest_timer m)) m.timer
      × All (Waits (earliest_timer m)) m.child
      × ((earliest_timer m ≡ timer_zero)
          ⊎ (IsTime (earliest_timer m) m.read
              ⊎ (IsTime (earliest_timer m) m.write
                  ⊎ (IsTime (earliest_timer m) m.timer ⊎ IsTime (earliest_timer m) m.child))))
unfolding earliest_timer
earliest_timer-Waits m s r w t c =
    let a = thread_update_timer m.timer timer_zero in
    let b = thread_update_timer m.write a in
    let d = thread_update_timer m.read b in
    (
      later-Waits m.child d m.read c (tree-Waits m.read b r s.reads.1),
      later-Waits m.child d m.write c
          (later-Waits m.read b m.write r (tree-Waits m.write a w s.writes.1)),
      later-Waits m.child d m.timer c (
          later-Waits m.read b m.timer r
            (later-Waits m.write a m.timer w (tree-Waits m.timer timer_zero t s.timers.1))),
      tree-Waits m.child d c s.childs.1,
      times (update-IsTime m.timer timer_zero) (update-IsTime m.write a) (update-IsTime m.read b)
          (update-IsTime m.child d),
    )
  where
    times :
        {e a b d : Timeval}
        → (a ≡ timer_zero) ⊎ IsTime a m.timer
        → (b ≡ a) ⊎ IsTime b m.write
        → (d ≡ b) ⊎ IsTime d m.read
        → (e ≡ d) ⊎ IsTime e m.child
        → (e ≡ timer_zero)
          ⊎ (IsTime e m.read ⊎ (IsTime e m.write ⊎ (IsTime e m.timer ⊎ IsTime e m.child)))
    times t w r (inr h) = inr (inr (inr (inr h)))
    times t w (inr h) (inl e) = inr (inl (subst (λ x. IsTime x m.read) (sym e) h))
    times t (inr h) (inl f) (inl e) =
        inr (inr (inl (subst (λ x. IsTime x m.write) (sym (e ∙ f)) h)))
    times (inr h) (inl g) (inl f) (inl e) =
        inr (inr (inr (inl (subst (λ x. IsTime x m.timer) (sym (e ∙ f ∙ g)) h))))
    times (inl i) (inl g) (inl f) (inl e) = inl (e ∙ f ∙ g ∙ i)
