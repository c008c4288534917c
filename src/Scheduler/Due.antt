-- ===== src/Scheduler/Due.antt =====
-- lib/scheduler.c: which threads the timerfd handler makes ready.
use keepalived.Common.{
  false, ◌≡◌, refl, sym, ap, ◌∙◌, if◌then◌else◌, if_true, if_false, Bool-cases, List, [], ◌∷◌, ◌++◌,
  map, All, inl, inr, arith,
}
use keepalived.Timer.{Timeval, timer_lt, timer_less}
use keepalived.Scheduler.{ThreadType, Thread, Io, is_disabled}
use keepalived.Scheduler.Ready.{Moved, retyped, is_due, unbind, thread_rb_move_ready}
use keepalived.Scheduler.Order.{Sorted, All-mono}

-- The threads that are due, and those that are not, in their order.
unfoldable pub due : Timeval → List Thread → List Thread
due now [] = []
due now (t ∷ ts) = let rest = due now ts in if is_due now t then t ∷ rest else rest

unfoldable pub later : Timeval → List Thread → List Thread
later now [] = []
later now (t ∷ ts) = let rest = later now ts in if is_due now t then rest else t ∷ rest

-- What comes after a thread that is not due is not due.
is_due_after :
    (now : Timeval) (t u : Thread)
    → is_due now t ≡ false
    → timer_less u.sands t.sands ≡ false
    → is_due now u ≡ false
unfolding is_due timer_less timer_lt is_disabled
is_due_after now t u h k = ground arith

due_none : (now : Timeval) (q : List Thread) → All (λ t. is_due now t ≡ false) q → due now q ≡ []
unfolding due
due_none now [] a = refl
due_none now (t ∷ ts) a = if_false _ (t ∷ due now ts) (due now ts) a.0 ∙ due_none now ts a.1

later_same : (now : Timeval) (q : List Thread) → All (λ t. is_due now t ≡ false) q → later now q ≡ q
unfolding later
later_same now [] a = refl
later_same now (t ∷ ts) a =
    if_false _ (later now ts) (t ∷ later now ts) a.0 ∙ ap (λ r. t ∷ r) (later_same now ts a.1)

append_step : (q : List Thread) (t : Thread) (r : List Thread) → (q ++ t ∷ []) ++ r ≡ q ++ t ∷ r
append_step [] t r = refl
append_step (u ∷ us) t r = ap (λ x. u ∷ x) (append_step us t r)

append_nil : (q : List Thread) → q ++ [] ≡ q
append_nil [] = refl
append_nil (u ∷ us) = ap (λ x. u ∷ x) (append_nil us)

module _ (now : Timeval) (type : ThreadType) where
  -- On a tree in order, the loop that stops at the first thread that is not due takes all those that
  -- are, however the tree goes on: they go to the end of the ready list in the order of their times with
  -- the new type, and exactly the others stay.
  pub thread_rb_move_ready-due :
      (q ready : List Thread) (io : Io)
      → Sorted q
      → ((thread_rb_move_ready now type q ready io).root ≡ later now q)
        × ((thread_rb_move_ready now type q ready io).ready
            ≡ ready ++ map (retyped type) (due now q))
  unfolding thread_rb_move_ready due later Sorted
  thread_rb_move_ready-due [] ready io s = (refl, sym (append_nil ready))
  thread_rb_move_ready-due (t ∷ ts) ready io s = elim (Bool-cases (is_due now t)) [
    | inl e ↦
        (let h =
            thread_rb_move_ready-due ts (ready ++ retyped type t ∷ []) (unbind type t io) s.1 in
          (
            ap (λ (r : Moved). r.root) (if_true _ _ _ e)
                ∙ h.0
                ∙ sym (if_true _ (later now ts) (t ∷ later now ts) e),
            ap (λ (r : Moved). r.ready) (if_true _ _ _ e)
                ∙ h.1
                ∙ append_step ready (retyped type t) (map (retyped type) (due now ts))
                ∙ ap (λ x. ready ++ map (retyped type) x)
                    (sym (if_true _ (t ∷ due now ts) (due now ts) e)),
          ))
    | inr e ↦
        (let a = All-mono _ _ (λ u k. is_due_after now t u e k) ts s.0 in
          (
            ap (λ (r : Moved). r.root) (if_false _ _ _ e)
                ∙ ap (λ x. t ∷ x) (sym (later_same now ts a))
                ∙ sym (if_false _ (later now ts) (t ∷ later now ts) e),
            ap (λ (r : Moved). r.ready) (if_false _ _ _ e)
                ∙ sym (append_nil ready)
                ∙ ap (λ x. ready ++ map (retyped type) x)
                    (sym (if_false _ (t ∷ due now ts) (due now ts) e ∙ due_none now ts a)),
          ))
  ]
