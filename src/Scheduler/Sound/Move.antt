-- ===== src/Scheduler/Sound/Move.antt =====
-- lib/scheduler.c: what thread_rb_move_ready keeps of a tree and of the ready list.
use keepalived.Common.{
  ℕ, ◌+◌, Bool, true, false, ◌&&◌, ◌≡◌, refl, ap, ◌∙◌, ◌==◌, if_both, Bool-cases, List, [], ◌∷◌,
  ◌++◌, arith, inl, inr,
}
use keepalived.Timer.{Timeval}
use keepalived.Scheduler.{ThreadType, Thread, Io, code, ◌is◌}
use keepalived.Scheduler.Ready.{Moved, retyped, is_due, unbind, thread_rb_move_ready}
use keepalived.Scheduler.Order.{Sorted, All-snoc}
use keepalived.Scheduler.Count.{tick, count, count_timeout, count-snoc, count_timeout-snoc}
use keepalived.Scheduler.Sound.{Typed, is_ready}

pub retyped-ptr : (type : ThreadType) (t : Thread) → (retyped type t).ptr ≡ t.ptr
unfolding retyped
retyped-ptr type t = if_both (λ u. u.ptr ≡ t.ptr) _ t (record t { type = type }) refl refl

pub retyped-is_ready :
    (type : ThreadType) (t : Thread) → is_ready type ≡ true → is_ready (retyped type t).type ≡ true
unfolding retyped is_ready code
retyped-is_ready type t h = elim (Bool-cases (t.type is ThreadType.timer_shutdown)) [
  | inl e ↦ ground arith
  | inr e ↦ ground arith
]

pub retyped_not_timeout :
    (type : ThreadType) (t : Thread)
    → (type is ThreadType.child_timeout) ≡ false
    → ((retyped type t).type is ThreadType.child_timeout) ≡ false
unfolding retyped code
retyped_not_timeout type t h = ground arith

-- A child is no timer, so that it does take the type.
pub retyped_child :
    (t : Thread)
    → (t.type is ThreadType.child) ≡ true
    → ((retyped ThreadType.child_timeout t).type is ThreadType.child_timeout) ≡ true
unfolding retyped code
retyped_child t h = ground arith

module _ (now : Timeval) (type : ThreadType) where
  pub count-move :
      (p : ℕ) (q ready : List Thread) (io : Io)
      → count p (thread_rb_move_ready now type q ready io).root
          + count p (thread_rb_move_ready now type q ready io).ready
        ≡ count p q + count p ready
  unfolding thread_rb_move_ready count
  count-move p [] ready io = refl
  count-move p (t ∷ ts) ready io =
      let h = count-move p ts (ready ++ retyped type t ∷ []) (unbind type t io) in
      let c = count-snoc p ready (retyped type t) in
      let e = ap (λ x. tick (x == p)) (retyped-ptr type t) in
      if_both
        (λ (r : Moved).
          count p r.root + count p r.ready ≡ (tick (t.ptr == p) + count p ts) + count p ready)
        (is_due now t) _ _ (omega arith) refl

  pub Typed-root :
      (f : ThreadType → Bool) (q ready : List Thread) (io : Io)
      → Typed f q
      → Typed f (thread_rb_move_ready now type q ready io).root
  unfolding thread_rb_move_ready Typed
  Typed-root f [] ready io a = a
  Typed-root f (t ∷ ts) ready io a =
      if_both (λ (r : Moved). Typed f r.root) (is_due now t) _ _ (Typed-root f ts _ _ a.1) a

  pub Sorted-root :
      (q ready : List Thread) (io : Io)
      → Sorted q
      → Sorted (thread_rb_move_ready now type q ready io).root
  unfolding thread_rb_move_ready Sorted
  Sorted-root [] ready io a = a
  Sorted-root (t ∷ ts) ready io a =
      if_both (λ (r : Moved). Sorted r.root) (is_due now t) _ _ (Sorted-root ts _ _ a.1) a

  pub Typed-ready :
      is_ready type ≡ true
      → (q ready : List Thread) (io : Io) → Typed is_ready ready
      → Typed is_ready (thread_rb_move_ready now type q ready io).ready
  unfolding thread_rb_move_ready Typed
  Typed-ready k [] ready io a = a
  Typed-ready k (t ∷ ts) ready io a =
      if_both (λ (r : Moved). Typed is_ready r.ready) (is_due now t) _ _
        (Typed-ready k ts _ _ (All-snoc _ ready (retyped type t) a (retyped-is_ready type t k))) a

  pub count_timeout-move :
      (type is ThreadType.child_timeout) ≡ false
      → (p : ℕ) (q ready : List Thread) (io : Io)
      → count_timeout p (thread_rb_move_ready now type q ready io).ready ≡ count_timeout p ready
  unfolding thread_rb_move_ready
  count_timeout-move k p [] ready io = refl
  count_timeout-move k p (t ∷ ts) ready io =
      let h = count_timeout-move k p ts (ready ++ retyped type t ∷ []) (unbind type t io) in
      let c = count_timeout-snoc p ready (retyped type t) in
      let e = retyped_not_timeout type t k in
      if_both (λ (r : Moved). count_timeout p r.ready ≡ count_timeout p ready) (is_due now t) _ _
        (h ∙ c ∙ and_false _ _ e) refl
    where
      and_false :
          (b c : Bool) → c ≡ false → tick (b && c) + count_timeout p ready ≡ count_timeout p ready
      and_false b c e = ground arith

-- Each child that moves is counted among those that have timed out.
pub count_timeout-move_child :
    (now : Timeval) (p : ℕ) (q ready : List Thread) (io : Io)
    → Typed (λ y. y is ThreadType.child) q
    → count p (thread_rb_move_ready now ThreadType.child_timeout q ready io).root
        + count_timeout p (thread_rb_move_ready now ThreadType.child_timeout q ready io).ready
      ≡ count p q + count_timeout p ready
unfolding thread_rb_move_ready count Typed
count_timeout-move_child now p [] ready io a = refl
count_timeout-move_child now p (t ∷ ts) ready io a =
    let u = retyped ThreadType.child_timeout t in
    let h =
      count_timeout-move_child now p ts (ready ++ u ∷ []) (unbind ThreadType.child_timeout t io)
        a.1 in
    let c = count_timeout-snoc p ready u in
    let e = ap (λ x. tick (x == p)) (retyped-ptr ThreadType.child_timeout t) in
    let b = and_true (u.ptr == p) _ (retyped_child t a.0) in
    if_both
      (λ (r : Moved).
        count p r.root + count_timeout p r.ready
        ≡ (tick (t.ptr == p) + count p ts) + count_timeout p ready)
      (is_due now t) _ _ (omega arith) refl
  where
    and_true : (b c : Bool) → c ≡ true → tick (b && c) ≡ tick b
    and_true b c e = ground arith
