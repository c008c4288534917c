-- ===== src/Scheduler/Order.antt =====
-- lib/scheduler.c: the trees of the master stay in the order of the due times.
use keepalived.Common.{
  ℕ, true, false, ◌≡◌, sym, ap, ◌∙◌, ◌==◌, Bool-cases, some, List, [], ◌∷◌, ◌++◌, map, All, if_true,
  if_false, subst, inl, inr, arith,
}
use keepalived.Timer.{Timeval, timer_less}
use keepalived.Timer.Order.{timer_less_irrefl}
use keepalived.Scheduler.{Thread, rb_add, erase, find}

-- No thread comes before one that it follows in the list.
unfoldable pub Sorted : List Thread → Type 0
Sorted [] = Unit
Sorted (t ∷ ts) = All (λ u. timer_less u.sands t.sands ≡ false) ts × Sorted ts

-- Where c is not before b, nor b before a, c is not before a.
pub timer_less_back :
    (a b c : Timeval) → timer_less b a ≡ false → timer_less c b ≡ false → timer_less c a ≡ false
unfolding timer_less
timer_less_back a b c p q = ground arith

pub timer_less_asym : (a b : Timeval) → timer_less a b ≡ true → timer_less b a ≡ false
unfolding timer_less
timer_less_asym a b p = ground arith

module _ {κ} (P : Thread → Type κ) where
  pub All-rb_add : (t : Thread) (q : List Thread) → P t → All P q → All P (rb_add t q)
  unfolding rb_add
  All-rb_add t [] p a = (p, tt)
  All-rb_add t (u ∷ us) p a = elim (Bool-cases (timer_less t.sands u.sands)) [
    | inl e ↦ subst (All P) (sym (if_true _ (t ∷ u ∷ us) (u ∷ rb_add t us) e)) (p, a)
    | inr e ↦
        subst (All P) (sym (if_false _ (t ∷ u ∷ us) (u ∷ rb_add t us) e))
          (a.0, All-rb_add t us p a.1)
  ]

  pub All-erase : (p : ℕ) (q : List Thread) → All P q → All P (erase p q)
  unfolding erase
  All-erase p [] a = tt
  All-erase p (t ∷ ts) a = elim (Bool-cases (t.ptr == p)) [
    | inl e ↦ subst (All P) (sym (if_true _ ts (t ∷ erase p ts) e)) a.1
    | inr e ↦ subst (All P) (sym (if_false _ ts (t ∷ erase p ts) e)) (a.0, All-erase p ts a.1)
  ]

  pub All-snoc : (q : List Thread) (t : Thread) → All P q → P t → All P (q ++ t ∷ [])
  All-snoc [] t a p = (p, tt)
  All-snoc (u ∷ us) t a p = (a.0, All-snoc us t a.1 p)

  pub All-find : (p : ℕ) (q : List Thread) (t : Thread) → All P q → find p q ≡ some t → P t
  unfolding find
  All-find p [] t a e = cc
  All-find p (u ∷ us) t a e = elim (Bool-cases (u.ptr == p)) [
    | inl h ↦ subst P (some_inj (sym (if_true _ (some u) (find p us) h) ∙ e)) a.0
    | inr h ↦ All-find p us t a.1 (sym (if_false _ (some u) (find p us) h) ∙ e)
  ]
    where
      some_inj : {a b : Thread} → some a ≡ some b → a ≡ b
      some_inj e = cc

pub All-mono {κ} :
    (P Q : Thread → Type κ) → ((t : Thread) → P t → Q t) → (q : List Thread) → All P q → All Q q
All-mono P Q f [] a = tt
All-mono P Q f (t ∷ ts) a = (f t a.0, All-mono P Q f ts a.1)

pub Sorted-rb_add : (t : Thread) (q : List Thread) → Sorted q → Sorted (rb_add t q)
unfolding Sorted rb_add
Sorted-rb_add t [] s = (tt, tt)
Sorted-rb_add t (u ∷ us) s = elim (Bool-cases (timer_less t.sands u.sands)) [
  | inl e ↦ subst Sorted (sym (if_true _ (t ∷ u ∷ us) (u ∷ rb_add t us) e)) (
    (
      timer_less_asym t.sands u.sands e,
      All-mono _ _
          (λ w k. timer_less_back t.sands u.sands w.sands (timer_less_asym t.sands u.sands e) k) us
          s.0,
    ),
    s,
  )
  | inr e ↦
      subst Sorted (sym (if_false _ (t ∷ u ∷ us) (u ∷ rb_add t us) e))
        (All-rb_add _ t us e s.0, Sorted-rb_add t us s.1)
]

pub Sorted-erase : (p : ℕ) (q : List Thread) → Sorted q → Sorted (erase p q)
unfolding Sorted erase
Sorted-erase p [] s = tt
Sorted-erase p (t ∷ ts) s = elim (Bool-cases (t.ptr == p)) [
  | inl e ↦ subst Sorted (sym (if_true _ ts (t ∷ erase p ts) e)) s.1
  | inr e ↦
      subst Sorted (sym (if_false _ ts (t ∷ erase p ts) e))
        (All-erase _ p ts s.0, Sorted-erase p ts s.1)
]

-- A tree all of whose threads have the same due time.
pub Sorted-map :
    (f : Thread → Thread) (sands : Timeval)
    → ((t : Thread) → (f t).sands ≡ sands)
    → (q : List Thread) → Sorted (map f q)
unfolding Sorted
Sorted-map f sands same [] = tt
Sorted-map f sands same (t ∷ ts) = (level ts, Sorted-map f sands same ts)
  where
    level : (q : List Thread) → All (λ u. timer_less u.sands (f t).sands ≡ false) (map f q)
    level [] = tt
    level (u ∷ us) = (
      ap (λ x. timer_less x (f t).sands) (same u ∙ sym (same t)) ∙ timer_less_irrefl (f t).sands,
      level us,
    )
