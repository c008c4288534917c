-- ===== src/Scheduler/Count.antt =====
-- lib/scheduler.c: how often a thread stands on the queues.
use keepalived.Common.{
  ℕ, ◌+◌, ◌-◌, ◌≤◌, Bool, true, false, ◌&&◌, ◌≡◌, refl, sym, ap, ◌∙◌, ◌==◌, ==_iff, Bool-cases,
  Option, none, some, List, [], ◌∷◌, ◌++◌, if_true, if_false, inl, inr, arith,
}
use keepalived.Timer.{timer_less}
use keepalived.Scheduler.{ThreadType, Thread, PidNode, ◌is◌, rb_add, erase, find, erase_pid}

abbrev pub tick : Bool → ℕ
tick true = 1
tick false = 0

unfoldable pub count : ℕ → List Thread → ℕ
count p [] = 0
count p (t ∷ ts) = tick (t.ptr == p) + count p ts

-- The threads of an address that have timed out.
unfoldable pub count_timeout : ℕ → List Thread → ℕ
count_timeout p [] = 0
count_timeout p (t ∷ ts) =
    tick ((t.ptr == p) && (t.type is ThreadType.child_timeout)) + count_timeout p ts

unfoldable pub count_pid : ℕ → List PidNode → ℕ
count_pid p [] = 0
count_pid p (n ∷ ns) = tick (n.ptr == p) + count_pid p ns

pub count-rb_add :
    (p : ℕ) (t : Thread) (q : List Thread) → count p (rb_add t q) ≡ tick (t.ptr == p) + count p q
unfolding count rb_add
count-rb_add p t [] = refl
count-rb_add p t (u ∷ us) = elim (Bool-cases (timer_less t.sands u.sands)) [
  | inl e ↦ ap (count p) (if_true _ (t ∷ u ∷ us) (u ∷ rb_add t us) e)
  | inr e ↦
      ap (count p) (if_false _ (t ∷ u ∷ us) (u ∷ rb_add t us) e)
      ∙ omega (arith, count-rb_add p t us)
]

pub count-snoc :
    (p : ℕ) (q : List Thread) (t : Thread) → count p (q ++ t ∷ []) ≡ tick (t.ptr == p) + count p q
unfolding count
count-snoc p [] t = refl
count-snoc p (u ∷ us) t = omega (arith, count-snoc p us t)

pub count_timeout-snoc :
    (p : ℕ) (q : List Thread) (t : Thread)
    → count_timeout p (q ++ t ∷ [])
      ≡ tick ((t.ptr == p) && (t.type is ThreadType.child_timeout)) + count_timeout p q
unfolding count_timeout
count_timeout-snoc p [] t = refl
count_timeout-snoc p (u ∷ us) t = omega (arith, count_timeout-snoc p us t)

pub count-erase : (r p : ℕ) (q : List Thread) → count r (erase p q) ≡ count r q - tick (p == r)
unfolding count erase
count-erase r p [] = ground arith
count-erase r p (t ∷ ts) = elim (Bool-cases (t.ptr == p)) [
  | inl e ↦ ap (count r) (if_true _ ts (t ∷ erase p ts) e) ∙ ground arith
  | inr e ↦ ap (count r) (if_false _ ts (t ∷ erase p ts) e) ∙ ground (arith, count-erase r p ts)
]

pub count_pid-erase :
    (r p : ℕ) (q : List PidNode) → count_pid r (erase_pid p q) ≡ count_pid r q - tick (p == r)
unfolding count_pid erase_pid
count_pid-erase r p [] = ground arith
count_pid-erase r p (t ∷ ts) = elim (Bool-cases (t.ptr == p)) [
  | inl e ↦ ap (count_pid r) (if_true _ ts (t ∷ erase_pid p ts) e) ∙ ground arith
  | inr e ↦
      ap (count_pid r) (if_false _ ts (t ∷ erase_pid p ts) e)
      ∙ ground (arith, count_pid-erase r p ts)
]

pub count_timeout_le : (p : ℕ) (q : List Thread) → count_timeout p q ≤ count p q
unfolding count count_timeout
count_timeout_le p [] = omega arith
count_timeout_le p (t ∷ ts) = ground (arith, count_timeout_le p ts)

pub count_timeout-erase_other :
    (r p : ℕ) (q : List Thread) → (p == r) ≡ false → count_timeout r (erase p q) ≡ count_timeout r q
unfolding count_timeout erase
count_timeout-erase_other r p [] h = refl
count_timeout-erase_other r p (t ∷ ts) h = elim (Bool-cases (t.ptr == p)) [
  | inl e ↦ ap (count_timeout r) (if_true _ ts (t ∷ erase p ts) e) ∙ ground arith
  | inr e ↦
      ap (count_timeout r) (if_false _ ts (t ∷ erase p ts) e)
      ∙ ground (arith, count_timeout-erase_other r p ts h)
]

-- What find gives has the address, and is on the queue.
pub find-ptr : (p : ℕ) (q : List Thread) (t : Thread) → find p q ≡ some t → t.ptr ≡ p
unfolding find
find-ptr p [] t e = cc
find-ptr p (u ∷ us) t e = elim (Bool-cases (u.ptr == p)) [
  | inl h ↦ sym (ap ptr_of (sym (if_true _ (some u) (find p us) h) ∙ e)) ∙ (==_iff u.ptr p).0 h
  | inr h ↦ find-ptr p us t (sym (if_false _ (some u) (find p us) h) ∙ e)
]
  where
    ptr_of : Option Thread → ℕ
    ptr_of none = 0
    ptr_of (some t) = t.ptr

pub count-find : (p : ℕ) (q : List Thread) (t : Thread) → find p q ≡ some t → 1 ≤ count p q
unfolding find count
count-find p [] t e = cc
count-find p (u ∷ us) t e = elim (Bool-cases (u.ptr == p)) [
  | inl h ↦ ground arith
  | inr h ↦ (let k = count-find p us t (sym (if_false _ (some u) (find p us) h) ∙ e) in omega arith)
]

pub count-find-none : (p : ℕ) (q : List Thread) → find p q ≡ none → count p q ≡ 0
unfolding find count
count-find-none p [] e = refl
count-find-none p (u ∷ us) e = elim (Bool-cases (u.ptr == p)) [
  | inl h ↦ (let k = sym (if_true _ (some u) (find p us) h) ∙ e in cc)
  | inr h ↦
      (let k = count-find-none p us (sym (if_false _ (some u) (find p us) h) ∙ e) in ground arith)
]

-- On a queue that has the address once, the thread found is the only one that counts.
pub count_timeout-find :
    (p : ℕ) (q : List Thread) (t : Thread)
    → find p q ≡ some t
    → count p q ≤ 1
    → (count_timeout p q ≡ tick (t.type is ThreadType.child_timeout))
      × (count_timeout p (erase p q) ≡ 0)
unfolding find count count_timeout erase
count_timeout-find p [] t e once = cc
count_timeout-find p (u ∷ us) t e once = elim (Bool-cases (u.ptr == p)) [
  | inl h ↦
      (let k = some_inj (sym (if_true _ (some u) (find p us) h) ∙ e) in
        let z = count_timeout_le p us in
        (ground arith, ap (count_timeout p) (if_true _ us (u ∷ erase p us) h) ∙ ground arith))
  | inr h ↦
      (let k =
          count_timeout-find p us t (sym (if_false _ (some u) (find p us) h) ∙ e) (ground arith) in
        (ground arith, ap (count_timeout p) (if_false _ us (u ∷ erase p us) h) ∙ ground arith))
]
  where
    some_inj : {a b : Thread} → some a ≡ some b → a ≡ b
    some_inj e = cc
