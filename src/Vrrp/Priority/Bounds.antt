-- ===== src/Vrrp/Priority/Bounds.antt =====
-- The effective priority, and the time at which a backup is due.
use keepalived.Common.{
  ℕ, ◌+◌, ◌<◌, ◌^◌, ◌≤◌, ◌≡◌, refl, ap, inl, inr, Bool, true, false, ◌==◌, if◌then◌else◌, arith,
  Bool-cases, ◌-◌, ltb, ltb→lt, if_true, ==_iff,
}
use keepalived.Common.Int.{ℤ}
use keepalived.Timer.{Timeval}
use keepalived.Timer.Laws.{IsNormal, usecs, debt, timer_add_long_value, timer_sub_long_value}
use keepalived.Vrrp.Instance.{State, Vrrp, prio_owner, is_back}
use keepalived.Vrrp.Timers.{ms_down_timer, set_down_timer}
use keepalived.Vrrp.Priority.{clamp, shift_sands, change_priority, vrrp_set_effective_priority}

clamp_bounds : (n : ℤ) → (1 ≤ clamp n) × (clamp n < prio_owner)
unfolding clamp
clamp_bounds n = ground arith

ltb→ge : (a b : ℕ) → ltb a b ≡ false → b ≤ a
ltb→ge a b h = ground arith

shift_value :
    (old new : ℕ) (t : Timeval)
    → IsNormal t
    → new < 2 ^ 32
    → IsNormal (shift_sands old new t)
      × (usecs (shift_sands old new t) + debt t + old
          ≡ usecs t + debt (shift_sands old new t) + new)
unfolding shift_sands
shift_value old new t n h =
    let (longer, later) = timer_add_long_value t (new - old) n (λ never. omega arith) in
    let (shorter, earlier) = timer_sub_long_value t (old - new) n in
    elim (Bool-cases (ltb old new)) [
      | inl lt ↦ rw lt (longer, (let h = ltb→lt _ _ lt in omega arith))
      | inr ge ↦ rw ge (shorter, (let h = ltb→ge _ _ ge in omega arith))
    ]

-- The down timer that a backup has started, and the one that it has now, end together.
abbrev pub Shifted : Vrrp → Vrrp → Type 0
Shifted v w =
    usecs w.sands + debt v.sands + v.ms_down_timer ≡ usecs v.sands + debt w.sands + w.ms_down_timer

abbrev Held : Vrrp → Vrrp → Type 0
Held v w =
    (w.effective_priority ≡ clamp v.total_priority)
    × (1 ≤ w.effective_priority)
    × (w.effective_priority < prio_owner)
    × Shifted v w

Held-if :
    (b : Bool) (v x y : Vrrp)
    → (b ≡ true → Held v x)
    → (b ≡ false → Held v y)
    → Held v (if b then x else y)
Held-if true v x y h k = h refl
Held-if false v x y h k = k refl

ms_down_timer_bound : (v : Vrrp) → ms_down_timer v < 2 ^ 32
unfolding ms_down_timer
ms_down_timer_bound v = ground arith

change_priority-Held :
    (v : Vrrp)
    → IsNormal v.sands
    → v.state ≡ State.back
    → Held v (change_priority (clamp v.total_priority) v)
unfolding change_priority set_down_timer
change_priority-Held v n b =
    let (low, high) = clamp_bounds v.total_priority in
    let w = set_down_timer (record v { effective_priority = clamp v.total_priority }) in
    let back =
      if_true (is_back v.state) (shift_sands v.ms_down_timer w.ms_down_timer v.sands) v.sands
        (ap is_back b) in
    (
      refl,
      low,
      high,
      rw (back) ((shift_value v.ms_down_timer w.ms_down_timer v.sands n (ms_down_timer_bound _)).1),
    )

-- For an instance that is not the address owner, the effective priority is the total one, held within
-- 1 and 254; and the time at which a backup is due moves by exactly the change of its down timer, so
-- that what has run of the timer still counts.
pub vrrp_set_effective_priority-bounds :
    (v : Vrrp)
    → (v.base_priority == prio_owner) ≡ false
    → IsNormal v.sands
    → v.state ≡ State.back
    → ((vrrp_set_effective_priority v).effective_priority ≡ clamp v.total_priority)
      × (1 ≤ (vrrp_set_effective_priority v).effective_priority)
      × ((vrrp_set_effective_priority v).effective_priority < prio_owner)
      × Shifted v (vrrp_set_effective_priority v)
unfolding vrrp_set_effective_priority
vrrp_set_effective_priority-bounds v common n b =
    let (low, high) = clamp_bounds v.total_priority in
    let new_prio = clamp v.total_priority in
    rw common (
      Held-if (v.effective_priority == new_prio) v v (change_priority new_prio v)
        (λ same.
          let e = (==_iff v.effective_priority new_prio).0 same in (e, rw e low, rw e high, refl))
        (λ _. change_priority-Held v n b))
