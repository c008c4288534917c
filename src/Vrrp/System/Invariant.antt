-- ===== src/Vrrp/System/Invariant.antt =====
-- Sound at every time.
use keepalived.Common.{ℕ, ◌+◌, ◌<◌, ◌^◌, ◌≡◌, refl, ◌∙◌, ◌⊎◌, true, false, not, ◌==◌, ◌||◌, arith}
use keepalived.Common.Int.{ℤ}
use keepalived.Vrrp.Instance.{State, Fault, Vrrp, is_fault, is_init, has_fault}
use keepalived.Vrrp.Timers.{set_down_timer}
use keepalived.Vrrp.Transition.Core.{core, core_if}
use keepalived.Vrrp.Fault.{set_fault}
use keepalived.Vrrp.Fault.Invariant.{start_fault-IsSound}
use keepalived.Vrrp.Fault.Kept.{Sound, Sound-by, down_instance-Sound, try_up_instance-Sound}
use keepalived.Vrrp.Dispatch.Kept.{vrrp_dispatcher_read-Sound, vrrp_dispatcher_read_timeout-Sound}
use keepalived.Vrrp.Priority.{clamp, change_priority, vrrp_set_effective_priority}
use keepalived.Vrrp.System.{Started, Step, Reach}

core-change_priority : (p : ℕ) (v : Vrrp) → core (change_priority p v) ≡ core v
unfolding core change_priority set_down_timer
core-change_priority p v = refl

core-vrrp_set_effective_priority : (v : Vrrp) → core (vrrp_set_effective_priority v) ≡ core v
unfolding vrrp_set_effective_priority
core-vrrp_set_effective_priority v =
    core_if _ _ _ _ refl (core_if _ _ _ _ refl (core-change_priority (clamp v.total_priority) v))

Started-Sound : (v : Vrrp) → Started v → Sound v
unfolding core has_fault
Started-Sound v s = ground arith

tracked-Sound :
    (v : Vrrp)
    → Sound v
    → v.num_track_fault + 1 < 2 ^ 32
    → v.vipset ≡ false
    → Sound (record (set_fault Fault.tracker v) { state = State.fault })
unfolding core set_fault
tracked-Sound v s few free = start_fault-IsSound (core v) s few free

scripts-Sound : (v : Vrrp) → Sound v → Sound (record v { num_script_init = 0 })
unfolding core
scripts-Sound v s = ground arith

core_total : (n : ℤ) (v : Vrrp) → core (record v { total_priority = n }) ≡ core v
unfolding core
core_total n v = refl

step-Sound : (v w : Vrrp) → Step v w → Sound v → Sound w
step-Sound v w (Step.advert ok e src hd _) s = vrrp_dispatcher_read-Sound ok e src hd v s
step-Sound v w (Step.timeout e _) s = vrrp_dispatcher_read_timeout-Sound e v s
step-Sound v w (Step.down e flag _ few) s = down_instance-Sound e flag v s few
step-Sound v w (Step.up e flag _ set) s = try_up_instance-Sound e false flag v s set
step-Sound v w (Step.scripts_done e flag _ low) s =
    try_up_instance-Sound e true flag (record v { num_script_init = 0 }) (scripts-Sound v s) low
step-Sound v w (Step.tracked _ few free) s = tracked-Sound v s few free
step-Sound v w (Step.priority total _) s =
    let w = record v { total_priority = total } in
    Sound-by (vrrp_set_effective_priority w) (core v)
      (core-vrrp_set_effective_priority w ∙ core_total total v) s

Reach-Sound : (start v : Vrrp) → Started start → Reach start v → Sound v
Reach-Sound start v s Reach.here = Started-Sound start s
Reach-Sound start v s (Reach.step u _ before last) =
    step-Sound u v last (Reach-Sound start u s before)

-- An instance outside a sync group that starts without a fault and without the addresses, after any
-- events in any order (adverts, timeouts, faults that come and go, results of the tracking, changes of
-- the priority): only a master holds the addresses; an instance with a fault is in the fault state or
-- has not left the initial one, so it holds none; and the tracker's fault is set exactly as long as a
-- tracked object is at fault.
pub Reach-holder :
    (start v : Vrrp)
    → Started start
    → Reach start v
    → ((v.vipset ≡ false) ⊎ (v.state ≡ State.mast))
      × ((has_fault v.flags_if_fault ≡ false)
          ⊎ (((is_fault v.state || is_init v.state) ≡ true) × (v.vipset ≡ false)))
      × (v.flags_if_fault.tracker ≡ not (v.num_track_fault == 0))
unfolding core
Reach-holder start v s r = let sound = Reach-Sound start v s r in ground arith
