-- ===== src/Vrrp/Priority.antt =====
-- keepalived/vrrp/vrrp_track.c: the priority of an instance and the objects it tracks. The instance is
-- in no sync group, and no configuration is being reloaded; the queue of the scheduler is left out.
pub mod Bounds
pub mod Contribution
use keepalived.Common.{
  ℕ, ◌+◌, ◌-◌, ◌^◌, Bool, true, false, not, ◌&&◌, ◌||◌, ltb, ◌==◌, if◌then◌else◌, List, [], ◌∷◌,
}
use keepalived.Common.Int.{ℤ, pos, negsuc, ◌+ℤ◌, ◌-ℤ◌, ◌*ℤ◌, ltb_ℤ, ◌==ℤ◌, pos_part, neg_part}
use keepalived.Timer.{Timeval, timer_add_long, timer_sub_long}
use keepalived.Vrrp.Instance.{State, Fault, Vrrp, Env, Out, emit, prio_owner, is_back}
use keepalived.Vrrp.Timers.{u32, set_down_timer}
use keepalived.Vrrp.Transition.{when}
use keepalived.Vrrp.Fault.{set_fault, down_instance, try_up_instance}

-- The priority that is advertised: at least 1, and below that of an address owner.
unfoldable pub clamp : ℤ → ℕ
clamp total =
    if ltb_ℤ total (pos 1)
    then 1
    else if ltb_ℤ total (pos prio_owner)
    then pos_part total
    else prio_owner - 1

-- The time at which a backup is due moves with its down timer.
unfoldable pub shift_sands : ℕ → ℕ → Timeval → Timeval
shift_sands old new sands =
    if ltb old new then timer_add_long sands (new - old) else timer_sub_long sands (old - new)

-- A priority other than the one before.
unfoldable pub change_priority : ℕ → Vrrp → Vrrp
change_priority new_prio v =
    let w = set_down_timer (record v { effective_priority = new_prio }) in
    emit (when v.notify_priority_changes (Out.priority_notify new_prio)) (record w {
      sands =
          if is_back v.state then shift_sands v.ms_down_timer w.ms_down_timer v.sands else v.sands;
    })

unfoldable pub vrrp_set_effective_priority : Vrrp → Vrrp
vrrp_set_effective_priority v =
    let new_prio = clamp v.total_priority in
    if v.base_priority == prio_owner
    then v
    else if v.effective_priority == new_prio
    then v
    else change_priority new_prio v

-- tracking_obj_t: the weight, 0 for an object that takes the instance down, and 1 or -1.
pub record TrackingObj : Type 0 where
  pub weight : ℤ
  pub weight_multiplier : ℤ

abbrev pub is_zero : ℤ → Bool
is_zero n = n ==ℤ pos 0

abbrev pub abs : ℤ → ℤ
abs n = pos (pos_part n + neg_part n)

abbrev pub eqb : Bool → Bool → Bool
eqb true b = b
eqb false b = not b

-- script_init_state_t
pub data InitState : Type 0 where
  done init init_reload failed : InitState

abbrev pub is_initial : InitState → Bool
is_initial InitState.init = true
is_initial _ = false

abbrev pub is_reloaded : InitState → Bool
is_reloaded InitState.init_reload = true
is_reloaded _ = false

-- Whether the state is the one in which the tracked object leaves the instance up.
abbrev pub is_good : TrackingObj → Bool → Bool
is_good t ok = eqb ok (t.weight_multiplier ==ℤ pos 1)

abbrev pub add_total : ℤ → Vrrp → Vrrp
add_total n v = record v { total_priority = v.total_priority +ℤ n }

abbrev pub sub_total : ℤ → Vrrp → Vrrp
sub_total n v = record v { total_priority = v.total_priority -ℤ n }

-- One script fewer in its initial state.
abbrev leave_init : InitState → Vrrp → Vrrp
leave_init i v =
    if is_initial i then record v { num_script_init = u32 (v.num_script_init + 2 ^ 32 - 1) } else v

-- A script of weight 0.
unfoldable pub track_script_fault : Env → TrackingObj → InitState → Bool → Vrrp → Vrrp
track_script_fault e t i ok v =
    let w = leave_init i v in
    if not (is_good t ok)
    then down_instance e Fault.tracker w
    else if w.num_script_init == 0 && not (is_reloaded i)
    then try_up_instance e (is_initial i && w.num_script_init == 0) Fault.tracker w
    else w

-- The total after a result of a script of another weight.
unfoldable pub track_script_total : TrackingObj → InitState → Bool → Vrrp → Vrrp
track_script_total t i ok v =
    if is_initial i || is_reloaded i
    then (if ok
        then (if ltb_ℤ (pos 0) t.weight then add_total (t.weight *ℤ t.weight_multiplier) v else v)
        else (if ltb_ℤ t.weight (pos 0) then add_total (t.weight *ℤ t.weight_multiplier) v else v))
    else if ok
    then add_total (abs t.weight *ℤ t.weight_multiplier) v
    else sub_total (abs t.weight *ℤ t.weight_multiplier) v

unfoldable pub process_script_update_priority : Env → TrackingObj → InitState → Bool → Vrrp → Vrrp
process_script_update_priority e t i ok v =
    if is_zero t.weight
    then track_script_fault e t i ok v
    else vrrp_set_effective_priority (track_script_total t i ok v)

-- The body of vrrp_handle_bfd_event for one instance.
unfoldable pub track_bfd : Env → TrackingObj → Bool → Vrrp → Vrrp
track_bfd e t bfd_up v =
    if not (is_zero t.weight)
    then vrrp_set_effective_priority (
        if bfd_up
        then add_total (abs t.weight *ℤ t.weight_multiplier) v
        else sub_total (abs t.weight *ℤ t.weight_multiplier) v)
    else if is_good t bfd_up
    then try_up_instance e false Fault.tracker v
    else down_instance e Fault.tracker v

-- The body of process_update_track_process_status for one instance.
unfoldable pub track_process : Env → TrackingObj → Bool → Vrrp → Vrrp
track_process e t now_up v =
    if is_zero t.weight
    then (if is_good t now_up
        then try_up_instance e false Fault.tracker v
        else down_instance e Fault.tracker v)
    else if not (v.base_priority == prio_owner)
    then vrrp_set_effective_priority (
        if eqb (ltb_ℤ (pos 0) t.weight) now_up
        then add_total (t.weight *ℤ t.weight_multiplier) v
        else sub_total (t.weight *ℤ t.weight_multiplier) v)
    else v
