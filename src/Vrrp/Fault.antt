-- ===== src/Vrrp/Fault.antt =====
-- keepalived/vrrp/vrrp_track.c and vrrp_scheduler.c: an instance that goes down, and that may come up
-- again. The instance is in no sync group.
pub mod Core
pub mod Invariant
pub mod Kept
use keepalived.Common.{
  ℕ, ◌+◌, ◌-◌, ◌^◌, Bool, true, false, not, ◌&&◌, ◌||◌, ◌==◌, if◌then◌else◌, List, [], ◌∷◌, is_some,
}
use keepalived.Vrrp.Instance.{
  State, Fault, Faults, Vrrp, Env, Out, emit, prio_owner, write_bit, has_fault, is_init, is_mast,
  is_back, is_fault,
}
use keepalived.Vrrp.Timers.{u32, is_delayed, timer_skew, ms_down_timer, vrrp_init_instance_sands}
use keepalived.Vrrp.Transition.{when, vrrp_state_leave_master, vrrp_state_leave_fault}

abbrev pub is_tracker : Fault → Bool
is_tracker Fault.tracker = true
is_tracker _ = false

unfoldable pub set_fault : Fault → Vrrp → Vrrp
set_fault flag v = record v {
  flags_if_fault = write_bit flag true v.flags_if_fault;
  num_track_fault = if is_tracker flag then u32 (v.num_track_fault + 1) else v.num_track_fault;
}

-- The instance goes to the fault state.
unfoldable pub go_down : Env → Vrrp → Vrrp
go_down e v =
    let w = record v { wantstate = State.fault } in
    if is_mast w.state then vrrp_state_leave_master true e w else vrrp_state_leave_fault true e w

unfoldable pub down_instance : Env → Fault → Vrrp → Vrrp
down_instance e flag v =
    let w = set_fault flag v in
    if not (has_fault v.flags_if_fault) || is_init v.state then go_down e w else w

-- One tracked object fewer is at fault; the other faults are bits only.
unfoldable pub clear_fault : Fault → Vrrp → Vrrp
clear_fault flag v =
    if is_tracker flag
    then (let left = u32 (v.num_track_fault + 2 ^ 32 - 1) in
        record v {
          num_track_fault = left;
          flags_if_fault =
              if left == 0 then write_bit flag false v.flags_if_fault else v.flags_if_fault;
        })
    else record v { flags_if_fault = write_bit flag false v.flags_if_fault }

abbrev owner_wants_master : Vrrp → Bool
owner_wants_master v = is_mast v.wantstate && v.base_priority == prio_owner

-- The timers of an instance that has no fault left.
unfoldable pub prepare_up : Vrrp → Vrrp
prepare_up v =
    let owner = owner_wants_master v in
    let w = record v {
      wantstate = if owner then v.wantstate else State.back;
      master_adver_int = v.adver_int;
    } in
    record w {
      ms_down_timer = if owner then u32 (w.master_adver_int + timer_skew w) else ms_down_timer w;
    }

-- With unicast, the peers are told the hardware address.
abbrev announces : Env → Vrrp → Bool
announces e v = v.unicast && is_some v.ifp && not (v.saddr.ss_family == 0) && not (is_delayed e)

-- The instance comes up in the state that it wants.
unfoldable pub come_up : Env → Vrrp → Vrrp
come_up e v =
    let w = vrrp_state_leave_fault true e v in
    record (vrrp_init_instance_sands e (emit (when (announces e w) Out.unsolicited) w)) {
      wantstate = v.wantstate;
    }

unfoldable pub resolve : Env → Vrrp → Vrrp
resolve e v =
    if has_fault v.flags_if_fault
    then v
    else if not (v.num_script_init == 0)
    then record v { wantstate = State.back }
    else come_up e (prepare_up v)

unfoldable pub try_up_instance : Env → Bool → Fault → Vrrp → Vrrp
try_up_instance e leaving_init flag v = resolve e (if leaving_init then v else clear_fault flag v)
