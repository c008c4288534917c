-- ===== src/Vrrp/Transition.antt =====
-- keepalived/vrrp/vrrp.c: the changes of state of one instance. `can` says what
-- vrrp_sync_can_goto_master answers (true for an instance outside a sync group).
pub mod Core
pub mod Steps
use keepalived.Common.{
  ℕ, ◌+◌, ◌-◌, ◌*◌, ◌/◌, ◌%◌, ◌^◌, Bool, true, false, not, ◌&&◌, ◌||◌, ltb, ◌==◌, if◌then◌else◌,
  Option, none, some, List, [], ◌∷◌, ◌++◌, is_some,
}
use keepalived.Common.Int.{ℤ, pos}
use keepalived.Timer.{Timeval, timer_zero, timer_add_long}
use keepalived.Sockaddr.{af_inet}
use keepalived.Vrrp.Instance.{
  State, Vrrp, Env, Out, emit, prio_owner, prio_stop, is_init, is_back, is_mast, is_fault,
}
use keepalived.Vrrp.Timers.{
  u32, is_delayed, ms_down_timer, next_sands, vrrp_init_instance_sands, set_down_timer,
}

-- One output if the test holds.
abbrev pub when : Bool → Out → List Out
when b o = if b then o ∷ [] else []

-- The packet leaves if the output socket is open.
unfoldable pub vrrp_send_adv : Env → ℕ → Vrrp → Vrrp
vrrp_send_adv e prio v =
    if v.fd_out then record (emit (Out.advert prio ∷ []) v) { last_advert_sent = e.time_now } else v

-- No notification of a state that the sync group has told already.
unfoldable pub is_told_by_group : Env → Vrrp → Bool
is_told_by_group e v = v.notifies_sent && same v.state e.sync_state
  where
    same : State → Option State → Bool
    same s none = false
    same State.init (some t) = is_init t
    same State.back (some t) = is_back t
    same State.mast (some t) = is_mast t
    same State.fault (some t) = is_fault t

unfoldable pub send_instance_notifies : Env → Vrrp → Vrrp
send_instance_notifies e v = record v {
  notifies_sent = true;
  out = v.out ++ when (not (is_told_by_group e v)) (Out.notify v.state);
}

abbrev restore_owner : Vrrp → Bool
restore_owner v = v.base_priority == prio_owner && not (v.effective_priority == prio_owner)

-- The interval is set back only where the change is logged.
abbrev restore_interval : Env → Vrrp → Bool
restore_interval e v = v.version == 3 && e.log_detail && not (v.master_adver_int == v.adver_int)

unfoldable pub vrrp_state_become_master : Env → Vrrp → Vrrp
vrrp_state_become_master e v =
    let owner = restore_owner v in
    let v₁ = record v {
      effective_priority = if owner then prio_owner else v.effective_priority;
      total_priority = if owner then pos prio_owner else v.total_priority;
      master_adver_int = if restore_interval e v then v.adver_int else v.master_adver_int;
      vipset = true;
      out =
          v.out
          ++ when v.vips Out.add_addresses
          ++ when v.vroutes Out.add_routes
          ++ when v.vrules Out.add_rules
          ++ Out.link_update v.garp_rep ∷ []
          ++ when (not (v.garp_delay == 0)) (Out.delayed_update v.garp_rep v.garp_delay);
    } in
    let v₂ = send_instance_notifies e v₁ in
    record v₂ { last_transition = e.time_now; out = v₂.out ++ when v.lvs_syncd Out.syncd_master }

-- The interval after which a rival address owner must have gone: 1.2 times the longer interval.
abbrev rogue_delay : Vrrp → ℕ
rogue_delay v =
    (if ltb v.adver_int v.rogue_adver_int then v.rogue_adver_int else v.adver_int) * 12 / 10

unfoldable pub count_rogue : Env → Vrrp → Vrrp
count_rogue e v =
    if v.rogue_counter == 0
    then v
    else if v.rogue_counter == 1
    then record v {
      rogue_counter = 0;
      rogue_timer_thread = some (timer_add_long e.time_now (rogue_delay v));
    }
    else record v { rogue_counter = v.rogue_counter - 1 }

unfoldable pub vrrp_state_master_tx : Env → Vrrp → Vrrp
vrrp_state_master_tx e v =
    let v₁ = vrrp_send_adv e v.effective_priority v in
    if not v₁.vipset
    then vrrp_state_become_master e v₁
    else if v₁.base_priority == prio_owner
    then count_rogue e v₁
    else v₁

-- Anti-replay starts anew after a cycle of the sequence numbers.
unfoldable pub reset_counter : Vrrp → Vrrp
reset_counter v =
    if v.ipsecah_counter.cycle
    then record v { ipsecah_counter = record { cycle = false; seq_number = 0 } }
    else v

-- Refused by the sync group: the instance waits for another down timer.
unfoldable pub wait_for_group : Env → Vrrp → Vrrp
wait_for_group e v = record (vrrp_init_instance_sands e (set_down_timer v)) {
  wantstate = State.mast;
}

unfoldable pub vrrp_state_goto_master : Bool → Env → Vrrp → Vrrp
vrrp_state_goto_master can e v =
    if not can
    then wait_for_group e v
    else (let v₁ = vrrp_init_instance_sands e (record (reset_counter v) { state = State.mast }) in
        if is_delayed e then v₁ else vrrp_state_master_tx e v₁)

unfoldable pub vrrp_restore_interface : Bool → Bool → Env → Vrrp → Vrrp
vrrp_restore_interface adv_f force e v =
    let v₁ = if adv_f then vrrp_send_adv e prio_stop v else v in
    let v₂ = emit (when v.vrules Out.del_rules ++ when v.vroutes Out.del_routes) v₁ in
    if force || v.vipset || e.dont_release_vrrp || e.release_vips
    then record (emit (when v.vips Out.del_addresses) v₂) { vipset = false }
    else v₂

-- The wanted state is taken, with the notification of it.
unfoldable pub enter_wantstate : Env → Vrrp → Vrrp
enter_wantstate e v = send_instance_notifies e (record v { state = v.wantstate })

unfoldable pub reset_preempt_time : Vrrp → Vrrp
reset_preempt_time v = record v { preempt_time = record (v.preempt_time) { tv_sec = pos 0 } }

-- Before the interface is restored: the preemption delay ends, or the other routers are told that
-- this one stops, if it has an address to send from.
unfoldable pub announce_leave : Env → Vrrp → Vrrp
announce_leave e v =
    if is_back v.wantstate
    then reset_preempt_time v
    else if v.family == af_inet || not (v.saddr.ss_family == 0)
    then vrrp_send_adv e prio_stop v
    else v

unfoldable pub clear_rogue : Vrrp → Vrrp
clear_rogue v =
    if is_some v.rogue_timer_thread
    then record v { rogue_timer_thread = none }
    else record v { rogue_counter = 0 }

-- The down timer and the time of the transition.
unfoldable pub restart_timers : Env → Vrrp → Vrrp
restart_timers e v = record (vrrp_init_instance_sands e (set_down_timer v)) {
  last_transition = e.time_now;
}

unfoldable pub stop_syncd : Vrrp → Vrrp
stop_syncd v = emit (when (v.vipset && v.lvs_syncd) Out.syncd_backup) v

-- Leaving the master state: nothing but the sync daemon's call where the wanted state is invalid.
unfoldable pub vrrp_state_leave_master : Bool → Env → Vrrp → Vrrp
vrrp_state_leave_master adv_f e v =
    if is_back v.wantstate || is_fault v.wantstate
    then clear_rogue (
        restart_timers e (
          enter_wantstate e
            (vrrp_restore_interface adv_f false e (announce_leave e (stop_syncd v)))))
    else stop_syncd v

-- The end of vrrp_state_leave_fault.
unfoldable pub renew_timers : Env → Vrrp → Vrrp
renew_timers e v = restart_timers e (record v { master_adver_int = v.adver_int })

-- A master that is to be in fault says so and gives the addresses up.
unfoldable pub abandon : Env → Vrrp → Vrrp
abandon e v =
    if is_fault v.wantstate && is_mast v.state
    then vrrp_restore_interface false false e (vrrp_send_adv e prio_stop v)
    else v

unfoldable pub end_preempt_delay : Vrrp → Vrrp
end_preempt_delay v = if is_back v.state then reset_preempt_time v else v

unfoldable pub vrrp_state_leave_fault : Bool → Env → Vrrp → Vrrp
vrrp_state_leave_fault can e v = renew_timers e (
    if is_mast v.wantstate
    then vrrp_state_goto_master can e v
    else end_preempt_delay (enter_wantstate e (abandon e v)))
