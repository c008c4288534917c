-- ===== src/Vrrp/Dispatch.antt =====
-- keepalived/vrrp/vrrp_scheduler.c: the events of an instance: an advert, and the time at which it
-- is due.
pub mod Election
pub mod Kept
pub mod Expiry
use keepalived.Common.{Bool, true, false, not, ◌&&◌, ◌||◌, if◌then◌else◌}
use keepalived.Common.Int.{◌==ℤ◌}
use keepalived.Timer.{timer_lt, timer_disabled}
use keepalived.Sockaddr.{Sockaddr}
use keepalived.Vrrp.Instance.{State, Vrrp, Env, Advert, is_back, is_mast}
use keepalived.Vrrp.Timers.{vrrp_init_instance_sands, is_delayed}
use keepalived.Vrrp.Transition.{
  vrrp_state_leave_master, vrrp_state_goto_master, vrrp_state_master_tx,
}
use keepalived.Vrrp.Backup.{vrrp_state_backup}
use keepalived.Vrrp.Master.{vrrp_state_master_rx}

-- vrrp_dispatcher_read with the advert of one instance that is in no sync group: nothing during a
-- delayed start, nor in the states INIT and FAULT.
unfoldable pub read_state : Bool → Env → Advert → Vrrp → Vrrp
read_state ok e hd v =
    if is_back v.state
    then vrrp_state_backup ok e hd v
    else (let r = vrrp_state_master_rx ok e hd v in
        if r.0 then vrrp_state_leave_master false e r.1 else r.1)

unfoldable pub renew_sands : Env → Vrrp → Vrrp
renew_sands e v =
    if not (is_mast v.state) || not v.lower_prio_no_advert then vrrp_init_instance_sands e v else v

unfoldable pub vrrp_dispatcher_read : Bool → Env → Sockaddr → Advert → Vrrp → Vrrp
vrrp_dispatcher_read ok e src hd v =
    if is_delayed e
    then v
    else if is_back v.state || is_mast v.state
    then renew_sands e (read_state ok e hd (record v { pkt_saddr = src }))
    else v

-- vrrp_goto_master
unfoldable pub vrrp_goto_master : Env → Vrrp → Vrrp
vrrp_goto_master e v = vrrp_state_goto_master true e (record v { wantstate = State.mast })

-- vrrp_dispatcher_read_timeout for one instance that is in no sync group: nothing if it is not due.
unfoldable pub is_due : Env → Vrrp → Bool
is_due e v = not (v.sands.tv_sec ==ℤ timer_disabled) && not (timer_lt e.time_now v.sands)

unfoldable pub timeout_state : Env → Vrrp → Vrrp
timeout_state e v =
    if is_back v.state
    then vrrp_goto_master e v
    else if is_mast v.state
    then vrrp_state_master_tx e v
    else v

unfoldable pub vrrp_dispatcher_read_timeout : Env → Vrrp → Vrrp
vrrp_dispatcher_read_timeout e v =
    if is_due e v then vrrp_init_instance_sands e (timeout_state e v) else v
