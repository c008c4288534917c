-- ===== src/Vrrp/Backup.antt =====
-- keepalived/vrrp/vrrp.c: what a backup does with an advert. `ok` says whether vrrp_check_packet
-- accepts it, and the instance is the one that vrrp_check_packet leaves. The debounce timers of the
-- interfaces are left out; `time_now` is what vrrp_state_backup reads, and `sands_now` what
-- vrrp_init_instance_sands reads after it.
pub mod Expiry
use keepalived.Common.{◌+◌, ◌-◌, ◌*◌, Bool, not, ◌&&◌, ◌||◌, leb, ◌==◌, if◌then◌else◌}
use keepalived.Common.Int.{pos, ltb_ℤ, ◌==ℤ◌, pos_part}
use keepalived.Timer.{timer_hz, timer_centi_hz, timer_add_long, timersub, timer_lt}
use keepalived.Sockaddr.{af_inet, af_inet6}
use keepalived.Vrrp.Instance.{State, Vrrp, Env, Advert, prio_owner}
use keepalived.Vrrp.Timers.{u32, timer_skew, set_down_timer}
use keepalived.Vrrp.Transition.{reset_preempt_time}

unfoldable pub is_master_change : Vrrp → Bool
is_master_change v =
    not (v.master_saddr.ss_family == v.pkt_saddr.ss_family)
    || v.pkt_saddr.ss_family == af_inet && not (v.pkt_saddr.addr == v.master_saddr.addr)
    || v.pkt_saddr.ss_family == af_inet6 && not (v.pkt_saddr.addr == v.master_saddr.addr)

-- An address owner that had lowered its priority takes it back.
unfoldable pub regain_priority : Advert → Vrrp → Vrrp
regain_priority hd v =
    if v.base_priority == prio_owner
      && v.effective_priority == prio_owner - 1
      && (is_master_change v || not (hd.priority == prio_owner))
    then record v { effective_priority = prio_owner; total_priority = pos prio_owner }
    else v

-- Whether an advert with a priority other than 0 keeps the instance in backup.
unfoldable pub is_accepted : Env → Advert → Vrrp → Bool
is_accepted e hd v =
    v.nopreempt
    || leb v.effective_priority hd.priority
    || not (v.preempt_delay == 0)
      && (v.preempt_time.tv_sec ==ℤ pos 0 || timer_lt e.time_now v.preempt_time)

-- Version 3: the interval of the master is that of its advert.
unfoldable pub learn_interval : Advert → Vrrp → Vrrp
learn_interval hd v =
    if v.version == 3 then record v { master_adver_int = hd.adver_int * timer_centi_hz } else v

unfoldable pub follow_master : Advert → Vrrp → Vrrp
follow_master hd v = record (set_down_timer (learn_interval hd v)) {
  master_saddr = v.pkt_saddr;
  master_priority = hd.priority;
}

unfoldable pub run_preempt_delay : Env → Advert → Vrrp → Vrrp
run_preempt_delay e hd v =
    if v.preempt_delay == 0
    then v
    else if leb v.effective_priority hd.priority
    then reset_preempt_time v
    else if v.preempt_time.tv_sec ==ℤ pos 0
    then record v { preempt_time = timer_add_long e.time_now v.preempt_delay }
    else v

unfoldable pub accept_advert : Env → Advert → Vrrp → Vrrp
accept_advert e hd v = record (run_preempt_delay e hd (follow_master hd v)) {
  wantstate = State.back;
}

-- What is left of the down timer, for an advert that is ignored.
unfoldable pub reduce_down_timer : Env → Vrrp → Vrrp
reduce_down_timer e v =
    let left = timersub v.sands e.time_now in
    record v {
      ms_down_timer =
          if ltb_ℤ left.tv_sec (pos 0)
          then 0
          else u32 (pos_part left.tv_sec * timer_hz + left.tv_usec);
    }

unfoldable pub process_backup : Env → Advert → Vrrp → Vrrp
process_backup e hd v =
    if hd.priority == 0
    then record v { ms_down_timer = timer_skew v }
    else if is_accepted e hd v
    then accept_advert e hd v
    else reduce_down_timer e (record v { master_saddr = v.pkt_saddr })

unfoldable pub vrrp_state_backup : Bool → Env → Advert → Vrrp → Vrrp
vrrp_state_backup ok e hd v =
    if ok then process_backup e hd (regain_priority hd v) else reduce_down_timer e v
