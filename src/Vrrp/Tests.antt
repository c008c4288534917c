-- ===== src/Vrrp/Tests.antt =====
-- The theorems on concrete instances.
mod Packets
mod Adverts
mod Scripts
use keepalived.Common.{
  ℕ, ◌+◌, ◌<◌, ◌≡◌, refl, inl, inr, ◌⊎◌, ◌||◌, ◌≤◌, arith, Bool, true, false, not, ◌==◌, none, List,
  [], ◌∷◌, All,
}
use keepalived.Common.Int.{pos, negsuc}
use keepalived.Timer.{Timeval, timer_zero, timer_lt}
use keepalived.Sockaddr.{Sockaddr, af_inet}
use keepalived.Timer.Laws.{IsNormal, After}
use keepalived.Vrrp.Instance.{
  State, Fault, Faults, Vrrp, Env, Advert, prio_owner, has_fault, is_mast, is_fault, is_init,
}
use keepalived.Vrrp.Timers.{is_delayed, ms_down_timer, timer_skew}
use keepalived.Vrrp.Timers.Election.{HasTimers, ms_down_timer-lt}
use keepalived.Vrrp.Transition.{
  vrrp_state_goto_master, vrrp_state_leave_master, vrrp_state_leave_fault,
}
use keepalived.Vrrp.Transition.Core.{core}
use keepalived.Vrrp.Transition.Steps.{goto, leave, leave_fault, transitions-core}
use keepalived.Vrrp.Dispatch.{vrrp_dispatcher_read, vrrp_dispatcher_read_timeout, is_due}
use keepalived.Vrrp.Dispatch.Election.{IsMaster, one-master}
use keepalived.Vrrp.Dispatch.Expiry.{ignored-vrrp_dispatcher_read}
use keepalived.Vrrp.Fault.Kept.{Sound}
use keepalived.Vrrp.Fault.{set_fault, down_instance, try_up_instance}
use keepalived.Vrrp.Instance.{write_bit}
use keepalived.Vrrp.Backup.{is_accepted, regain_priority}
use keepalived.Vrrp.Fault.{go_down}
use keepalived.Vrrp.Transition.{
  renew_timers, restart_timers, end_preempt_delay, enter_wantstate, abandon, send_instance_notifies,
}
use keepalived.Vrrp.Timers.{vrrp_init_instance_sands, set_down_timer}
use keepalived.Vrrp.System.{Step, Reach}
use keepalived.Vrrp.System.Invariant.{Reach-holder}
use keepalived.Vrrp.Priority.{clamp, TrackingObj, vrrp_set_effective_priority}
use keepalived.Vrrp.Priority.Bounds.{Shifted, vrrp_set_effective_priority-bounds}
use keepalived.Vrrp.Sync.{Group, all_want_mast, vrrp_sync_backup, vrrp_sync_fault, group_timeout}
use keepalived.Vrrp.Sync.Together.{group-rests}
use keepalived.Vrrp.Sync.Master.{Rules, group_timeout-together}
use keepalived.Vrrp.Script.{VrrpScript, script_runs}
use keepalived.Vrrp.Script.Hysteresis.{
  IsScript, is_ok, replicate, last, alternates, script_runs-replicate, script_runs-reports,
}

abbrev no_faults : Faults
no_faults = record {
  tracker = false;
  interface_down = false;
  base_interface_down = false;
  duplicate_vrid = false;
  no_source_ip = false;
  config_error = false;
}

abbrev at : ℕ → Timeval
at s = record { tv_sec = pos s; tv_usec = 0 }

abbrev address : ℕ → Sockaddr
address n = record { ss_family = af_inet; addr = n }

-- Priority, address and state; version 3 with adverts every second.
abbrev router : ℕ → ℕ → State → Vrrp
router prio n s = record {
  family = af_inet;
  version = 3;
  saddr = address n;
  ifp = none;
  pkt_saddr = address 0;
  fd_out = true;
  nopreempt = false;
  skip_check_adv_addr = false;
  auth_ah = false;
  unicast = false;
  lvs_syncd = false;
  base_priority = prio;
  effective_priority = prio;
  total_priority = pos prio;
  adver_int = 1000000;
  master_adver_int = 1000000;
  down_timer_adverts = 3;
  lower_prio_no_advert = false;
  higher_prio_send_advert = false;
  garp_delay = 0;
  garp_rep = 5;
  garp_lower_prio_delay = 0;
  garp_lower_prio_rep = 0;
  notify_priority_changes = true;
  preempt_delay = 0;
  preempt_time = timer_zero;
  master_saddr = address 0;
  master_priority = 0;
  state = s;
  wantstate = s;
  reload_master = false;
  vips = true;
  vroutes = false;
  vrules = false;
  vipset = is_mast s;
  flags_if_fault = no_faults;
  num_track_fault = 0;
  num_script_init = 0;
  notifies_sent = false;
  rogue_counter = 0;
  rogue_timer_thread = none;
  rogue_adver_int = 0;
  ipsecah_counter = record { cycle = false; seq_number = 0 };
  ms_down_timer = 3600000;
  sands = at 103;
  last_advert_sent = timer_zero;
  last_transition = timer_zero;
  out = [];
}

abbrev env : Env
env = record {
  time_now = at 100;
  sands_now = record { tv_sec = pos 100; tv_usec = 7 };
  delayed_start_time = timer_zero;
  log_detail = false;
  dont_release_vrrp = false;
  release_vips = false;
  sync_state = none;
  siblings = [];
}

abbrev advert_of : Vrrp → Advert
advert_of v = record { priority = v.effective_priority; adver_int = 100; ah_seq_number = 0 }

abbrev weak : Vrrp
weak = router 100 1 State.mast

abbrev strong : Vrrp
strong = router 150 2 State.mast

abbrev dropped : Vrrp
dropped = record (router 150 2 State.back) { total_priority = negsuc 49 }

abbrev waiting : Vrrp
waiting = router 150 2 State.back

HasTimers-weak : HasTimers weak
HasTimers-weak = record { interval = inr (refl, omega arith, omega arith); fits = omega arith }

ms_down_timer-lt_example :
    (ms_down_timer strong < ms_down_timer weak) × (ms_down_timer weak ≡ 3000000 + timer_skew weak)
ms_down_timer-lt_example =
    ms_down_timer-lt weak strong HasTimers-weak refl refl refl (λ h. omega arith) (λ h. omega arith)
      (omega arith) (omega arith)

transitions-core_example :
    (core (vrrp_state_goto_master true env waiting) ≡ goto true (is_delayed env) (core waiting))
    × (core (vrrp_state_leave_master false env waiting) ≡ leave (core waiting))
    × (core (vrrp_state_leave_fault true env waiting)
        ≡ leave_fault true (is_delayed env) (core waiting))
transitions-core_example = transitions-core true false env waiting

master : (p n : ℕ) → (p == 0) ≡ false → IsMaster (router p n State.mast)
master p n h = record { master = refl; sound = refl; calm = refl; address = inl refl; priority = h }

one-master_example :
    ((vrrp_dispatcher_read true env (address 2) (advert_of strong) weak).state ≡ State.back
      × (vrrp_dispatcher_read true env (address 2) (advert_of strong) weak).vipset ≡ false)
    × ((vrrp_dispatcher_read true env (address 1) (advert_of weak) strong).state ≡ State.mast
        × (vrrp_dispatcher_read true env (address 1) (advert_of weak) strong).vipset ≡ true)
one-master_example =
    one-master env env (advert_of strong) (advert_of weak) weak strong refl refl (master 100 1 refl)
      (master 150 2 refl) refl (λ h. omega arith) refl refl

ignored-vrrp_dispatcher_read_example :
    IsNormal (vrrp_dispatcher_read true env (address 1) (advert_of weak) waiting).sands
    × After
        (vrrp_dispatcher_read true env (address 1) (advert_of weak) waiting).sands
        3000000
        env.sands_now
    × ((vrrp_dispatcher_read true env (address 1) (advert_of weak) waiting).state ≡ State.back)
unfolding is_accepted regain_priority
ignored-vrrp_dispatcher_read_example =
    ignored-vrrp_dispatcher_read true env (address 1) (advert_of weak) waiting 3000000 refl refl
      (omega arith) (omega arith) (omega arith) refl (omega arith) (inr (refl, refl))

abbrev weak_backup : Vrrp
weak_backup = router 100 1 State.back

master_Sound : Sound weak
unfolding core has_fault
master_Sound = record {
  holder = inr refl;
  faulty = inl refl;
  tracked = refl;
  counted = omega arith;
}

backup_Sound : Sound weak_backup
unfolding core has_fault
backup_Sound = record {
  holder = inl refl;
  faulty = inl refl;
  tracked = refl;
  counted = omega arith;
}

abbrev fresh : Vrrp
fresh = record (router 150 2 State.init) { wantstate = State.back }

-- A tracked object is at fault, it recovers, and the instance becomes master by its timeout.
abbrev downed : Vrrp
downed = down_instance env Fault.tracker fresh

abbrev restored : Vrrp
restored = try_up_instance env false Fault.tracker downed

abbrev elected : Vrrp
elected = vrrp_dispatcher_read_timeout env (record restored { sands = at 99 })

recovers : Reach fresh restored
unfolding down_instance go_down set_fault write_bit has_fault vrrp_state_leave_fault renew_timers
    restart_timers vrrp_init_instance_sands set_down_timer end_preempt_delay enter_wantstate abandon
    send_instance_notifies
recovers =
    Reach.step downed restored
      (Reach.step fresh downed Reach.here (Step.down env Fault.tracker fresh (omega arith)))
      (Step.up env Fault.tracker downed refl)

Reach-holder_example :
    ((restored.vipset ≡ false) ⊎ (restored.state ≡ State.mast))
    × ((has_fault restored.flags_if_fault ≡ false)
        ⊎ (((is_fault restored.state || is_init restored.state) ≡ true)
            × (restored.vipset ≡ false)))
    × (restored.flags_if_fault.tracker ≡ not (restored.num_track_fault == 0))
unfolding has_fault
Reach-holder_example =
    Reach-holder fresh restored
      (record { new = refl; free = refl; well = refl; none_tracked = refl }) recovers

vrrp_set_effective_priority-bounds_example :
    ((vrrp_set_effective_priority dropped).effective_priority ≡ 1)
    × (1 ≤ (vrrp_set_effective_priority dropped).effective_priority)
    × ((vrrp_set_effective_priority dropped).effective_priority < prio_owner)
    × Shifted dropped (vrrp_set_effective_priority dropped)
unfolding clamp
vrrp_set_effective_priority-bounds_example =
    vrrp_set_effective_priority-bounds dropped refl (omega arith) refl

abbrev reversed : TrackingObj
reversed = record { weight = pos 20; weight_multiplier = negsuc 0 }

abbrev pair : State → Group
pair s = record { state = s; self = waiting; others = router 100 1 s ∷ []; out = [] }

group-rests_example :
    (All
        (λ v. (v.state ≡ State.back) × (v.vipset ≡ false))
        (vrrp_sync_backup env (pair State.mast)).others
      × ((vrrp_sync_backup env (pair State.mast)).state ≡ State.back)
      × ((vrrp_sync_backup env (pair State.mast)).self ≡ waiting))
    × (All
          (λ v. (v.state ≡ State.fault) × (v.vipset ≡ false))
          (vrrp_sync_fault env (pair State.back)).others
        × ((vrrp_sync_fault env (pair State.back)).state ≡ State.fault)
        × ((vrrp_sync_fault env (pair State.back)).self ≡ waiting))
group-rests_example =
    group-rests env (pair State.mast) (pair State.back) (master_Sound, tt) (backup_Sound, tt) refl
      refl

-- Both members wait to be master.
abbrev agreed : Group
agreed = record (pair State.back) {
  self = record waiting { sands = at 99 };
  others = record weak_backup { wantstate = State.mast } ∷ [];
}

group_timeout-together_example :
    ((all_want_mast agreed.others ≡ true)
      × All Rules ((group_timeout env agreed).self ∷ (group_timeout env agreed).others)
      × ((group_timeout env agreed).state ≡ State.mast))
    ⊎ ((all_want_mast agreed.others ≡ false)
        × ((group_timeout env agreed).others ≡ agreed.others)
        × ((group_timeout env agreed).state ≡ agreed.state)
        × ((group_timeout env agreed).self.state ≡ State.back)
        × ((group_timeout env agreed).self.wantstate ≡ State.mast))
unfolding is_due timer_lt
group_timeout-together_example = group_timeout-together env agreed refl refl refl refl (refl, tt)
