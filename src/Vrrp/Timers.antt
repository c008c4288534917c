-- ===== src/Vrrp/Timers.antt =====
-- keepalived/include/vrrp.h and keepalived/vrrp/vrrp_scheduler.c: the down timer and the time at
-- which an instance is due.
pub mod Election
use keepalived.Common.{
  ℕ, ◌+◌, ◌-◌, ◌*◌, ◌/◌, ◌%◌, ◌^◌, Bool, true, false, not, ◌||◌, ◌==◌, if◌then◌else◌,
}
use keepalived.Common.Int.{ℤ, pos, ◌==ℤ◌}
use keepalived.Timer.{Timeval, timer_hz, timer_centi_hz, timer_disabled, timer_add_long}
use keepalived.Vrrp.Instance.{State, Vrrp, Env, prio_owner, is_mast, is_back}

abbrev pub u32 : ℕ → ℕ
u32 n = n % 2 ^ 32

-- VRRP_TIMER_SKEW_CALC
unfoldable pub timer_skew_calc : Vrrp → ℕ → ℕ
timer_skew_calc v pri_val =
    if v.version == 3
    then u32 (u32 (pri_val * (v.master_adver_int / timer_centi_hz)) * 625) / 16
    else u32 (pri_val * timer_hz) / 256

-- VRRP_TIMER_SKEW
unfoldable pub timer_skew : Vrrp → ℕ
unfolding timer_skew_calc
timer_skew v =
    timer_skew_calc v
      (256 - (if v.base_priority == prio_owner then prio_owner else v.effective_priority))

-- VRRP_MS_DOWN_TIMER
unfoldable pub ms_down_timer : Vrrp → ℕ
unfolding timer_skew
ms_down_timer v = u32 (u32 (v.down_timer_adverts * v.master_adver_int) + timer_skew v)

-- Whether the start of VRRP is still delayed.
abbrev pub is_delayed : Env → Bool
is_delayed e = not (e.delayed_start_time.tv_sec ==ℤ pos 0)

abbrev start_of : Env → Timeval
start_of e = if is_delayed e then e.delayed_start_time else e.sands_now

-- When the instance is due next.
unfoldable pub next_sands : Env → Vrrp → Timeval
next_sands e v =
    if is_mast v.state
    then (if v.reload_master then e.sands_now else timer_add_long (start_of e) v.adver_int)
    else if is_back v.state
    then timer_add_long (start_of e) v.ms_down_timer
    else record (v.sands) { tv_sec = timer_disabled }

unfoldable pub vrrp_init_instance_sands : Env → Vrrp → Vrrp
vrrp_init_instance_sands e v = record v { sands = next_sands e v }

-- The down timer started anew.
unfoldable pub set_down_timer : Vrrp → Vrrp
set_down_timer v = record v { ms_down_timer = ms_down_timer v }
