-- ===== src/Vrrp/System.antt =====
-- An instance through its life: the events that reach it in any order, outside a sync group.
pub mod Invariant
use keepalived.Common.{ℕ, ◌+◌, ◌<◌, ◌^◌, ◌≡◌, Bool, true, false, ◌||◌}
use keepalived.Common.Int.{ℤ}
use keepalived.Sockaddr.{Sockaddr}
use keepalived.Vrrp.Instance.{
  State, Fault, Faults, Vrrp, Env, Advert, is_mast, is_init, is_fault, has_fault,
}
use keepalived.Vrrp.Dispatch.{vrrp_dispatcher_read, vrrp_dispatcher_read_timeout}
use keepalived.Vrrp.Fault.{set_fault, down_instance, try_up_instance}
use keepalived.Vrrp.Fault.Invariant.{has_bit}
use keepalived.Vrrp.Priority.{vrrp_set_effective_priority}

-- An instance as it is configured: without a fault, and without the addresses.
pub record Started (v : Vrrp) : Type 0 where
  pub new : v.state ≡ State.init
  pub free : v.vipset ≡ false
  pub well : has_fault v.flags_if_fault ≡ false
  pub none_tracked : v.num_track_fault ≡ 0

-- A fault goes only where it is set, and its count does not reach 2 ^ 32.
pub data Step : Vrrp → Vrrp → Type 0 where
  -- An advert from any sender, whether vrrp_check_packet accepts it or not.
  advert :
      (ok : Bool) (e : Env) (src : Sockaddr) (hd : Advert) (v : Vrrp)
      → Step v (vrrp_dispatcher_read ok e src hd v)
  timeout : (e : Env) (v : Vrrp) → Step v (vrrp_dispatcher_read_timeout e v)
  down :
      (e : Env) (flag : Fault) (v : Vrrp)
      → v.num_track_fault + 1 < 2 ^ 32
      → Step v (down_instance e flag v)
  up :
      (e : Env) (flag : Fault) (v : Vrrp)
      → has_bit flag v.flags_if_fault ≡ true
      → Step v (try_up_instance e false flag v)
  -- The last of the scripts has had its first result.
  scripts_done :
      (e : Env) (flag : Fault) (v : Vrrp)
      → is_mast v.state ≡ false
      → Step v (try_up_instance e true flag (record v { num_script_init = 0 }))
  -- Before the start: an object that is tracked is at fault.
  tracked :
      (v : Vrrp)
      → v.num_track_fault + 1 < 2 ^ 32
      → v.vipset ≡ false
      → Step v (record (set_fault Fault.tracker v) { state = State.fault })
  -- A priority that the tracked objects have changed.
  priority :
      (total : ℤ) (v : Vrrp)
      → Step v (vrrp_set_effective_priority (record v { total_priority = total }))

pub data Reach (start : Vrrp) : Vrrp → Type 0 where
  here : Reach start start
  step : (v w : Vrrp) → Reach start v → Step v w → Reach start w
