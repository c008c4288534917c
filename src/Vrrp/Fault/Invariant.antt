-- ===== src/Vrrp/Fault/Invariant.antt =====
-- What every change of an instance keeps.
use keepalived.Common.{
  ◌+◌, ◌-◌, ◌<◌, ◌^◌, ◌≡◌, ◌⊎◌, Bool, true, false, not, ◌==◌, ◌||◌, if◌then◌else◌, arith,
}
use keepalived.Vrrp.Instance.{
  State, Fault, Faults, is_mast, is_fault, is_init, has_fault, write_bit,
}
use keepalived.Vrrp.Transition.Core.{Core}
use keepalived.Vrrp.Transition.Steps.{goto, leave, leave_fault}
use keepalived.Vrrp.Timers.{u32}
use keepalived.Vrrp.Fault.{is_tracker}
use keepalived.Vrrp.Fault.Core.{down, up, want}

pub record IsSound (c : Core) : Type 0 where
  -- Only a master holds the addresses.
  pub holder : (c.vipset ≡ false) ⊎ (c.state ≡ State.mast)
  -- An instance with a fault is neither master nor backup.
  pub faulty : (has_fault c.flags_if_fault ≡ false) ⊎ ((is_fault c.state || is_init c.state) ≡ true)
  -- The tracker's bit says whether a tracked object is at fault.
  pub tracked : c.flags_if_fault.tracker ≡ not (c.num_track_fault == 0)
  pub counted : c.num_track_fault < 2 ^ 32

abbrev pub has_bit : Fault → Faults → Bool
has_bit Fault.tracker f = f.tracker
has_bit Fault.interface_down f = f.interface_down
has_bit Fault.base_interface_down f = f.base_interface_down
has_bit Fault.duplicate_vrid f = f.duplicate_vrid
has_bit Fault.no_source_ip f = f.no_source_ip
has_bit Fault.config_error f = f.config_error

down-IsSound : (c : Core) → IsSound c → IsSound (down c)
unfolding down
down-IsSound c s = ground arith

pub leave-IsSound :
    (c : Core)
    → IsSound c
    → (has_fault c.flags_if_fault ≡ false) ⊎ (c.wantstate ≡ State.fault)
    → is_init c.wantstate ≡ false
    → IsSound (leave c)
unfolding leave
leave-IsSound c s h k = ground arith

pub goto-IsSound :
    (can d : Bool) (c : Core)
    → IsSound c
    → has_fault c.flags_if_fault ≡ false
    → IsSound (goto can d c)
unfolding goto
goto-IsSound can d c s h = ground arith

pub up-IsSound :
    (d : Bool) (c : Core)
    → IsSound c
    → has_fault c.flags_if_fault ≡ false
    → is_mast c.state ≡ false
    → IsSound (up d c)
unfolding up want leave_fault goto
up-IsSound d c s h k = ground arith

-- One more fault, and one fewer.
abbrev pub with_fault : Fault → Core → Core
with_fault flag c = record c {
  flags_if_fault = write_bit flag true c.flags_if_fault;
  num_track_fault = if is_tracker flag then u32 (c.num_track_fault + 1) else c.num_track_fault;
}

pub with_fault-down :
    (flag : Fault) (c : Core)
    → IsSound c
    → c.num_track_fault + 1 < 2 ^ 32
    → IsSound (down (with_fault flag c))
unfolding down write_bit
with_fault-down flag c s few = ground arith

pub with_fault-IsSound :
    (flag : Fault) (c : Core)
    → IsSound c
    → c.num_track_fault + 1 < 2 ^ 32
    → (is_fault c.state || is_init c.state) ≡ true
    → IsSound (with_fault flag c)
unfolding write_bit
with_fault-IsSound flag c s few h = ground arith

-- One fault fewer.
abbrev pub without_fault : Fault → Core → Core
without_fault flag c =
    if is_tracker flag
    then (let left = u32 (c.num_track_fault + 2 ^ 32 - 1) in
        record c {
          num_track_fault = left;
          flags_if_fault =
              if left == 0 then write_bit flag false c.flags_if_fault else c.flags_if_fault;
        })
    else record c { flags_if_fault = write_bit flag false c.flags_if_fault }

pub without_fault-IsSound :
    (flag : Fault) (c : Core)
    → IsSound c
    → has_bit flag c.flags_if_fault ≡ true
    → IsSound (without_fault flag c) × (is_mast (without_fault flag c).state ≡ false)
unfolding write_bit has_fault
without_fault-IsSound flag c s h = ground arith

pub start_fault-IsSound :
    (c : Core)
    → IsSound c
    → c.num_track_fault + 1 < 2 ^ 32
    → c.vipset ≡ false
    → IsSound (record (with_fault Fault.tracker c) { state = State.fault })
unfolding write_bit
start_fault-IsSound c s few free = ground arith
