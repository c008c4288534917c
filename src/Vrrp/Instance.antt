-- ===== src/Vrrp/Instance.antt =====
-- keepalived/include/vrrp.h: a VRRP instance, an advert, and what the handlers read beside them.
use keepalived.Common.{ℕ, Bool, true, false, ◌||◌, Option, List, ◌++◌}
use keepalived.Common.Int.{ℤ}
use keepalived.Timer.{Timeval}
use keepalived.Sockaddr.{Sockaddr}

-- VRRP_STATE_INIT, VRRP_STATE_BACK, VRRP_STATE_MAST, VRRP_STATE_FAULT
pub data State : Type 0 where
  init back mast fault : State

abbrev pub is_init : State → Bool
is_init State.init = true
is_init _ = false

abbrev pub is_back : State → Bool
is_back State.back = true
is_back _ = false

abbrev pub is_mast : State → Bool
is_mast State.mast = true
is_mast _ = false

abbrev pub is_fault : State → Bool
is_fault State.fault = true
is_fault _ = false

-- vrrp_fault_fl_t
pub data Fault : Type 0 where
  tracker interface_down base_interface_down duplicate_vrid no_source_ip config_error : Fault

-- flags_if_fault, a bit for each fault
pub record Faults : Type 0 where
  pub tracker : Bool
  pub interface_down : Bool
  pub base_interface_down : Bool
  pub duplicate_vrid : Bool
  pub no_source_ip : Bool
  pub config_error : Bool

unfoldable pub write_bit : Fault → Bool → Faults → Faults
write_bit Fault.tracker b f = record f { tracker = b }
write_bit Fault.interface_down b f = record f { interface_down = b }
write_bit Fault.base_interface_down b f = record f { base_interface_down = b }
write_bit Fault.duplicate_vrid b f = record f { duplicate_vrid = b }
write_bit Fault.no_source_ip b f = record f { no_source_ip = b }
write_bit Fault.config_error b f = record f { config_error = b }

-- flags_if_fault, read as a truth value
unfoldable pub has_fault : Faults → Bool
has_fault f =
    f.tracker || f.interface_down || f.base_interface_down || f.duplicate_vrid || f.no_source_ip
    || f.config_error

abbrev pub prio_owner : ℕ
prio_owner = 255

abbrev pub prio_stop : ℕ
prio_stop = 0

-- What an instance puts out, in order: adverts with their priority, changes of the addresses, the
-- routes and the rules, gratuitous ARP (at once, or after a delay), notifications, calls of the LVS
-- sync daemon, and the unsolicited ARP reply or neighbour advertisement for the own address. A sibling is another member of the sync group.
pub data Out : Type 0 where
  advert : ℕ → Out
  add_addresses del_addresses add_routes del_routes add_rules del_rules : Out
  link_update sibling_update : ℕ → Out
  delayed_update delayed_sibling_update : ℕ → ℕ → Out
  notify : State → Out
  priority_notify : ℕ → Out
  rx_lower_pri : Out
  syncd_master syncd_backup unsolicited : Out

-- seq_counter_t
pub record SeqCounter : Type 0 where
  pub cycle : Bool
  pub seq_number : ℕ

-- The default addresses of an interface.
pub record Interface : Type 0 where
  pub sin_addr : ℕ
  pub sin6_addr : ℕ

-- vrrp_t, as far as the state machine depends on it: statistics, logging and the send buffer are
-- left out, an empty list of addresses, routes or rules is a Boolean, and `lvs_syncd` says whether
-- the LVS sync daemon follows this instance.
pub record Vrrp : Type 0 where
  pub family : ℕ
  pub version : ℕ
  pub saddr : Sockaddr
  pub ifp : Option Interface
  pub pkt_saddr : Sockaddr
  pub fd_out : Bool
  pub nopreempt : Bool
  pub skip_check_adv_addr : Bool
  pub auth_ah : Bool
  pub unicast : Bool
  pub lvs_syncd : Bool
  pub base_priority : ℕ
  pub effective_priority : ℕ
  pub total_priority : ℤ
  pub adver_int : ℕ
  pub master_adver_int : ℕ
  pub down_timer_adverts : ℕ
  pub lower_prio_no_advert : Bool
  pub higher_prio_send_advert : Bool
  pub garp_delay : ℕ
  pub garp_rep : ℕ
  pub garp_lower_prio_delay : ℕ
  pub garp_lower_prio_rep : ℕ
  pub notify_priority_changes : Bool
  pub preempt_delay : ℕ
  pub preempt_time : Timeval
  pub master_saddr : Sockaddr
  pub master_priority : ℕ
  pub state : State
  pub wantstate : State
  pub reload_master : Bool
  pub vips : Bool
  pub vroutes : Bool
  pub vrules : Bool
  pub vipset : Bool
  pub flags_if_fault : Faults
  pub num_track_fault : ℕ
  pub num_script_init : ℕ
  pub notifies_sent : Bool
  pub rogue_counter : ℕ
  pub rogue_timer_thread : Option Timeval
  pub rogue_adver_int : ℕ
  pub ipsecah_counter : SeqCounter
  pub ms_down_timer : ℕ
  pub sands : Timeval
  pub last_advert_sent : Timeval
  pub last_transition : Timeval
  pub out : List Out

-- What a handler reads beside the instance: the clock, the end of a delayed start (0 seconds where
-- there is none), the options of the process, the state of the sync group, if there is one, and
-- `garp_lower_prio_rep` and `garp_lower_prio_delay` of its other members.
pub record Env : Type 0 where
  -- as the handler reads it, and as vrrp_init_instance_sands reads it after the handler
  pub time_now : Timeval
  pub sands_now : Timeval
  pub delayed_start_time : Timeval
  pub log_detail : Bool
  pub dont_release_vrrp : Bool
  pub release_vips : Bool
  pub sync_state : Option State
  pub siblings : List (ℕ × ℕ)

-- vrrphdr_t in host order, as far as the state machine reads it; `adver_int` is in seconds for
-- version 2 and in hundredths of a second for version 3, and `ah_seq_number` is that of an IPsec AH
-- header before it.
pub record Advert : Type 0 where
  pub priority : ℕ
  pub adver_int : ℕ
  pub ah_seq_number : ℕ

abbrev pub emit : List Out → Vrrp → Vrrp
emit o v = record v { out = v.out ++ o }
