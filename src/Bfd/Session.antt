-- ===== src/Bfd/Session.antt =====
-- keepalived/include/bfd.h: the session, the control packet, and what a handler of the session
-- reads and changes beside it.
use Prim.Native.String.{String}
use keepalived.Common.{ℕ, Bool, true, false, Option, List}
use keepalived.Timer.{Timeval}
pub use keepalived.Sockaddr.{Sockaddr}

-- BFD_STATE_ADMINDOWN, BFD_STATE_DOWN, BFD_STATE_INIT, BFD_STATE_UP: the two bits of the field.
pub data State : Type 0 where
  admin_down down init up : State

abbrev pub is_admin_down : State → Bool
is_admin_down State.admin_down = true
is_admin_down _ = false

abbrev pub is_down : State → Bool
is_down State.down = true
is_down _ = false

abbrev pub is_init : State → Bool
is_init State.init = true
is_init _ = false

abbrev pub is_up : State → Bool
is_up State.up = true
is_up _ = false

-- A timer of lib/scheduler.c: when it is due, and whether it has been moved to the ready list.
pub record Thread : Type 0 where
  pub sands : Timeval
  pub ready : Bool

-- bfd_t, less the list links. `none` stands for a NULL thread and for the descriptor -1.
pub record Bfd : Type 0 where
  pub iname : String
  pub nbr_addr : Sockaddr
  pub src_addr : Sockaddr
  pub local_min_rx_intv : ℕ
  pub local_min_tx_intv : ℕ
  pub local_idle_tx_intv : ℕ
  pub local_detect_mult : ℕ
  pub ttl : ℕ
  pub max_hops : ℕ
  pub passive : Bool
  pub multihop : Bool
  pub vrrp : Bool
  pub checker : Bool
  pub fd_out : Option ℕ
  pub thread_open_fd_out : Option Thread
  pub thread_out : Option Thread
  pub sands_out : ℕ
  pub thread_exp : Option Thread
  pub sands_exp : ℕ
  pub thread_rst : Option Thread
  pub sands_rst : ℕ
  pub send_error : Bool
  pub local_state : State
  pub remote_state : State
  pub local_discr : ℕ
  pub remote_discr : ℕ
  pub local_diag : ℕ
  pub remote_diag : ℕ
  pub remote_min_tx_intv : ℕ
  pub remote_min_rx_intv : ℕ
  pub local_demand : Bool
  pub remote_demand : Bool
  pub remote_detect_mult : ℕ
  pub poll : Bool
  pub final : Bool
  pub local_tx_intv : ℕ
  pub remote_tx_intv : ℕ
  pub local_detect_time : ℕ
  pub remote_detect_time : ℕ
  pub last_seen : Timeval

-- bfdhdr_t as it lies in the packet: a bit field is a field of its own, and a uint32_t is the number that
-- a load gives, before ntohl.
pub record Header : Type 0 where
  pub diag : ℕ
  pub version : ℕ
  pub multipoint : Bool
  pub demand : Bool
  pub auth : Bool
  pub cplane : Bool
  pub final : Bool
  pub poll : Bool
  pub state : State
  pub detect_mult : ℕ
  pub len : ℕ
  pub local_discr : ℕ
  pub remote_discr : ℕ
  pub min_tx_intv : ℕ
  pub min_rx_intv : ℕ
  pub min_echo_rx_intv : ℕ

-- bfdpkt_t; `len` is the size of the datagram.
pub record Packet : Type 0 where
  pub hdr : Header
  pub src_addr : Sockaddr
  pub dst_addr : Sockaddr
  pub ttl : ℕ
  pub len : ℕ

-- bfd_event_t, with the pipe that it is written to.
pub data Pipe : Type 0 where
  vrrp_pipe checker_pipe : Pipe

pub record Event : Type 0 where
  pub pipe : Pipe
  pub iname : String
  pub state : State
  pub sent_time : Timeval

-- How `bind` answers for a port.
pub data Bind : Type 0 where
  bound in_use failed : Bind

-- What the system calls answer during one handler.
pub record Net : Type 0 where
  pub socket : Option ℕ
  pub local_port_range : Option (ℕ × ℕ)
  pub bind : ℕ → Bind
  pub setsockopt : Bool
  pub sendto : Bool

-- A session with its surroundings: the local discriminators of the other sessions, the clock, the
-- numbers that random() will give, the answers of the system, which processes run; and what the
-- handlers put out: packets, events to the other processes, and calls of the sender thread that
-- wait on the event list.
pub record Ctx : Type 0 where
  pub s : Bfd
  pub discrs : List ℕ
  pub now : Timeval
  pub random : ℕ → ℕ
  pub net : Net
  pub vrrp_running : Bool
  pub checker_running : Bool
  pub reload : Bool
  pub wire : List Packet
  pub events : List Event
  pub queued : ℕ

abbrev pub with_session : Ctx → Bfd → Ctx
with_session c b = record c { s = b }
