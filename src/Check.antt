-- ===== src/Check.antt =====
-- keepalived/include/check_data.h and keepalived/check/ipvswrapper.c: a virtual server with its real
-- servers, and the commands to the kernel. The virtual server is not part of a group.
pub mod Quorum
pub mod Server
mod Tests
use keepalived.Common.{
  ℕ, ◌-◌, ◌^◌, Bool, true, false, not, ◌&&◌, ltb, ◌==◌, if◌then◌else◌, Option, List, [], ◌∷◌, ◌++◌,
}
use keepalived.Common.Int.{ℤ, pos, negsuc}

-- IPVS_WEIGHT_LIMIT
abbrev pub weight_limit : ℕ
weight_limit = 2 ^ 31 - 1

-- int64_t to int, in the range of the kernel's weights.
unfoldable pub real_weight : ℤ → ℕ
real_weight (negsuc n) = 0
real_weight (pos n) = if ltb weight_limit n then weight_limit else n

-- real_server_t, as far as the pool of the virtual server depends on it; `addr` names it.
pub record RealServer : Type 0 where
  pub addr : ℕ
  pub effective_weight : ℤ
  pub inhibit : Bool
  pub alive : Bool
  pub num_failed_checkers : ℕ
  pub set : Bool

-- virtual_server_t; `s_svr` is the sorry server.
pub record VirtualServer : Type 0 where
  pub rs : List RealServer
  pub s_svr : Option RealServer
  pub quorum : ℕ
  pub hysteresis : ℕ
  pub quorum_state_up : Bool

-- LVS_CMD_ADD_DEST, LVS_CMD_DEL_DEST, LVS_CMD_EDIT_DEST
pub data Cmd : Type 0 where
  add_dest del_dest edit_dest : Cmd

-- What the kernel is asked.
pub record Sent : Type 0 where
  pub cmd : Cmd
  pub addr : ℕ
  pub weight : ℕ

-- do_vs_notifies and do_rs_notifies: who is told, and what.
pub data Notice : Type 0 where
  vs_notice : Bool → Notice
  rs_notice : ℕ → Bool → Notice

-- The virtual server, what was sent and told, and how the kernel answers: `talk_fails` of what was
-- sent before is `true` where the next command is refused.
pub record Pool : Type 0 where
  pub vs : VirtualServer
  pub sent : List Sent
  pub notices : List Notice
  pub talk_fails : List Sent → Bool

abbrev is_add : Cmd → Bool
is_add Cmd.add_dest = true
is_add _ = false

abbrev is_del : Cmd → Bool
is_del Cmd.del_dest = true
is_del _ = false

-- The command and the weight that are sent for a real server, and the server after it.
unfoldable pub dest_rule : Cmd → RealServer → Cmd × ℕ × RealServer
unfolding real_weight
dest_rule cmd rs =
    let weight = real_weight rs.effective_weight in
    if is_del cmd && rs.inhibit
    then (Cmd.edit_dest, 0, rs)
    else if is_add cmd && rs.inhibit && rs.set
    then (Cmd.edit_dest, weight, rs)
    else if is_add cmd && not rs.set
    then (
      cmd,
      (if rs.inhibit && not (rs.num_failed_checkers == 0) then 0 else weight),
      record rs { set = true },
    )
    else if is_del cmd && rs.set
    then (cmd, weight, record rs { set = false })
    else (cmd, weight, rs)

-- `true` where the kernel refuses.
unfoldable pub ipvs_cmd : Cmd → RealServer → Pool → Bool × RealServer × Pool
ipvs_cmd cmd rs p =
    let (cmd', weight, rs') = dest_rule cmd rs in
    (
      p.talk_fails p.sent,
      rs',
      record p { sent = p.sent ++ record { cmd = cmd'; addr = rs.addr; weight = weight } ∷ [] },
    )
