-- ===== src/Vrrp/Sync.antt =====
-- keepalived/vrrp/vrrp_sync.c: a sync group, and the events of one of its members. `self` is the member
-- that the event is for, and `others` are the rest in their order; notify scripts of the group are a
-- list of states.
pub mod Master
pub mod Together
use keepalived.Common.{
  ℕ, Bool, true, false, not, ◌&&◌, ◌||◌, if◌then◌else◌, Option, some, List, [], ◌∷◌, ◌++◌, map,
}
use keepalived.Sockaddr.{Sockaddr}
use keepalived.Vrrp.Instance.{State, Vrrp, Env, Advert, is_init, is_back, is_mast, is_fault}
use keepalived.Vrrp.Timers.{is_delayed, vrrp_init_instance_sands, set_down_timer}
use keepalived.Vrrp.Transition.{
  vrrp_state_goto_master, vrrp_state_leave_master, vrrp_state_leave_fault, vrrp_state_master_tx,
}
use keepalived.Vrrp.Dispatch.{is_due, read_state, renew_sands}

-- vrrp_sgroup_t
pub record Group : Type 0 where
  pub state : State
  pub self : Vrrp
  pub others : List Vrrp
  pub out : List State

-- The members see the state of the group.
abbrev pub within : Group → Env → Env
within g e = record e { sync_state = some g.state }

unfoldable pub all_want_mast : List Vrrp → Bool
all_want_mast [] = true
all_want_mast (v ∷ r) = is_mast v.wantstate && all_want_mast r

-- What vrrp_sync_can_goto_master answers for a member; the timer that it restarts where it refuses is
-- in its callers.
unfoldable pub vrrp_sync_can_goto_master : State → List Vrrp → Bool
vrrp_sync_can_goto_master group others = is_mast group || all_want_mast others

abbrev pub enter_group : State → Group → Group
enter_group s g = record g { state = s; out = g.out ++ s ∷ [] }

unfoldable pub back_member : Env → Vrrp → Vrrp
back_member e v =
    let w = record v { wantstate = State.back } in
    if is_back v.state
    then v
    else if is_fault w.state || is_init w.state
    then vrrp_state_leave_fault true e w
    else vrrp_state_leave_master false e w

unfoldable pub vrrp_sync_backup : Env → Group → Group
vrrp_sync_backup e g =
    if is_back g.state
    then g
    else enter_group State.back (record g { others = map (back_member (within g e)) g.others })

-- A member with the other members of its group.
unfoldable pub master_member : Env → State → List Vrrp → Vrrp → Vrrp
master_member e group others v =
    if is_mast v.state
    then v
    else vrrp_state_goto_master (vrrp_sync_can_goto_master group others) e
        (record v { wantstate = State.mast })

-- The members in turn, each seeing what the ones before it have become.
unfoldable pub master_members : Env → Group → List Vrrp → List Vrrp → List Vrrp
master_members e g before [] = before
master_members e g before (v ∷ r) =
    master_members e g (before ++ master_member (within g e) g.state (g.self ∷ before ++ r) v ∷ [])
      r

unfoldable pub vrrp_sync_master : Env → Group → Group
vrrp_sync_master e g =
    if is_mast g.state
    then g
    else if not (vrrp_sync_can_goto_master g.state g.others)
    then record g { self = vrrp_init_instance_sands e (set_down_timer g.self) }
    else enter_group State.mast (record g { others = master_members e g [] g.others })

unfoldable pub fault_member : Env → Vrrp → Vrrp
fault_member e v =
    let w = record v { wantstate = State.fault } in
    if is_fault v.state
    then v
    else if is_mast w.state
    then vrrp_state_leave_master false e w
    else vrrp_state_leave_fault true e (record w { state = State.fault })

unfoldable pub vrrp_sync_fault : Env → Group → Group
vrrp_sync_fault e g =
    if is_fault g.state
    then g
    else enter_group State.fault (record g { others = map (fault_member (within g e)) g.others })

-- VRRP_TSM_HANDLE: from the member's state before the event.
unfoldable pub tsm_handle : Env → State → Group → Group
tsm_handle e prev g =
    if not (is_init prev) && is_mast g.self.state
    then vrrp_sync_master e g
    else if is_mast prev && is_back g.self.state
    then vrrp_sync_backup e g
    else g

unfoldable pub timeout_member : Env → Group → Vrrp → Vrrp
timeout_member e g v =
    if is_back v.state
    then vrrp_state_goto_master (vrrp_sync_can_goto_master g.state g.others) e
        (record v { wantstate = State.mast })
    else if is_mast v.state
    then vrrp_state_master_tx e v
    else v

abbrev pub after_self : (Vrrp → Vrrp) → Group → Group
after_self f g = record g { self = f g.self }

-- vrrp_dispatcher_read_timeout for a member of the group.
unfoldable pub group_timeout : Env → Group → Group
group_timeout e g =
    if is_due e g.self
    then after_self (vrrp_init_instance_sands e)
        (tsm_handle e g.self.state (record g { self = timeout_member (within g e) g g.self }))
    else g

-- vrrp_dispatcher_read with the advert of a member of the group.
unfoldable pub group_read : Bool → Env → Sockaddr → Advert → Group → Group
group_read ok e src hd g =
    if is_delayed e
    then g
    else if is_back g.self.state || is_mast g.self.state
    then after_self (renew_sands e) (
        tsm_handle e g.self.state
          (record g { self = read_state ok (within g e) hd (record (g.self) { pkt_saddr = src }) }))
    else g
