-- ===== src/Bfd/Handle/Fsm.antt =====
-- The state machine of the packet handler against the table of RFC 5880 section 6.8.6, and what
-- each change of state does to the timers, the diagnostic and the events.
use keepalived.Common.{
  ℕ, ◌≤◌, ◌≡◌, refl, inl, inr, Bool, true, false, not, ◌&&◌, ◌||◌, some, arith, is_some, Succeeds,
  ◌++◌, if◌then◌else◌, Option-cases,
}
use keepalived.Bfd.Diag
use keepalived.Bfd.Session.{Ctx, State, is_up, is_down, is_init, is_admin_down}
use keepalived.Bfd.Machine.{
  bfd_state_init, bfd_state_down, bfd_state_up, bfd_state_fall, bfd_state_rise, bfd_event_send,
  events_of, renew_discr,
}
use keepalived.Bfd.Machine.Invariant.{IsRunning, IsLucky, Renewed, renew_discr-Renewed}
use keepalived.Bfd.Timers.{bfd_sender_schedule}
use keepalived.Bfd.Handle.{run_machine}

-- The RFC's rules, for a session that is not administratively down: `local` and the received state.
abbrev pub rfc5880 : State → State → State
rfc5880 local State.admin_down = State.down
rfc5880 State.down State.down = State.init
rfc5880 State.down State.init = State.up
rfc5880 State.down State.up = State.down
rfc5880 State.init State.down = State.init
rfc5880 State.init State.init = State.up
rfc5880 State.init State.up = State.up
rfc5880 State.up State.down = State.down
rfc5880 State.up State.init = State.up
rfc5880 State.up State.up = State.up
rfc5880 State.admin_down remote = State.admin_down

-- The other processes hear of a session that comes up, and of one that was up and falls, unless
-- the neighbour was taken down on purpose.
abbrev pub is_told : State → State → Bool
is_told local remote =
    (is_up (rfc5880 local remote) && not (is_up local)) || (is_up local && is_down remote)

abbrev pub new_diag : State → State → ℕ → ℕ
new_diag local remote old =
    if is_down (rfc5880 local remote) && not (is_down local)
    then Diag.nbr_signalled_down
    else if (is_down local || is_init local)
        && not (is_down (rfc5880 local remote))
        && not (is_init local && is_down remote)
    then Diag.no_diag
    else old

-- What a packet in which the neighbour says `remote` makes of a session in `local`.
pub record Follows (local remote : State) (c d : Ctx) : Type 0 where
  pub state : d.s.local_state ≡ rfc5880 local remote
  pub diag : d.s.local_diag ≡ new_diag local remote c.s.local_diag
  pub events : d.events ≡ (if is_told local remote then c.events ++ events_of d else c.events)

record Fell (tell : Bool) (diag : ℕ) (c d : Ctx) : Type 0 where
  state : d.s.local_state ≡ State.down
  code : d.s.local_diag ≡ diag
  events : d.events ≡ (if tell then c.events ++ events_of d else c.events)

fall-Fell :
    (c d : Ctx) (diag : ℕ)
    → diag ≤ 8
    → Renewed c d
    → renew_discr c ≡ some d
    → is_some c.s.thread_rst ≡ false
    → Succeeds
        (bfd_state_down c diag)
        (Fell (is_up c.s.local_state && not (is_admin_down c.s.remote_state)) diag c)
unfolding bfd_state_down bfd_state_fall bfd_event_send
fall-Fell c d diag valid (k, r, renewed) e idle = rw (e, bfd_state_down) (rw renewed (ground arith))

bfd_state_down-Fell :
    (c : Ctx) (diag : ℕ)
    → IsLucky c
    → diag ≤ 8
    → is_some c.s.thread_rst ≡ false
    → Succeeds
        (bfd_state_down c diag)
        (Fell (is_up c.s.local_state && not (is_admin_down c.s.remote_state)) diag c)
bfd_state_down-Fell c diag lucky valid idle = elim (Option-cases (renew_discr c)) [
  | inl e ↦ absurd (rw e at (renew_discr-Renewed c lucky))
  | inr (d, e) ↦ fall-Fell c d diag valid (rw e at (renew_discr-Renewed c lucky)) e idle
]

record Rose (state : State) (tell : Bool) (c d : Ctx) : Type 0 where
  reached : d.s.local_state ≡ state
  code : d.s.local_diag ≡ 0
  events : d.events ≡ (if tell then c.events ++ events_of d else c.events)

bfd_state_up-Rose : (c : Ctx) → Succeeds (bfd_state_up c) (Rose State.up true c)
unfolding bfd_state_up bfd_state_rise bfd_event_send
bfd_state_up-Rose c = ground arith

bfd_state_init-Rose :
    (c : Ctx)
    → is_up c.s.local_state ≡ false
    → Succeeds (bfd_state_init c) (Rose State.init false c)
unfolding bfd_state_init bfd_state_rise bfd_sender_schedule
bfd_state_init-Rose c h = ground arith

module _ (c : Ctx) (lucky : IsLucky c) where
  follows :
      (local remote : State)
      → c.s.local_state ≡ local
      → c.s.remote_state ≡ remote
      → is_admin_down local ≡ false
      → (is_some c.s.thread_rst && not (is_down c.s.local_state)) ≡ false
      → Succeeds (run_machine c) (Follows local remote c)
  unfolding run_machine
  follows State.down State.down l r alive idle = ground (arith, bfd_state_init-Rose c)
  follows State.down State.init l r alive idle = ground (arith, bfd_state_up-Rose c)
  follows State.down _ l r alive idle = ground arith
  follows State.init State.down l r alive idle = ground arith
  follows State.init State.admin_down l r alive idle = ground (arith, bfd_state_down-Fell c 3 lucky)
  follows State.init _ l r alive idle = ground (arith, bfd_state_up-Rose c)
  follows State.up State.down l r alive idle = ground (arith, bfd_state_down-Fell c 3 lucky)
  follows State.up State.admin_down l r alive idle = ground (arith, bfd_state_down-Fell c 3 lucky)
  follows State.up _ l r alive idle = ground arith
  follows State.admin_down _ l r alive idle = cc

-- For a running session outside AdminDown, with a free discriminator among the numbers that the
-- search tries: the state after a packet is the one of the RFC's table, with its diagnostic, and the other
-- processes are told exactly when the session came up or fell without an administrator's doing.
pub run_machine-Follows :
    (c : Ctx)
    → IsRunning c.s
    → IsLucky c
    → is_admin_down c.s.local_state ≡ false
    → Succeeds (run_machine c) (Follows c.s.local_state c.s.remote_state c)
run_machine-Follows c v lucky alive =
    follows c lucky c.s.local_state c.s.remote_state refl refl alive v.rst
