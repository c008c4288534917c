-- ===== src/Vrrp/Fault/Core.antt =====
-- What going down and coming up do to the states.
use keepalived.Common.{
  ◌≡◌, refl, sym, ap, ◌∙◌, Bool, true, false, ◌==◌, ◌&&◌, if◌then◌else◌, Bool-cases, inl, inr,
}
use keepalived.Vrrp.Instance.{State, Vrrp, Env, is_mast, prio_owner}
use keepalived.Vrrp.Timers.{is_delayed}
use keepalived.Vrrp.Transition.Core.{
  Core, core, core-emit, core_then, core_else, core-vrrp_init_instance_sands,
}
use keepalived.Vrrp.Transition.Steps.{
  core-state, core-wantstate, leave, leave_fault, core-vrrp_state_leave_master,
  core-vrrp_state_leave_fault,
}
use keepalived.Vrrp.Fault.{go_down, prepare_up, come_up}

-- What down_instance does to a sound instance.
unfoldable pub down : Core → Core
down c = record c {
  state = State.fault;
  wantstate = State.fault;
  vipset = if is_mast c.state then false else c.vipset;
}

core_fault :
    (v : Vrrp)
    → core (record v { wantstate = State.fault }) ≡ record (core v) { wantstate = State.fault }
unfolding core
core_fault v = refl

down-leave :
    (c : Core) → is_mast c.state ≡ true → leave (record c { wantstate = State.fault }) ≡ down c
unfolding leave down
down-leave c h = rw (h) refl

down-leave_fault :
    (d : Bool) (c : Core)
    → is_mast c.state ≡ false
    → leave_fault true d (record c { wantstate = State.fault }) ≡ down c
unfolding leave_fault down
down-leave_fault d c h = rw (h) refl

pub core-go_down : (e : Env) (v : Vrrp) → core (go_down e v) ≡ down (core v)
unfolding go_down
core-go_down e v =
    let w = record v { wantstate = State.fault } in
    elim (Bool-cases (is_mast v.state)) [
      | inl m ↦ core_then _ _ _ _ m (
          core-vrrp_state_leave_master true e w
          ∙ ap leave (core_fault v)
          ∙ down-leave (core v) (ap is_mast (core-state v) ∙ m))
      | inr m ↦ core_else _ _ _ _ m (
          core-vrrp_state_leave_fault true e w
          ∙ ap (leave_fault true (is_delayed e)) (core_fault v)
          ∙ down-leave_fault (is_delayed e) (core v) (ap is_mast (core-state v) ∙ m))
    ]

-- What try_up_instance does to an instance that has no fault left: the address owner that wants to be
-- master becomes master, and any other goes to backup.
unfoldable pub want : Core → State
want c = if is_mast c.wantstate && c.base_priority == prio_owner then c.wantstate else State.back

unfoldable pub up : Bool → Core → Core
up delayed c = record (leave_fault true delayed (record c { wantstate = want c })) {
  wantstate = want c;
}

core-prepare_up : (v : Vrrp) → core (prepare_up v) ≡ record (core v) { wantstate = want (core v) }
unfolding core prepare_up want
core-prepare_up v = refl

pub core_wantstate :
    (s : State) (v : Vrrp) → core (record v { wantstate = s }) ≡ record (core v) { wantstate = s }
unfolding core
core_wantstate s v = refl

core-come_up :
    (e : Env) (v : Vrrp)
    → core (come_up e v)
      ≡ record (leave_fault true (is_delayed e) (core v)) { wantstate = (core v).wantstate }
unfolding come_up
core-come_up e v =
    core_wantstate v.wantstate _
    ∙ ap {A = Core} {B = Core} (λ c. record c { wantstate = v.wantstate })
        (core-vrrp_init_instance_sands e _ ∙ core-emit _ _ ∙ core-vrrp_state_leave_fault true e v)
    ∙ ap {A = State} {B = Core}
        (λ s. record (leave_fault true (is_delayed e) (core v)) { wantstate = s })
        (sym (core-wantstate v))

pub core-up : (e : Env) (v : Vrrp) → core (come_up e (prepare_up v)) ≡ up (is_delayed e) (core v)
unfolding up
core-up e v =
    core-come_up e (prepare_up v)
    ∙ ap {A = Core} {B = Core}
        (λ c. record (leave_fault true (is_delayed e) c) { wantstate = c.wantstate })
        (core-prepare_up v)
