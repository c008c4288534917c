-- ===== src/Vrrp/Transition/Steps.antt =====
-- The changes of state as an abstract machine over the states.
use keepalived.Common.{
  sym, ◌≡◌, refl, ap, ◌∙◌, inl, inr, Bool, true, false, not, ◌&&◌, ◌||◌, if◌then◌else◌, Bool-cases,
}
use keepalived.Vrrp.Instance.{State, Vrrp, Env, is_back, is_mast, is_fault}
use keepalived.Vrrp.Timers.{vrrp_init_instance_sands, set_down_timer, is_delayed}
use keepalived.Vrrp.Transition.{
  reset_counter, wait_for_group, vrrp_state_goto_master, restart_timers, stop_syncd,
  vrrp_state_leave_master, renew_timers, abandon, vrrp_state_leave_fault,
}
use keepalived.Vrrp.Transition.Core.{
  Core, core, core-announce_leave, core-clear_rogue, core-end_preempt_delay, core-enter_wantstate,
  core-restart_timers, core-vrrp_restore_interface, core-vrrp_send_adv, core-vrrp_state_master_tx,
  enter, release, take,
}

-- What vrrp_state_goto_master does: refused by its sync group, the instance only wants to be master;
-- the addresses are set at once unless the start is delayed.
unfoldable pub goto : Bool → Bool → Core → Core
goto can delayed c =
    if not can
    then record c { wantstate = State.mast }
    else if delayed
    then record c { state = State.mast }
    else take (record c { state = State.mast })

-- What vrrp_state_leave_master does.
unfoldable pub leave : Core → Core
leave c = if is_back c.wantstate || is_fault c.wantstate then enter (release c) else c

-- What vrrp_state_leave_fault does.
unfoldable pub leave_fault : Bool → Bool → Core → Core
unfolding goto
leave_fault can delayed c =
    if is_mast c.wantstate
    then goto can delayed c
    else enter (if is_fault c.wantstate && is_mast c.state then release c else c)

to_master :
    (e : Env) (v : Vrrp)
    → core (vrrp_init_instance_sands e (record (reset_counter v) { state = State.mast }))
      ≡ record (core v) { state = State.mast }
unfolding core vrrp_init_instance_sands reset_counter
to_master e v = elim (Bool-cases v.ipsecah_counter.cycle) [ inl h ↦ rw h | inr h ↦ rw h ]

pub core-wait_for_group :
    (e : Env) (v : Vrrp) → core (wait_for_group e v) ≡ record (core v) { wantstate = State.mast }
unfolding core wait_for_group vrrp_init_instance_sands set_down_timer
core-wait_for_group e v = refl

-- A test of the code and the same test of the core.
started_split :
    (b : Bool) (v w : Vrrp) (c : Core)
    → core v ≡ c
    → core w ≡ take c
    → core (if b then v else w) ≡ (if b then c else take c)
started_split true v w c h k = h
started_split false v w c h k = k

pub core-vrrp_state_goto_master :
    (can : Bool) (e : Env) (v : Vrrp)
    → core (vrrp_state_goto_master can e v) ≡ goto can (is_delayed e) (core v)
unfolding vrrp_state_goto_master goto
core-vrrp_state_goto_master false e v = core-wait_for_group e v
core-vrrp_state_goto_master true e v =
    started_split (is_delayed e) _ _ _ (to_master e v)
      (core-vrrp_state_master_tx e _ ∙ ap take (to_master e v))

pub core-stop_syncd : (v : Vrrp) → core (stop_syncd v) ≡ core v
unfolding core stop_syncd
core-stop_syncd v = refl

-- A test that the core makes too.
pub both_split :
    (b b' : Bool) (v w : Vrrp) (c d : Core)
    → b ≡ b'
    → core v ≡ c
    → core w ≡ d
    → core (if b then v else w) ≡ (if b' then c else d)
both_split true b' v w c d e h k = rw⁻¹ e h
both_split false b' v w c d e h k = rw⁻¹ e k

pub core-wantstate : (v : Vrrp) → (core v).wantstate ≡ v.wantstate
unfolding core
core-wantstate v = refl

pub core-state : (v : Vrrp) → (core v).state ≡ v.state
unfolding core
core-state v = refl

pub core-vrrp_state_leave_master :
    (adv_f : Bool) (e : Env) (v : Vrrp) → core (vrrp_state_leave_master adv_f e v) ≡ leave (core v)
unfolding vrrp_state_leave_master leave
core-vrrp_state_leave_master adv_f e v =
    both_split _ _ _ _ _ _ (ap (λ s. is_back s || is_fault s) (sym (core-wantstate v)))
      (core-clear_rogue _
        ∙ core-restart_timers e _
        ∙ core-enter_wantstate e _
        ∙ ap enter (
            core-vrrp_restore_interface adv_f false e _
            ∙ ap release (core-announce_leave e _ ∙ core-stop_syncd v)))
      (core-stop_syncd v)

pub core-abandon :
    (e : Env) (v : Vrrp)
    → core (abandon e v)
      ≡ (if is_fault (core v).wantstate && is_mast (core v).state then release (core v) else core v)
unfolding abandon
core-abandon e v =
    both_split _ _ _ _ _ _
      (ap (λ s. is_fault s && is_mast v.state) (sym (core-wantstate v))
        ∙ ap (λ s. is_fault (core v).wantstate && is_mast s) (sym (core-state v)))
      (core-vrrp_restore_interface false false e _ ∙ ap release (core-vrrp_send_adv e 0 v)) refl

pub core-renew_timers : (e : Env) (v : Vrrp) → core (renew_timers e v) ≡ core v
unfolding core renew_timers restart_timers vrrp_init_instance_sands set_down_timer
core-renew_timers e v = refl

pub core-vrrp_state_leave_fault :
    (can : Bool) (e : Env) (v : Vrrp)
    → core (vrrp_state_leave_fault can e v) ≡ leave_fault can (is_delayed e) (core v)
unfolding vrrp_state_leave_fault leave_fault
core-vrrp_state_leave_fault can e v =
    core-renew_timers e _
    ∙ both_split _ _ _ _ _ _ (ap is_mast (sym (core-wantstate v)))
        (core-vrrp_state_goto_master can e v)
        (core-end_preempt_delay _ ∙ core-enter_wantstate e _ ∙ ap enter (core-abandon e v))

-- The changes of state of an instance are those of the core, whatever the clock, the priorities and
-- the addresses are: leaving and entering the master state (at once, or not yet where the start is
-- delayed or the sync group refuses) and leaving the fault state do to the states and to the flag of
-- the addresses what the core's three functions do.
pub transitions-core :
    (can adv_f : Bool) (e : Env) (v : Vrrp)
    → (core (vrrp_state_goto_master can e v) ≡ goto can (is_delayed e) (core v))
      × (core (vrrp_state_leave_master adv_f e v) ≡ leave (core v))
      × (core (vrrp_state_leave_fault can e v) ≡ leave_fault can (is_delayed e) (core v))
transitions-core can adv_f e v = (
  core-vrrp_state_goto_master can e v,
  core-vrrp_state_leave_master adv_f e v,
  core-vrrp_state_leave_fault can e v,
)
