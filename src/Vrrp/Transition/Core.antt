-- ===== src/Vrrp/Transition/Core.antt =====
-- The states alone: the part of an instance that decides who is master, and what the parts of the
-- changes of state do to it.
use keepalived.Common.{
  List, ℕ, ◌≡◌, refl, ap, ◌∙◌, inl, inr, Bool, true, false, not, ◌==◌, ◌||◌, if◌then◌else◌, arith,
  Bool-cases, is_some,
}
use keepalived.Vrrp.Instance.{Out, emit, State, Vrrp, Env, Faults, is_back, prio_owner}
use keepalived.Vrrp.Timers.{vrrp_init_instance_sands, set_down_timer}
use keepalived.Vrrp.Transition.{
  vrrp_send_adv, send_instance_notifies, vrrp_state_become_master, count_rogue,
  vrrp_state_master_tx, vrrp_restore_interface, enter_wantstate, reset_preempt_time, announce_leave,
  clear_rogue, restart_timers, end_preempt_delay,
}

pub record Core : Type 0 where
  pub state : State
  pub wantstate : State
  pub vipset : Bool
  pub flags_if_fault : Faults
  pub num_track_fault : ℕ
  pub num_script_init : ℕ
  pub base_priority : ℕ

unfoldable pub core : Vrrp → Core
core v = record {
  state = v.state;
  wantstate = v.wantstate;
  vipset = v.vipset;
  flags_if_fault = v.flags_if_fault;
  num_track_fault = v.num_track_fault;
  num_script_init = v.num_script_init;
  base_priority = v.base_priority;
}

pub core-vrrp_send_adv : (e : Env) (prio : ℕ) (v : Vrrp) → core (vrrp_send_adv e prio v) ≡ core v
unfolding core vrrp_send_adv
core-vrrp_send_adv e prio v = elim (Bool-cases v.fd_out) [
  | inl open' ↦ rw open'
  | inr shut ↦ rw shut
]

pub core-clear_rogue : (v : Vrrp) → core (clear_rogue v) ≡ core v
unfolding core clear_rogue
core-clear_rogue v = elim (Bool-cases (is_some v.rogue_timer_thread)) [
  | inl h ↦ rw h
  | inr h ↦ rw h
]

-- Both branches of a test.
pub core_if :
    (b : Bool) (v w : Vrrp) (c : Core) → core v ≡ c → core w ≡ c → core (if b then v else w) ≡ c
core_if true v w c h k = h
core_if false v w c h k = k

-- Both branches of a test, each with what the test has told.
pub core_split :
    (b : Bool) (v w : Vrrp) (c : Core)
    → (b ≡ true → core v ≡ c)
    → (b ≡ false → core w ≡ c)
    → core (if b then v else w) ≡ c
core_split true v w c h k = h refl
core_split false v w c h k = k refl

pub core_then :
    (b : Bool) (v w : Vrrp) (c : Core) → b ≡ true → core v ≡ c → core (if b then v else w) ≡ c
core_then b v w c e h = rw e h

pub core_else :
    (b : Bool) (v w : Vrrp) (c : Core) → b ≡ false → core w ≡ c → core (if b then v else w) ≡ c
core_else b v w c e h = rw e h

not-false : (b : Bool) → not b ≡ false → b ≡ true
not-false b h = ground arith

pub core-reset_preempt_time : (v : Vrrp) → core (reset_preempt_time v) ≡ core v
unfolding core reset_preempt_time
core-reset_preempt_time v = refl

pub core-announce_leave : (e : Env) (v : Vrrp) → core (announce_leave e v) ≡ core v
unfolding announce_leave
core-announce_leave e v =
    core_if (is_back v.wantstate) _ _ _ (core-reset_preempt_time v)
      (core_if _ _ _ _ (core-vrrp_send_adv e 0 v) refl)

pub core-restart_timers : (e : Env) (v : Vrrp) → core (restart_timers e v) ≡ core v
unfolding core restart_timers vrrp_init_instance_sands set_down_timer
core-restart_timers e v = refl

pub core-vrrp_init_instance_sands :
    (e : Env) (v : Vrrp) → core (vrrp_init_instance_sands e v) ≡ core v
unfolding core vrrp_init_instance_sands
core-vrrp_init_instance_sands e v = refl

pub core-count_rogue : (e : Env) (v : Vrrp) → core (count_rogue e v) ≡ core v
unfolding core count_rogue
core-count_rogue e v = elim (Bool-cases (v.rogue_counter == 0)) [
  | inl none_left ↦ rw none_left
  | inr some_left ↦ elim (Bool-cases (v.rogue_counter == 1)) [
    | inl last ↦ rw (some_left, last)
    | inr more ↦ rw (some_left, more)
  ]
]

pub core-end_preempt_delay : (v : Vrrp) → core (end_preempt_delay v) ≡ core v
unfolding end_preempt_delay
core-end_preempt_delay v = core_if (is_back v.state) _ _ _ (core-reset_preempt_time v) refl

abbrev pub release : Core → Core
release c = record c { vipset = false }

pub core-emit : (o : List Out) (v : Vrrp) → core (emit o v) ≡ core v
unfolding core
core-emit o v = refl

core_vipset :
    (b : Bool) (v : Vrrp) → core (record v { vipset = b }) ≡ record (core v) { vipset = b }
unfolding core
core_vipset b v = refl

released : (v : Vrrp) → v.vipset ≡ false → core v ≡ release (core v)
unfolding core
released v h = rw h

vip_unset : (a b c d : Bool) → (a || b || c || d) ≡ false → b ≡ false
vip_unset a b c d h = ground arith

pub core-vrrp_restore_interface :
    (adv_f force : Bool) (e : Env) (v : Vrrp)
    → core (vrrp_restore_interface adv_f force e v) ≡ release (core v)
unfolding vrrp_restore_interface
core-vrrp_restore_interface adv_f force e v =
    let told : core (if adv_f then vrrp_send_adv e 0 v else v) ≡ core v =
      core_if adv_f _ _ _ (core-vrrp_send_adv e 0 v) refl in
    core_split (force || v.vipset || e.dont_release_vrrp || e.release_vips) _ _ _
      (λ _. core_vipset false _ ∙ ap release (core-emit _ _ ∙ core-emit _ _ ∙ told))
      (λ kept. core-emit _ _ ∙ told ∙ released v (vip_unset _ _ _ _ kept))

abbrev pub enter : Core → Core
enter c = record c { state = c.wantstate }

pub core-enter_wantstate : (e : Env) (v : Vrrp) → core (enter_wantstate e v) ≡ enter (core v)
unfolding core enter_wantstate send_instance_notifies
core-enter_wantstate e v = refl

abbrev pub take : Core → Core
take c = record c { vipset = true }

pub core-vrrp_state_become_master :
    (e : Env) (v : Vrrp) → core (vrrp_state_become_master e v) ≡ take (core v)
unfolding core vrrp_state_become_master send_instance_notifies
core-vrrp_state_become_master e v = refl

taken : (v : Vrrp) → v.vipset ≡ true → core v ≡ take (core v)
unfolding core
taken v h = rw h

pub core-vrrp_state_master_tx :
    (e : Env) (v : Vrrp) → core (vrrp_state_master_tx e v) ≡ take (core v)
unfolding vrrp_state_master_tx
core-vrrp_state_master_tx e v =
    let w = vrrp_send_adv e v.effective_priority v in
    let told : core w ≡ core v = core-vrrp_send_adv e v.effective_priority v in
    core_split (not w.vipset) _ _ _ (λ _. core-vrrp_state_become_master e w ∙ ap take told)
      (λ held.
        core_if (w.base_priority == prio_owner) _ _ _ (core-count_rogue e w) refl
        ∙ taken w (not-false w.vipset held)
        ∙ ap take told)
