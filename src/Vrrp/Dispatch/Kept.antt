-- ===== src/Vrrp/Dispatch/Kept.antt =====
-- Adverts and timeouts keep an instance sound.
use keepalived.Common.{
  ℕ, ◌≡◌, refl, ap, ◌∙◌, inl, inr, Bool, true, false, ◌==◌, ◌||◌, if◌then◌else◌, arith, Bool-cases,
  if_true,
}
use keepalived.Common.Int.{pos}
use keepalived.Timer.{Timeval}
use keepalived.Vrrp.Instance.{prio_owner, State, Vrrp, Env, Advert, is_mast, is_back, is_fault}
use keepalived.Sockaddr.{Sockaddr}
use keepalived.Vrrp.Timers.{timer_skew, is_delayed, vrrp_init_instance_sands}
use keepalived.Vrrp.Transition.{
  vrrp_state_goto_master, vrrp_state_leave_master, vrrp_state_master_tx,
}
use keepalived.Vrrp.Transition.Core.{
  Core, core, core_if, core_else, core_then, core-reset_preempt_time, core-vrrp_init_instance_sands,
  core-vrrp_state_master_tx, take,
}
use keepalived.Vrrp.Transition.Steps.{
  core-state, core-wantstate, core-vrrp_state_goto_master, core-vrrp_state_leave_master, leave,
  goto,
}
use keepalived.Vrrp.Backup.{
  is_accepted, vrrp_state_backup, process_backup, accept_advert, follow_master, run_preempt_delay,
  regain_priority, reduce_down_timer,
}
use keepalived.Vrrp.Master.{vrrp_state_master_rx, fail_master}
use keepalived.Vrrp.Master.Core.{core-fail_master, core-follow_master}
use keepalived.Vrrp.Fault.Core.{core_wantstate}
use keepalived.Vrrp.Fault.Invariant.{IsSound}
use keepalived.Vrrp.Fault.Kept.{Sound, Sound-by, Sound-if, wants_back}
use keepalived.Vrrp.Dispatch.Election.{core_pkt_saddr, core-renew_sands, core-read_state, after}
use keepalived.Vrrp.Dispatch.{
  read_state, renew_sands, vrrp_dispatcher_read, vrrp_dispatcher_read_timeout, timeout_state,
  is_due, vrrp_goto_master,
}

core-reduce_down_timer : (e : Env) (v : Vrrp) → core (reduce_down_timer e v) ≡ core v
unfolding core reduce_down_timer
core-reduce_down_timer e v = refl

core_priority :
    (v : Vrrp)
    → core (record v { effective_priority = prio_owner; total_priority = pos prio_owner }) ≡ core v
unfolding core
core_priority v = refl

core_preempt_time : (t : Timeval) (v : Vrrp) → core (record v { preempt_time = t }) ≡ core v
unfolding core
core_preempt_time t v = refl

core-regain_priority : (hd : Advert) (v : Vrrp) → core (regain_priority hd v) ≡ core v
unfolding regain_priority
core-regain_priority hd v = core_if _ _ _ _ (core_priority v) refl

core-run_preempt_delay :
    (e : Env) (hd : Advert) (v : Vrrp) → core (run_preempt_delay e hd v) ≡ core v
unfolding run_preempt_delay
core-run_preempt_delay e hd v =
    core_if (v.preempt_delay == 0) _ _ _ refl
      (core_if _ _ _ _ (core-reset_preempt_time v) (core_if _ _ _ _ (core_preempt_time _ v) refl))

core-accept_advert :
    (e : Env) (hd : Advert) (v : Vrrp)
    → core (accept_advert e hd v) ≡ record (core v) { wantstate = State.back }
unfolding accept_advert
core-accept_advert e hd v =
    core_wantstate State.back _
    ∙ ap {A = Core} {B = Core} (λ c. record c { wantstate = State.back })
        (core-run_preempt_delay e hd (follow_master hd v) ∙ core-follow_master hd v)

core_down_timer : (n : ℕ) (v : Vrrp) → core (record v { ms_down_timer = n }) ≡ core v
unfolding core
core_down_timer n v = refl

core_master_saddr : (a : Sockaddr) (v : Vrrp) → core (record v { master_saddr = a }) ≡ core v
unfolding core
core_master_saddr a v = refl

process_backup-Sound : (e : Env) (hd : Advert) (v : Vrrp) → Sound v → Sound (process_backup e hd v)
unfolding process_backup
process_backup-Sound e hd v s =
    let stopped = record v { ms_down_timer = timer_skew v } in
    let heard = record v { master_saddr = v.pkt_saddr } in
    let taken = accept_advert e hd v in
    let ignored = reduce_down_timer e heard in
    Sound-if _ stopped (if is_accepted e hd v then taken else ignored)
      (λ _. Sound-by stopped (core v) (core_down_timer _ v) s)
      (λ _.
        Sound-if _ taken ignored
          (λ _. Sound-by taken _ (core-accept_advert e hd v) (wants_back (core v) s))
          (λ _.
            Sound-by ignored (core v) (core-reduce_down_timer e heard ∙ core_master_saddr _ v) s))

vrrp_state_backup-Sound :
    (ok : Bool) (e : Env) (hd : Advert) (v : Vrrp) → Sound v → Sound (vrrp_state_backup ok e hd v)
unfolding vrrp_state_backup
vrrp_state_backup-Sound ok e hd v s =
    let w = regain_priority hd v in
    let kept = process_backup e hd w in
    let ignored = reduce_down_timer e v in
    Sound-if ok kept ignored
      (λ _. process_backup-Sound e hd w (Sound-by w (core v) (core-regain_priority hd v) s))
      (λ _. Sound-by ignored (core v) (core-reduce_down_timer e v) s)

after-IsSound : (lost : Bool) (c : Core) → IsSound c → c.state ≡ State.mast → IsSound (after lost c)
after-IsSound lost c s m = ground arith

failed-IsSound :
    (c : Core)
    → IsSound c
    → is_fault c.wantstate ≡ true
    → IsSound (leave (record c { state = State.fault }))
unfolding leave
failed-IsSound c s f = ground arith

rx_failed :
    (ok : Bool) (e : Env) (hd : Advert) (v : Vrrp)
    → is_fault v.wantstate ≡ true
    → vrrp_state_master_rx ok e hd v ≡ (true, fail_master e v)
unfolding vrrp_state_master_rx
rx_failed ok e hd v f = if_true _ _ _ f

core-read_failed :
    (ok : Bool) (e : Env) (hd : Advert) (v : Vrrp)
    → v.state ≡ State.mast
    → is_fault v.wantstate ≡ true
    → core (read_state ok e hd v) ≡ leave (record (core v) { state = State.fault })
unfolding read_state
core-read_failed ok e hd v m f = core_else (is_back v.state) _ _ _ (ap is_back m) (
    ap {A = Bool × Vrrp} {B = Core}
      (λ r. core (if r.0 then vrrp_state_leave_master false e r.1 else r.1)) (rx_failed ok e hd v f)
    ∙ core-vrrp_state_leave_master false e (fail_master e v)
    ∙ ap leave (core-fail_master e v))

back_or_master : (s : State) → (is_back s || is_mast s) ≡ true → is_back s ≡ false → s ≡ State.mast
back_or_master s h k = ground arith

read_back-Sound :
    (ok : Bool) (e : Env) (hd : Advert) (v : Vrrp)
    → Sound v
    → is_back v.state ≡ true
    → Sound (read_state ok e hd v)
unfolding read_state
read_back-Sound ok e hd v s b =
    Sound-by (read_state ok e hd v) (core (vrrp_state_backup ok e hd v))
      (core_then (is_back v.state) _ _ _ b refl) (vrrp_state_backup-Sound ok e hd v s)

read_state-Sound :
    (ok : Bool) (e : Env) (hd : Advert) (v : Vrrp)
    → Sound v
    → (is_back v.state || is_mast v.state) ≡ true
    → Sound (read_state ok e hd v)
read_state-Sound ok e hd v s h = elim (Bool-cases (is_back v.state)) [
  | inl b ↦ read_back-Sound ok e hd v s b
  | inr nb ↦
      let m = back_or_master v.state h nb in
      elim (Bool-cases (is_fault v.wantstate)) [
        | inl f ↦
            Sound-by (read_state ok e hd v) _ (core-read_failed ok e hd v m f)
              (failed-IsSound (core v) s (ap is_fault (core-wantstate v) ∙ f))
        | inr sound ↦
            Sound-by (read_state ok e hd v) _ (core-read_state ok e hd v m sound)
              (after-IsSound _ (core v) s (core-state v ∙ m))
      ]
]

pub vrrp_dispatcher_read-Sound :
    (ok : Bool) (e : Env) (src : Sockaddr) (hd : Advert) (v : Vrrp)
    → Sound v
    → Sound (vrrp_dispatcher_read ok e src hd v)
unfolding vrrp_dispatcher_read
vrrp_dispatcher_read-Sound ok e src hd v s =
    let w = record v { pkt_saddr = src } in
    let r = read_state ok e hd w in
    Sound-if (is_delayed e) v (if is_back v.state || is_mast v.state then renew_sands e r else v)
      (λ _. s)
      (λ _.
        Sound-if (is_back v.state || is_mast v.state) (renew_sands e r) v
          (λ h.
            Sound-by (renew_sands e r) (core r) (core-renew_sands e r)
              (read_state-Sound ok e hd w (Sound-by w (core v) (core_pkt_saddr v src) s) h))
          (λ _. s))

elected-IsSound :
    (d : Bool) (c : Core)
    → IsSound c
    → is_back c.state ≡ true
    → IsSound (goto true d (record c { wantstate = State.mast }))
unfolding goto
elected-IsSound d c s b = ground arith

take-IsSound : (c : Core) → IsSound c → is_mast c.state ≡ true → IsSound (take c)
take-IsSound c s m = ground arith

timeout_state-Sound : (e : Env) (v : Vrrp) → Sound v → Sound (timeout_state e v)
unfolding timeout_state vrrp_goto_master
timeout_state-Sound e v s =
    let wants = record v { wantstate = State.mast } in
    let elected = vrrp_state_goto_master true e wants in
    let told = vrrp_state_master_tx e v in
    Sound-if (is_back v.state) elected (if is_mast v.state then told else v)
      (λ b.
        Sound-by elected (goto true (is_delayed e) (record (core v) { wantstate = State.mast }))
          (core-vrrp_state_goto_master true e wants
            ∙ ap (goto true (is_delayed e)) (core_wantstate State.mast v))
          (elected-IsSound (is_delayed e) (core v) s (ap is_back (core-state v) ∙ b)))
      (λ _.
        Sound-if (is_mast v.state) told v
          (λ m.
            Sound-by told (take (core v)) (core-vrrp_state_master_tx e v)
              (take-IsSound (core v) s (ap is_mast (core-state v) ∙ m)))
          (λ _. s))

pub vrrp_dispatcher_read_timeout-Sound :
    (e : Env) (v : Vrrp) → Sound v → Sound (vrrp_dispatcher_read_timeout e v)
unfolding vrrp_dispatcher_read_timeout
vrrp_dispatcher_read_timeout-Sound e v s =
    let w = timeout_state e v in
    Sound-if (is_due e v) (vrrp_init_instance_sands e w) v
      (λ _.
        Sound-by (vrrp_init_instance_sands e w) (core w) (core-vrrp_init_instance_sands e w)
          (timeout_state-Sound e v s))
      (λ _. s)
