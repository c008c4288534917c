-- ===== src/Vrrp/Master/Core.antt =====
-- What an advert does to the states of a master.
use keepalived.Common.{
  ℕ, ◌≡◌, refl, ap, ◌∙◌, inl, inr, Bool, true, false, not, ◌==◌, ◌&&◌, if◌then◌else◌, Bool-cases,
  is_some,
}
use keepalived.Common.Int.{ℤ, pos, ltb_ℤ}
use keepalived.Sockaddr.{Sockaddr}
use keepalived.Vrrp.Instance.{State, Vrrp, Env, Advert, is_fault, prio_owner}
use keepalived.Vrrp.Timers.{set_down_timer}
use keepalived.Vrrp.Backup.{follow_master, learn_interval}
use keepalived.Vrrp.Transition.{send_instance_notifies}
use keepalived.Vrrp.Transition.Core.{Core, core, core_if, core-emit, core-vrrp_send_adv}
use keepalived.Vrrp.Master.{
  resync, end_cycle, is_better, is_worse, handle_rogue, answer_worse, give_way, fail_master,
  decide_master, insist, process_master, vrrp_state_master_rx,
}

abbrev pub yield : Core → Core
yield c = record c { wantstate = State.back; state = State.back }

core-handle_rogue : (hd : Advert) (a : ℤ) (v : Vrrp) → core (handle_rogue hd a v) ≡ core v
unfolding core handle_rogue
core-handle_rogue hd a v =
    elim (Bool-cases (
      hd.priority == v.effective_priority
      && v.effective_priority == prio_owner
      && ltb_ℤ a (pos 0))) [
        | inl rogue ↦ elim (Bool-cases (is_some v.rogue_timer_thread)) [
          | inl h ↦ rw (rogue, h)
          | inr h ↦ rw (rogue, h)
        ]
        | inr fine ↦ rw fine
      ]

core-resync : (hd : Advert) (v : Vrrp) → core (resync hd v) ≡ core v
unfolding core resync
core-resync hd v = elim (Bool-cases v.auth_ah) [ inl h ↦ rw h | inr h ↦ rw h ]

core-end_cycle : (v : Vrrp) → core (end_cycle v) ≡ core v
unfolding core end_cycle
core-end_cycle v = elim (Bool-cases v.auth_ah) [ inl h ↦ rw h | inr h ↦ rw h ]

core-answer_worse : (e : Env) (hd : Advert) (v : Vrrp) → core (answer_worse e hd v) ≡ core v
unfolding answer_worse
core-answer_worse e hd v =
    core-emit _ _
    ∙ core_if v.lower_prio_no_advert _ _ _ (core-resync hd v)
        (core-vrrp_send_adv e v.effective_priority _ ∙ core-resync hd v)

core-learn_interval : (hd : Advert) (v : Vrrp) → core (learn_interval hd v) ≡ core v
unfolding core learn_interval
core-learn_interval hd v = elim (Bool-cases (v.version == 3)) [ inl h ↦ rw h | inr h ↦ rw h ]

core_followed :
    (w : Vrrp) (s : Sockaddr) (p : ℕ)
    → core (record (set_down_timer w) { master_saddr = s; master_priority = p }) ≡ core w
unfolding core set_down_timer
core_followed w s p = refl

pub core-follow_master : (hd : Advert) (v : Vrrp) → core (follow_master hd v) ≡ core v
unfolding follow_master
core-follow_master hd v = core_followed _ _ _ ∙ core-learn_interval hd v

core-yield :
    (v : Vrrp) → core (record v { wantstate = State.back; state = State.back }) ≡ yield (core v)
unfolding core
core-yield v = refl

core-give_way : (hd : Advert) (v : Vrrp) → core (give_way hd v) ≡ yield (core v)
unfolding give_way
core-give_way hd v = core-yield _ ∙ ap yield (core-follow_master hd _ ∙ core-end_cycle v)

core-insist : (e : Env) (hd : Advert) (a : ℤ) (v : Vrrp) → core (insist e hd a v) ≡ core v
unfolding insist
core-insist e hd a v = core_if _ _ _ _ (core-vrrp_send_adv e v.effective_priority v) refl

pub core-fail_master :
    (e : Env) (v : Vrrp) → core (fail_master e v) ≡ record (core v) { state = State.fault }
unfolding core fail_master send_instance_notifies set_down_timer
core-fail_master e v = refl

-- Given up or not, as `lost` tells.
abbrev pub outcome : Bool → Core → Core
outcome lost c = if lost then yield c else c

outcome_split :
    (b : Bool) (p q : Bool × Vrrp) (c : Core)
    → core p.1 ≡ outcome p.0 c
    → core q.1 ≡ outcome q.0 c
    → core (if b then p else q).1 ≡ outcome (if b then p else q).0 c
outcome_split true p q c h k = h
outcome_split false p q c h k = k

core-decide_master :
    (e : Env) (hd : Advert) (a : ℤ) (v : Vrrp)
    → core (decide_master e hd a v).1 ≡ outcome (decide_master e hd a v).0 (core v)
unfolding decide_master
core-decide_master e hd a v =
    outcome_split (is_worse hd a v) _ _ _ (core-answer_worse e hd v)
      (outcome_split (is_better hd a v) _ _ _ (core-give_way hd v) refl)

core-process_master :
    (e : Env) (hd : Advert) (a : ℤ) (v : Vrrp)
    → core (process_master e hd a v).1 ≡ outcome (process_master e hd a v).0 (core v)
unfolding process_master
core-process_master e hd a v = outcome_split (hd.priority == 0) _ _ _ (core-insist e hd a v) (
    core-decide_master e hd a _
    ∙ ap (outcome (decide_master e hd a (handle_rogue hd a (insist e hd a v))).0)
        (core-handle_rogue hd a _ ∙ core-insist e hd a v))

pub core-vrrp_state_master_rx :
    (ok : Bool) (e : Env) (hd : Advert) (v : Vrrp)
    → is_fault v.wantstate ≡ false
    → core (vrrp_state_master_rx ok e hd v).1 ≡ outcome (vrrp_state_master_rx ok e hd v).0 (core v)
unfolding vrrp_state_master_rx
core-vrrp_state_master_rx ok e hd v sound =
    rw (sound) (outcome_split (not ok) _ _ _ refl (core-process_master e hd _ v))
