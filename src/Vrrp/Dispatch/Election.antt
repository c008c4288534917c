-- ===== src/Vrrp/Dispatch/Election.antt =====
-- Two masters that hear each other, through the dispatcher.
use keepalived.Common.{
  ◌≡◌, ◌≢◌, refl, sym, ap, ◌∙◌, ◌⊎◌, Bool, true, false, not, ◌==◌, ◌&&◌, ◌||◌, if◌then◌else◌, none,
}
use keepalived.Sockaddr.{Sockaddr, af_inet, af_inet6}
use keepalived.Vrrp.Instance.{State, Vrrp, Env, Advert, is_fault, is_mast, is_back}
use keepalived.Vrrp.Timers.{is_delayed}
use keepalived.Vrrp.Transition.Core.{
  Core, core, core_if, core-vrrp_init_instance_sands, core_then, core_else,
}
use keepalived.Vrrp.Transition.Steps.{leave, core-vrrp_state_leave_master}
use keepalived.Vrrp.Master.{vrrp_state_master_rx}
use keepalived.Vrrp.Master.Core.{core-vrrp_state_master_rx, outcome}
use keepalived.Vrrp.Master.Election.{rx-outranks, outranks, outranks_total}
use keepalived.Vrrp.Dispatch.{read_state, renew_sands, vrrp_dispatcher_read}

-- A master that is sound, with an address of its own, and that waits for no rival to give up.
pub record IsMaster (v : Vrrp) : Type 0 where
  pub master : v.state ≡ State.mast
  pub sound : is_fault v.wantstate ≡ false
  pub calm : v.rogue_timer_thread ≡ none
  pub address : (v.saddr.ss_family ≡ af_inet) ⊎ (v.saddr.ss_family ≡ af_inet6)
  pub priority : (v.effective_priority == 0) ≡ false

pub core-renew_sands : (e : Env) (v : Vrrp) → core (renew_sands e v) ≡ core v
unfolding renew_sands
core-renew_sands e v = core_if _ _ _ _ (core-vrrp_init_instance_sands e v) refl

-- What the master is afterwards.
abbrev pub after : Bool → Core → Core
after lost c =
    if lost then record c { wantstate = State.back; state = State.back; vipset = false } else c

outcome_left :
    (b : Bool) (x : Vrrp) (y : Vrrp) (c : Core)
    → core x ≡ leave (core y)
    → core y ≡ outcome b c
    → core (if b then x else y) ≡ after b c
unfolding leave
outcome_left true x y c h k = h ∙ ap leave k
outcome_left false x y c h k = k

pub core-read_state :
    (ok : Bool) (e : Env) (hd : Advert) (v : Vrrp)
    → v.state ≡ State.mast
    → is_fault v.wantstate ≡ false
    → core (read_state ok e hd v) ≡ after (vrrp_state_master_rx ok e hd v).0 (core v)
unfolding read_state
core-read_state ok e hd v master sound =
    let r = vrrp_state_master_rx ok e hd v in
    core_else _ _ _ _ (ap is_back master) (
      outcome_left r.0 _ r.1 (core v) (core-vrrp_state_leave_master false e r.1)
        (core-vrrp_state_master_rx ok e hd v sound))

pub core_pkt_saddr : (v : Vrrp) (a : Sockaddr) → core (record v { pkt_saddr = a }) ≡ core v
unfolding core
core_pkt_saddr v a = refl

-- An advert of another router, with its priority and its address, that a master receives.
receive :
    (e : Env) (src : Sockaddr) (hd : Advert) (v : Vrrp)
    → is_delayed e ≡ false
    → IsMaster v
    → src.ss_family ≡ v.saddr.ss_family
    → (hd.priority == 0) ≡ false
    → core (vrrp_dispatcher_read true e src hd v)
      ≡ after (outranks hd.priority src.addr v.effective_priority v.saddr.addr) (core v)
unfolding vrrp_dispatcher_read
receive e src hd v started m f sent =
    let w = record v { pkt_saddr = src } in
    core_else _ _ _ _ started (
      core_then _ _ _ _ (ap (λ s. is_back s || is_mast s) m.master) (
        core-renew_sands e _
        ∙ core-read_state true e hd w m.master m.sound
        ∙ ap (λ b. after b (core w)) (rx-outranks e hd w m.sound sent m.calm m.address f)
        ∙ ap (after (outranks hd.priority src.addr v.effective_priority v.saddr.addr))
            (core_pkt_saddr v src)))

-- How a master ends: as it was, or in backup and without the addresses.
abbrev Ends : Bool → Vrrp → Vrrp → Type 0
Ends wins v v' =
    (v'.state ≡ (if wins then State.mast else State.back)) × (v'.vipset ≡ (wins && v.vipset))

ends :
    (lost wins : Bool) (v v' : Vrrp)
    → v.state ≡ State.mast
    → wins ≡ not lost
    → core v' ≡ after lost (core v)
    → Ends wins v v'
unfolding core
ends true wins v v' m e h = rw e (ap (λ c. c.state) h, ap (λ c. c.vipset) h)
ends false wins v v' m e h = rw e (ap (λ c. c.state) h ∙ m, ap (λ c. c.vipset) h)

-- Two masters with different addresses of one family, neither of which waits for a rival address owner
-- to give up, each receive the other's advert, accepted, while no start is delayed: exactly one of
-- them stays master, as it was, and the other is in backup without the addresses. The one that stays
-- has the higher priority, or the higher address where the priorities are equal.
pub one-master :
    (e e' : Env) (hd hd' : Advert) (v w : Vrrp)
    → is_delayed e ≡ false
    → is_delayed e' ≡ false
    → IsMaster v
    → IsMaster w
    → w.saddr.ss_family ≡ v.saddr.ss_family
    → v.saddr.addr ≢ w.saddr.addr
    → hd.priority ≡ w.effective_priority
    → hd'.priority ≡ v.effective_priority
    → Ends
        (outranks v.effective_priority v.saddr.addr w.effective_priority w.saddr.addr)
        v
        (vrrp_dispatcher_read true e w.saddr hd v)
      × Ends
          (not (outranks v.effective_priority v.saddr.addr w.effective_priority w.saddr.addr))
          w
          (vrrp_dispatcher_read true e' v.saddr hd' w)
one-master e e' hd hd' v w s s' m m' f d p p' =
    let win = outranks v.effective_priority v.saddr.addr w.effective_priority w.saddr.addr in
    let heard = receive e w.saddr hd v s m f (ap (λ n. n == 0) p ∙ m'.priority) in
    let heard' = receive e' v.saddr hd' w s' m' (sym f) (ap (λ n. n == 0) p' ∙ m.priority) in
    let q =
      outranks_total w.effective_priority w.saddr.addr v.effective_priority v.saddr.addr
        (λ h. d (sym h)) in
    (
      ends _ win v _ m.master
          (q ∙ ap (λ n. not (outranks n w.saddr.addr v.effective_priority v.saddr.addr)) (sym p))
          heard,
      ends _ (not win) w _ m'.master
          (ap (λ n. not (outranks n v.saddr.addr w.effective_priority w.saddr.addr)) (sym p'))
          heard',
    )
