-- ===== src/Vrrp/Master/Election.antt =====
-- Two masters that hear each other.
use keepalived.Common.{
  ℕ, ◌≡◌, ◌≢◌, refl, sym, ap, ◌∙◌, ◌⊎◌, inl, inr, Bool, true, false, not, ◌==◌, ◌&&◌, ◌||◌, ltb,
  if◌then◌else◌, arith, Bool-cases, none,
}
use keepalived.Common.Int.{ℤ, pos, negsuc, ltb_ℤ}
use keepalived.Sockaddr.{Sockaddr, af_inet, af_inet6, inet_sockaddrcmp, inet_inaddrcmp}
use keepalived.Vrrp.Instance.{Vrrp, Env, Advert, is_fault, prio_owner}
use keepalived.Vrrp.Transition.{vrrp_send_adv}
use keepalived.Vrrp.Master.{
  vrrp_saddr_cmp, is_better, is_worse, handle_rogue, decide_master, insist, process_master,
  vrrp_state_master_rx,
}

vrrp_send_adv_priority :
    (e : Env) (p : ℕ) (v : Vrrp)
    → ((vrrp_send_adv e p v).effective_priority ≡ v.effective_priority)
      × ((vrrp_send_adv e p v).rogue_timer_thread ≡ v.rogue_timer_thread)
unfolding vrrp_send_adv
vrrp_send_adv_priority e p v = elim (Bool-cases v.fd_out) [
  | inl h ↦ rw h (refl, refl)
  | inr h ↦ rw h (refl, refl)
]

Keeps : Vrrp → Vrrp → Type 0
Keeps v w =
    (w.effective_priority ≡ v.effective_priority) × (w.rogue_timer_thread ≡ v.rogue_timer_thread)

Keeps-if : (b : Bool) (v w : Vrrp) → Keeps v w → Keeps v (if b then w else v)
unfolding Keeps
Keeps-if true v w k = k
Keeps-if false v w k = (refl, refl)

insist_priority : (e : Env) (hd : Advert) (a : ℤ) (v : Vrrp) → Keeps v (insist e hd a v)
unfolding insist Keeps
insist_priority e hd a v = Keeps-if _ v _ (vrrp_send_adv_priority e v.effective_priority v)

-- As long as the instance does not wait for a rival to give up, it keeps its priority.
handle_rogue_priority :
    (hd : Advert) (a : ℤ) (v : Vrrp)
    → v.rogue_timer_thread ≡ none
    → (handle_rogue hd a v).effective_priority ≡ v.effective_priority
unfolding handle_rogue
handle_rogue_priority hd a v h =
    elim (Bool-cases (
      hd.priority == v.effective_priority
      && v.effective_priority == prio_owner
      && ltb_ℤ a (pos 0))) [ inl rogue ↦ rw (rogue, h) refl | inr fine ↦ rw fine refl ]

-- Of adverts and priorities, by the numbers alone.
abbrev beats : ℕ → ℤ → ℕ → Bool
beats p a q = ltb q p || p == q && ltb_ℤ (pos 0) a

is_better-beats :
    (hd : Advert) (a : ℤ) (v : Vrrp) (q : ℕ)
    → v.effective_priority ≡ q
    → is_better hd a v ≡ beats hd.priority a q
unfolding is_better
is_better-beats hd a v q h = rw h

lost_if :
    (worse better : Bool) (x y z : Vrrp)
    → (worse ≡ true → better ≡ false)
    → (if◌then◌else◌ {A = Bool × Vrrp} worse
        (false, x)
        (if better then (true, y) else (false, z))).0
      ≡ better
lost_if true better x y z h = sym (h refl)
lost_if false true x y z h = refl
lost_if false false x y z h = refl

not_both : (p q : ℕ) (a : ℤ) → (ltb p q || p == q && ltb_ℤ a (pos 0)) ≡ true → beats p a q ≡ false
not_both p q a h = ground arith

decide_lost :
    (e : Env) (hd : Advert) (a : ℤ) (v : Vrrp) → (decide_master e hd a v).0 ≡ is_better hd a v
unfolding decide_master is_better is_worse
decide_lost e hd a v =
    lost_if (is_worse hd a v) (is_better hd a v) _ _ _ (not_both hd.priority v.effective_priority a)

-- A master that expects no rival to give up leaves the state by the numbers alone.
pub rx_lost :
    (e : Env) (hd : Advert) (v : Vrrp)
    → is_fault v.wantstate ≡ false
    → (hd.priority == 0) ≡ false
    → v.rogue_timer_thread ≡ none
    → (vrrp_state_master_rx true e hd v).0
      ≡ beats hd.priority (vrrp_saddr_cmp v.pkt_saddr v) v.effective_priority
unfolding vrrp_state_master_rx process_master Keeps
rx_lost e hd v sound sent calm =
    let a = vrrp_saddr_cmp v.pkt_saddr v in
    let w = insist e hd a v in
    let kept = insist_priority e hd a v in
    rw (sound, sent)
      (decide_lost e hd a (handle_rogue hd a w)
        ∙ is_better-beats hd a _ _ (handle_rogue_priority hd a w (kept.1 ∙ calm) ∙ kept.0))

-- Which of two masters with these priorities and addresses wins.
abbrev pub outranks : ℕ → ℕ → ℕ → ℕ → Bool
outranks p a q b = ltb q p || p == q && ltb b a

saddr_cmp_outranks :
    (v : Vrrp) (a : Sockaddr)
    → (v.saddr.ss_family ≡ af_inet) ⊎ (v.saddr.ss_family ≡ af_inet6)
    → a.ss_family ≡ v.saddr.ss_family
    → vrrp_saddr_cmp a v ≡ (
        if ltb v.saddr.addr a.addr
        then pos 1
        else if ltb a.addr v.saddr.addr
        then negsuc 0
        else pos 0)
unfolding vrrp_saddr_cmp inet_sockaddrcmp inet_inaddrcmp
saddr_cmp_outranks v a (inl f) g = rw (g, f) refl
saddr_cmp_outranks v a (inr f) g = rw (g, f) refl

beats_sign :
    (p q a b : ℕ)
    → beats p (if ltb b a then pos 1 else if ltb a b then negsuc 0 else pos 0) q ≡ outranks p a q b
beats_sign p q a b = ground arith

-- A master gives way exactly to what outranks it.
pub rx-outranks :
    (e : Env) (hd : Advert) (v : Vrrp)
    → is_fault v.wantstate ≡ false
    → (hd.priority == 0) ≡ false
    → v.rogue_timer_thread ≡ none
    → (v.saddr.ss_family ≡ af_inet) ⊎ (v.saddr.ss_family ≡ af_inet6)
    → v.pkt_saddr.ss_family ≡ v.saddr.ss_family
    → (vrrp_state_master_rx true e hd v).0
      ≡ outranks hd.priority v.pkt_saddr.addr v.effective_priority v.saddr.addr
rx-outranks e hd v sound sent calm f g =
    rx_lost e hd v sound sent calm
    ∙ ap (λ a. beats hd.priority a v.effective_priority) (saddr_cmp_outranks v v.pkt_saddr f g)
    ∙ beats_sign hd.priority v.effective_priority v.pkt_saddr.addr v.saddr.addr

pub outranks_total : (p a q b : ℕ) → a ≢ b → outranks q b p a ≡ not (outranks p a q b)
outranks_total p a q b h = ground arith
