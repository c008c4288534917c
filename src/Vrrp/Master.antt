-- ===== src/Vrrp/Master.antt =====
-- keepalived/vrrp/vrrp.c: what a master does with an advert. `ok` says whether vrrp_check_packet
-- accepts it, and the instance is the one that vrrp_check_packet leaves.
pub mod Core
pub mod Election
use keepalived.Common.{
  ℕ, ◌+◌, ◌-◌, ◌*◌, Bool, true, false, not, ◌&&◌, ◌||◌, ltb, ◌==◌, if◌then◌else◌, Option, none,
  some, List, [], ◌∷◌, ◌++◌, is_some,
}
use keepalived.Common.Int.{ℤ, pos, ltb_ℤ}
use keepalived.Timer.{timer_hz, timer_centi_hz}
use keepalived.Sockaddr.{Sockaddr, af_inet, af_inet6, inet_inaddrcmp, inet_sockaddrcmp}
use keepalived.Vrrp.Instance.{State, Vrrp, Env, Advert, Interface, Out, emit, prio_owner, is_fault}
use keepalived.Vrrp.Timers.{u32, set_down_timer}
use keepalived.Vrrp.Transition.{when, vrrp_send_adv, send_instance_notifies}
use keepalived.Vrrp.Backup.{follow_master}

-- The sender's address against the instance's own: positive if the sender's is the higher.
unfoldable pub vrrp_saddr_cmp : Sockaddr → Vrrp → ℤ
vrrp_saddr_cmp a v =
    if not (v.saddr.ss_family == 0) && not (a.ss_family == v.saddr.ss_family)
    then pos 0
    else if not (v.saddr.ss_family == 0)
    then inet_sockaddrcmp a v.saddr
    else interface v.ifp
  where
    interface : Option Interface → ℤ
    interface none = pos 0
    interface (some ifp) =
        if a.ss_family == af_inet
        then inet_inaddrcmp a.ss_family a.addr ifp.sin_addr
        else if a.ss_family == af_inet6
        then inet_inaddrcmp a.ss_family a.addr ifp.sin6_addr
        else pos 0

-- The advert is of a better router than this one.
unfoldable pub is_better : Advert → ℤ → Vrrp → Bool
is_better hd addr_cmp v =
    ltb v.effective_priority hd.priority
    || hd.priority == v.effective_priority && ltb_ℤ (pos 0) addr_cmp

-- The advert is of a worse router than this one.
unfoldable pub is_worse : Advert → ℤ → Vrrp → Bool
is_worse hd addr_cmp v =
    ltb hd.priority v.effective_priority
    || hd.priority == v.effective_priority && ltb_ℤ addr_cmp (pos 0)

-- Another router claims to own the addresses and has the lower address: this one waits for it to
-- give up, and lowers its own priority if it has not done so in time.
unfoldable pub handle_rogue : Advert → ℤ → Vrrp → Vrrp
handle_rogue hd addr_cmp v =
    if hd.priority == v.effective_priority
      && v.effective_priority == prio_owner
      && ltb_ℤ addr_cmp (pos 0)
    then (if is_some v.rogue_timer_thread
        then record v {
          rogue_timer_thread = none;
          effective_priority = prio_owner - 1;
          total_priority = pos (prio_owner - 1);
        }
        else record v {
          rogue_adver_int = hd.adver_int * (if v.version == 2 then timer_hz else timer_centi_hz);
          rogue_counter = if v.rogue_counter == 0 then 2 else v.rogue_counter;
        })
    else v

unfoldable pub sibling_garps : List (ℕ × ℕ) → List Out
sibling_garps [] = []
sibling_garps (s ∷ r) =
    let rest = sibling_garps r in
    if s.0 == 0
    then rest
    else Out.sibling_update s.0 ∷ when (not (s.1 == 0)) (Out.delayed_sibling_update s.0 s.1) ++ rest

-- IPsec AH: the sequence numbers go on from that of the advert.
unfoldable pub resync : Advert → Vrrp → Vrrp
resync hd v =
    if v.auth_ah
    then record v {
      ipsecah_counter = record { cycle = false; seq_number = u32 (hd.ah_seq_number + 1) };
    }
    else v

unfoldable pub end_cycle : Vrrp → Vrrp
end_cycle v =
    if v.auth_ah
    then record v { ipsecah_counter = record (v.ipsecah_counter) { cycle = false } }
    else v

unfoldable pub lower_prio_garps : Env → Vrrp → List Out
lower_prio_garps e v =
    let rep = v.garp_lower_prio_rep in
    when (not (rep == 0)) (Out.link_update rep)
    ++ when (not (rep == 0) && not (v.garp_lower_prio_delay == 0))
        (Out.delayed_update rep v.garp_lower_prio_delay)
    ++ sibling_garps e.siblings

-- A worse router is told who is master, and the caches of the neighbours are refreshed.
unfoldable pub answer_worse : Env → Advert → Vrrp → Vrrp
answer_worse e hd v =
    let v₁ = resync hd v in
    let v₂ = if v.lower_prio_no_advert then v₁ else vrrp_send_adv e v.effective_priority v₁ in
    emit (lower_prio_garps e v ++ Out.rx_lower_pri ∷ []) v₂

-- The instance gives way to a better router.
unfoldable pub give_way : Advert → Vrrp → Vrrp
give_way hd v = record (follow_master hd (end_cycle v)) {
  wantstate = State.back;
  state = State.back;
}

-- The link has failed meanwhile.
unfoldable pub fail_master : Env → Vrrp → Vrrp
fail_master e v =
    record (send_instance_notifies e
      (record (set_down_timer (record v { master_adver_int = v.adver_int })) {
        state = State.fault;
      })) { last_transition = e.time_now }

-- An accepted advert with a priority other than 0.
unfoldable pub decide_master : Env → Advert → ℤ → Vrrp → Bool × Vrrp
decide_master e hd addr_cmp v =
    if is_worse hd addr_cmp v
    then (false, answer_worse e hd v)
    else if is_better hd addr_cmp v
    then (true, give_way hd v)
    else (false, v)

-- With a better router, or one that stops: the instance says that it is there.
unfoldable pub insist : Env → Advert → ℤ → Vrrp → Vrrp
insist e hd addr_cmp v =
    if hd.priority == 0 || v.higher_prio_send_advert && is_better hd addr_cmp v
    then vrrp_send_adv e v.effective_priority v
    else v

unfoldable pub process_master : Env → Advert → ℤ → Vrrp → Bool × Vrrp
process_master e hd addr_cmp v =
    let v₁ = insist e hd addr_cmp v in
    if hd.priority == 0
    then (false, v₁)
    else decide_master e hd addr_cmp (handle_rogue hd addr_cmp v₁)

-- Whether the master state is to be left, and the instance.
unfoldable pub vrrp_state_master_rx : Bool → Env → Advert → Vrrp → Bool × Vrrp
vrrp_state_master_rx ok e hd v =
    if is_fault v.wantstate
    then (true, fail_master e v)
    else if not ok
    then (false, v)
    else process_master e hd (vrrp_saddr_cmp v.pkt_saddr v) v
