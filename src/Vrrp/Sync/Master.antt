-- ===== src/Vrrp/Sync/Master.antt =====
-- The members of a sync group take over together, or not at all.
use keepalived.Common.{
  and_both, and_parts, Bool, true, false, ◌||◌, ◌≡◌, subst, refl, sym, ap, ◌∙◌, ◌⊎◌, inl, inr, List,
  [], ◌∷◌, ◌++◌, All, arith, Bool-cases, if_true, if_false,
}
use keepalived.Vrrp.Instance.{State, Vrrp, Env, is_back, is_mast}
use keepalived.Vrrp.Timers.{is_delayed, vrrp_init_instance_sands, set_down_timer}
use keepalived.Vrrp.Transition.{wait_for_group, vrrp_state_goto_master}
use keepalived.Vrrp.Transition.Core.{Core, core}
use keepalived.Vrrp.Transition.Steps.{goto, core-vrrp_state_goto_master}
use keepalived.Vrrp.Fault.Core.{core_wantstate}
use keepalived.Vrrp.Dispatch.{is_due}
use keepalived.Vrrp.Sync.{
  Group, within, after_self, all_want_mast, vrrp_sync_can_goto_master, master_member,
  master_members, vrrp_sync_master, tsm_handle, timeout_member, group_timeout,
}

-- Master, with the addresses, and willing to be master.
abbrev pub Rules : Vrrp → Type 0
Rules v = (v.state ≡ State.mast) × (v.vipset ≡ true) × (v.wantstate ≡ State.mast)

Rules-by :
    (v : Vrrp) (c : Core)
    → core v ≡ c
    → (c.state ≡ State.mast) × (c.vipset ≡ true) × (c.wantstate ≡ State.mast)
    → Rules v
unfolding core
Rules-by v c h k = rw (ap (λ x. x.state) h, ap (λ x. x.vipset) h, ap (λ x. x.wantstate) h) k

goto-Rules :
    (e : Env) (v : Vrrp)
    → is_delayed e ≡ false
    → Rules (vrrp_state_goto_master true e (record v { wantstate = State.mast }))
unfolding goto
goto-Rules e v started =
    Rules-by (vrrp_state_goto_master true e (record v { wantstate = State.mast })) _
      (core-vrrp_state_goto_master true e (record v { wantstate = State.mast })
        ∙ ap (λ d. goto true d (core (record v { wantstate = State.mast }))) started
        ∙ ap (goto true false) (core_wantstate State.mast v))
      (refl, refl, refl)

or_true : (a b : Bool) → b ≡ true → (a || b) ≡ true
or_true a b h = ground arith

all_want_append :
    (xs ys : List Vrrp)
    → all_want_mast xs ≡ true
    → all_want_mast ys ≡ true
    → all_want_mast (xs ++ ys) ≡ true
unfolding all_want_mast
all_want_append [] ys h k = k
all_want_append (v ∷ r) ys h k =
    let (first, rest) = and_parts _ _ h in and_both _ _ first (all_want_append r ys rest k)

all_want_mast-Rules : (xs : List Vrrp) → All Rules xs → all_want_mast xs ≡ true
unfolding all_want_mast
all_want_mast-Rules [] h = refl
all_want_mast-Rules (v ∷ r) h = and_both _ _ (ap is_mast h.0.2) (all_want_mast-Rules r h.1)

All-append : (P : Vrrp → Type 0) (xs : List Vrrp) (v : Vrrp) → All P xs → P v → All P (xs ++ v ∷ [])
All-append P [] v h k = (k, h)
All-append P (x ∷ r) v h k = (h.0, All-append P r v h.1 k)

abbrev pub IsWaiting : Vrrp → Type 0
IsWaiting v = is_mast v.state ≡ false

member-Rules :
    (e : Env) (group : State) (others : List Vrrp) (v : Vrrp)
    → is_delayed e ≡ false
    → all_want_mast others ≡ true
    → IsWaiting v
    → Rules (master_member e group others v)
unfolding master_member vrrp_sync_can_goto_master
member-Rules e group others v started all low =
    let w = record v { wantstate = State.mast } in
    let path =
      if_false (is_mast v.state) v
        (vrrp_state_goto_master (is_mast group || all_want_mast others) e w) low
      ∙ ap (λ c. vrrp_state_goto_master c e w) (or_true (is_mast group) _ all) in
    subst Rules (sym path) (goto-Rules e v started)

members-Rules :
    (e : Env) (g : Group) (before r : List Vrrp)
    → is_delayed e ≡ false
    → is_mast g.self.wantstate ≡ true
    → All Rules before
    → all_want_mast r ≡ true
    → All IsWaiting r
    → All Rules (master_members e g before r)
unfolding master_members all_want_mast
members-Rules e g before [] started self done all low = done
members-Rules e g before (v ∷ r) started self done all low =
    let (first, rest) = and_parts (is_mast v.wantstate) (all_want_mast r) all in
    let others = g.self ∷ before ++ r in
    let can = and_both _ _ self (all_want_append before r (all_want_mast-Rules before done) rest) in
    let v' = master_member (within g e) g.state others v in
    members-Rules e g (before ++ v' ∷ []) r started self
      (All-append Rules before v' done
        (member-Rules (within g e) g.state others v started can low.0))
      rest low.1

sync-Rules :
    (e : Env) (g : Group)
    → is_delayed e ≡ false
    → is_mast g.state ≡ false
    → is_mast g.self.wantstate ≡ true
    → all_want_mast g.others ≡ true
    → All IsWaiting g.others
    → (All Rules (vrrp_sync_master e g).others)
      × ((vrrp_sync_master e g).state ≡ State.mast)
      × ((vrrp_sync_master e g).self ≡ g.self)
unfolding vrrp_sync_master vrrp_sync_can_goto_master
sync-Rules e g started low self all waiting =
    rw (low, all) (members-Rules e g [] g.others started self tt all waiting, refl, refl)

timeout_back :
    (e : Env) (g : Group) (v : Vrrp) (can : Bool)
    → v.state ≡ State.back
    → (is_mast g.state || all_want_mast g.others) ≡ can
    → timeout_member e g v ≡ vrrp_state_goto_master can e (record v { wantstate = State.mast })
unfolding timeout_member vrrp_sync_can_goto_master
timeout_back e g v can b h =
    if_true _ _ _ (ap is_back b)
    ∙ ap (λ c. vrrp_state_goto_master c e (record v { wantstate = State.mast })) h

waits :
    (e : Env) (v : Vrrp)
    → v.state ≡ State.back
    → ((vrrp_state_goto_master false e (record v { wantstate = State.mast })).state ≡ State.back)
      × ((vrrp_state_goto_master false e (record v { wantstate = State.mast })).wantstate
          ≡ State.mast)
unfolding vrrp_state_goto_master wait_for_group vrrp_init_instance_sands set_down_timer
waits e v b = (b, refl)

sands-Rules : (e : Env) (v : Vrrp) → Rules v → Rules (vrrp_init_instance_sands e v)
unfolding vrrp_init_instance_sands
sands-Rules e v h = h

sands_kept :
    (e : Env) (v : Vrrp)
    → ((vrrp_init_instance_sands e v).state ≡ v.state)
      × ((vrrp_init_instance_sands e v).wantstate ≡ v.wantstate)
unfolding vrrp_init_instance_sands
sands_kept e v = (refl, refl)

handle_elected :
    (e : Env) (g : Group)
    → g.self.state ≡ State.mast
    → tsm_handle e State.back g ≡ vrrp_sync_master e g
unfolding tsm_handle
handle_elected e g m = if_true _ _ _ (ap is_mast m)

handle_waiting : (e : Env) (g : Group) → g.self.state ≡ State.back → tsm_handle e State.back g ≡ g
unfolding tsm_handle
handle_waiting e g b = if_false _ _ _ (ap is_mast b)

-- The group after the timeout of a member in backup.
timed_out :
    (e : Env) (g : Group)
    → is_due e g.self ≡ true
    → g.self.state ≡ State.back
    → group_timeout e g
      ≡ after_self
          (vrrp_init_instance_sands e)
          (tsm_handle e State.back (record g { self = timeout_member (within g e) g g.self }))
unfolding group_timeout
timed_out e g due b =
    let g₁ = record g { self = timeout_member (within g e) g g.self } in
    if_true _ _ _ due ∙ ap (λ s. after_self (vrrp_init_instance_sands e) (tsm_handle e s g₁)) b

-- A member of a group whose state is not master, while no start is delayed and no member is master, is
-- due in backup. If every other member wants to be master, the whole group becomes master, every member
-- with the addresses; and if one does not, the group and the others stay as they are, and the member
-- stays in backup, wanting to be master.
pub group_timeout-together :
    (e : Env) (g : Group)
    → is_due e g.self ≡ true
    → is_delayed e ≡ false
    → is_mast g.state ≡ false
    → g.self.state ≡ State.back
    → All IsWaiting g.others
    → ((all_want_mast g.others ≡ true)
        × All Rules ((group_timeout e g).self ∷ (group_timeout e g).others)
        × ((group_timeout e g).state ≡ State.mast))
      ⊎ ((all_want_mast g.others ≡ false)
          × ((group_timeout e g).others ≡ g.others)
          × ((group_timeout e g).state ≡ g.state)
          × ((group_timeout e g).self.state ≡ State.back)
          × ((group_timeout e g).self.wantstate ≡ State.mast))
unfolding group_timeout
group_timeout-together e g due started low b waiting =
    let e₁ = within g e in
    let v = timeout_member e₁ g g.self in
    let g₁ = record g { self = v } in
    let path = timed_out e g due b in
    elim (Bool-cases (all_want_mast g.others)) [
      | inl all ↦
          let here : Rules v =
            subst Rules (sym (timeout_back e₁ g g.self true b (or_true (is_mast g.state) _ all)))
              (goto-Rules e₁ g.self started) in
          let (others, state, self) = sync-Rules e g₁ started low (ap is_mast here.2) all waiting in
          let path =
            path ∙ ap (after_self (vrrp_init_instance_sands e)) (handle_elected e g₁ here.0) in
          let (rules, group) =
            subst (λ h. All Rules (h.self ∷ h.others) × (h.state ≡ State.mast)) (sym path)
              ((sands-Rules e _ (subst Rules (sym self) here), others), state) in
          inl (all, rules, group)
      | inr some_not ↦
          let back = timeout_back e₁ g g.self false b (rw (low, some_not) refl) in
          let (state, want) = waits e₁ g.self b in
          let path =
            path
            ∙ ap (after_self (vrrp_init_instance_sands e))
                (handle_waiting e g₁ (ap (λ x. x.state) back ∙ state)) in
          let kept = sands_kept e v in
          let (rest, group, stays, wants) =
            subst
              (λ h.
                (h.others ≡ g.others)
                × (h.state ≡ g.state)
                × (h.self.state ≡ State.back)
                × (h.self.wantstate ≡ State.mast))
              (sym path)
              (
                refl,
                refl,
                kept.0 ∙ ap (λ x. x.state) back ∙ state,
                kept.1 ∙ ap (λ x. x.wantstate) back ∙ want,
              ) in
          inr (some_not, rest, group, stays, wants)
    ]
