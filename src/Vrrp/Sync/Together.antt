-- ===== src/Vrrp/Sync/Together.antt =====
-- The members of a sync group give up together.
use keepalived.Common.{
  Bool, true, false, ◌||◌, ◌≡◌, refl, ap, ◌∙◌, if◌then◌else◌, List, [], ◌∷◌, map, All, arith,
}
use keepalived.Vrrp.Instance.{State, Vrrp, Env, is_init, is_back, is_mast, is_fault}
use keepalived.Vrrp.Timers.{is_delayed}
use keepalived.Vrrp.Transition.{vrrp_state_leave_master, vrrp_state_leave_fault}
use keepalived.Vrrp.Transition.Core.{Core, core}
use keepalived.Vrrp.Transition.Steps.{
  leave, leave_fault, core-state, core-vrrp_state_leave_master, core-vrrp_state_leave_fault,
}
use keepalived.Vrrp.Fault.Core.{core_wantstate}
use keepalived.Vrrp.Fault.Invariant.{IsSound}
use keepalived.Vrrp.Fault.Kept.{Sound}
use keepalived.Vrrp.Sync.{
  Group, within, back_member, fault_member, vrrp_sync_backup, vrrp_sync_fault,
}

-- In the state, and without the addresses.
abbrev pub Rests : State → Vrrp → Type 0
Rests s v = ((core v).state ≡ s) × ((core v).vipset ≡ false)

Rests-by :
    (s : State) (v : Vrrp) (c : Core) → core v ≡ c → (c.state ≡ s) × (c.vipset ≡ false) → Rests s v
Rests-by s v c h k = rw h k

Rests-if :
    (s : State) (b : Bool) (v w : Vrrp)
    → (b ≡ true → Rests s v)
    → (b ≡ false → Rests s w)
    → Rests s (if b then v else w)
Rests-if s true v w h k = h refl
Rests-if s false v w h k = k refl

left_fault :
    (d : Bool) (s : State) (c : Core)
    → IsSound c
    → is_mast c.state ≡ false
    → is_mast s ≡ false
    → ((leave_fault true d (record c { wantstate = s })).state ≡ s)
      × ((leave_fault true d (record c { wantstate = s })).vipset ≡ false)
unfolding leave_fault
left_fault d s c sound low h = ground arith

left_master :
    (s : State) (c : Core)
    → (is_back s || is_fault s) ≡ true
    → ((leave (record c { wantstate = s })).state ≡ s)
      × ((leave (record c { wantstate = s })).vipset ≡ false)
unfolding leave
left_master s c h = ground arith

is_back→back : (s : State) → is_back s ≡ true → s ≡ State.back
is_back→back s h = ground arith

low_state : (s : State) → (is_fault s || is_init s) ≡ true → is_mast s ≡ false
low_state s h = ground arith

back_idle :
    (c : Core) → IsSound c → is_back c.state ≡ true → (c.state ≡ State.back) × (c.vipset ≡ false)
back_idle c s h = ground arith

back_member-Rests : (e : Env) (v : Vrrp) → Sound v → Rests State.back (back_member e v)
unfolding back_member
back_member-Rests e v s =
    let w = record v { wantstate = State.back } in
    let up = vrrp_state_leave_fault true e w in
    let off = vrrp_state_leave_master false e w in
    Rests-if State.back (is_back v.state) v
      (if is_fault v.state || is_init v.state then up else off)
      (λ b. back_idle (core v) s (ap is_back (core-state v) ∙ b))
      (λ _.
        Rests-if State.back (is_fault v.state || is_init v.state) up off
          (λ low.
            Rests-by State.back up _
              (core-vrrp_state_leave_fault true e w
                ∙ ap (leave_fault true (is_delayed e)) (core_wantstate State.back v))
              (left_fault (is_delayed e) State.back (core v) s
                (ap is_mast (core-state v) ∙ low_state v.state low) refl))
          (λ _.
            Rests-by State.back off _
              (core-vrrp_state_leave_master false e w ∙ ap leave (core_wantstate State.back v))
              (left_master State.back (core v) refl)))

core_states :
    (s t : State) (v : Vrrp)
    → core (record v { wantstate = s; state = t }) ≡ record (core v) { wantstate = s; state = t }
unfolding core
core_states s t v = refl

fault_idle :
    (c : Core) → IsSound c → is_fault c.state ≡ true → (c.state ≡ State.fault) × (c.vipset ≡ false)
fault_idle c s h = ground arith

bodge :
    (d : Bool) (c : Core)
    → IsSound c
    → is_mast c.state ≡ false
    → ((leave_fault true d (record c { wantstate = State.fault; state = State.fault })).state
        ≡ State.fault)
      × ((leave_fault true d (record c { wantstate = State.fault; state = State.fault })).vipset
          ≡ false)
unfolding leave_fault
bodge d c s low = ground arith

fault_member-Rests : (e : Env) (v : Vrrp) → Sound v → Rests State.fault (fault_member e v)
unfolding fault_member
fault_member-Rests e v s =
    let w = record v { wantstate = State.fault } in
    let off = vrrp_state_leave_master false e w in
    let forced = record v { wantstate = State.fault; state = State.fault } in
    let down = vrrp_state_leave_fault true e forced in
    Rests-if State.fault (is_fault v.state) v (if is_mast v.state then off else down)
      (λ f. fault_idle (core v) s (ap is_fault (core-state v) ∙ f))
      (λ _.
        Rests-if State.fault (is_mast v.state) off down
          (λ _.
            Rests-by State.fault off _
              (core-vrrp_state_leave_master false e w ∙ ap leave (core_wantstate State.fault v))
              (left_master State.fault (core v) refl))
          (λ low.
            Rests-by State.fault down _
              (core-vrrp_state_leave_fault true e forced
                ∙ ap (leave_fault true (is_delayed e)) (core_states State.fault State.fault v))
              (bodge (is_delayed e) (core v) s (ap is_mast (core-state v) ∙ low))))

abbrev pub AllRest : State → List Vrrp → Type 0
AllRest s = All (λ v. (v.state ≡ s) × (v.vipset ≡ false))

Rests-state : (s : State) (v : Vrrp) → Rests s v → (v.state ≡ s) × (v.vipset ≡ false)
unfolding core
Rests-state s v h = h

All-map :
    (s : State) (f : Vrrp → Vrrp) (xs : List Vrrp)
    → ((v : Vrrp) → Sound v → Rests s (f v))
    → All Sound xs
    → AllRest s (map f xs)
All-map s f [] h sound = sound
All-map s f (v ∷ r) h sound = (Rests-state s (f v) (h v sound.0), All-map s f r h sound.1)

-- When a group whose members are sound leaves its state for backup, and when one does for fault, every
-- member but the one that caused it is then in that state and without the addresses, and so is the
-- group; the member that caused it is left as it is.
pub group-rests :
    (e : Env) (g h : Group)
    → All Sound g.others
    → All Sound h.others
    → is_back g.state ≡ false
    → is_fault h.state ≡ false
    → (AllRest State.back (vrrp_sync_backup e g).others
        × ((vrrp_sync_backup e g).state ≡ State.back)
        × ((vrrp_sync_backup e g).self ≡ g.self))
      × (AllRest State.fault (vrrp_sync_fault e h).others
          × ((vrrp_sync_fault e h).state ≡ State.fault)
          × ((vrrp_sync_fault e h).self ≡ h.self))
unfolding vrrp_sync_backup vrrp_sync_fault
group-rests e g h s t b f = (
  rw b (
    All-map State.back (back_member (within g e)) g.others (back_member-Rests (within g e)) s,
    refl,
    refl,
  ),
  rw f (
    All-map State.fault (fault_member (within h e)) h.others (fault_member-Rests (within h e)) t,
    refl,
    refl,
  ),
)
