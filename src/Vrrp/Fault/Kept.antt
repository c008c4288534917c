-- ===== src/Vrrp/Fault/Kept.antt =====
-- Going down and coming up keep an instance sound.
use keepalived.Common.{
  ℕ, ◌+◌, ◌<◌, ◌^◌, ◌≡◌, refl, sym, ap, ◌∙◌, inl, inr, Bool, true, false, not, ◌==◌, ◌||◌,
  if◌then◌else◌, arith, Bool-cases,
}
use keepalived.Vrrp.Instance.{State, Fault, Vrrp, Env, is_mast, is_fault, is_init, has_fault}
use keepalived.Vrrp.Timers.{is_delayed}
use keepalived.Vrrp.Transition.Core.{Core, core}
use keepalived.Vrrp.Transition.Steps.{core-state}
use keepalived.Vrrp.Fault.{
  set_fault, clear_fault, go_down, down_instance, prepare_up, come_up, resolve, try_up_instance,
  is_tracker,
}
use keepalived.Vrrp.Fault.Core.{core-go_down, core-up, core_wantstate, down}
use keepalived.Vrrp.Fault.Invariant.{
  IsSound, has_bit, with_fault, without_fault, with_fault-down, with_fault-IsSound,
  without_fault-IsSound, up-IsSound,
}

-- An instance is sound if its core is.
abbrev pub Sound : Vrrp → Type 0
Sound v = IsSound (core v)

pub Sound-by : (v : Vrrp) (c : Core) → core v ≡ c → IsSound c → Sound v
Sound-by v c h s = rw h s

pub Sound-if :
    (b : Bool) (v w : Vrrp)
    → (b ≡ true → Sound v)
    → (b ≡ false → Sound w)
    → Sound (if b then v else w)
Sound-if true v w h k = h refl
Sound-if false v w h k = k refl

pub core-set_fault : (flag : Fault) (v : Vrrp) → core (set_fault flag v) ≡ with_fault flag (core v)
unfolding core set_fault
core-set_fault flag v = refl

core-clear_fault :
    (flag : Fault) (v : Vrrp) → core (clear_fault flag v) ≡ without_fault flag (core v)
unfolding core clear_fault
core-clear_fault flag v = elim (Bool-cases (is_tracker flag)) [ inl h ↦ rw h | inr h ↦ rw h ]

core_flags : (v : Vrrp) → (core v).flags_if_fault ≡ v.flags_if_fault
unfolding core
core_flags v = refl

core_scripts :
    (n : ℕ) (v : Vrrp)
    → core (record v { num_script_init = n }) ≡ record (core v) { num_script_init = n }
unfolding core
core_scripts n v = refl

still_down :
    (c : Core)
    → IsSound c
    → (not (has_fault c.flags_if_fault) || is_init c.state) ≡ false
    → (is_fault c.state || is_init c.state) ≡ true
still_down c s h = ground arith

pub wants_back : (c : Core) → IsSound c → IsSound (record c { wantstate = State.back })
wants_back c s = ground arith

pub down_instance-Sound :
    (e : Env) (flag : Fault) (v : Vrrp)
    → Sound v
    → v.num_track_fault + 1 < 2 ^ 32
    → Sound (down_instance e flag v)
unfolding down_instance core
down_instance-Sound e flag v s few =
    let w = set_fault flag v in
    Sound-if _ (go_down e w) w
      (λ _.
        Sound-by (go_down e w) _ (core-go_down e w ∙ ap down (core-set_fault flag v))
          (with_fault-down flag (core v) s few))
      (λ h.
        Sound-by w _ (core-set_fault flag v)
          (with_fault-IsSound flag (core v) s few (still_down (core v) s h)))

resolve-Sound : (e : Env) (v : Vrrp) → Sound v → is_mast v.state ≡ false → Sound (resolve e v)
unfolding resolve core
resolve-Sound e v s h =
    let low = record v { wantstate = State.back } in
    let ready = come_up e (prepare_up v) in
    Sound-if _ v (if not (v.num_script_init == 0) then low else ready) (λ _. s)
      (λ well.
        Sound-if _ low ready
          (λ _. Sound-by low _ (core_wantstate State.back v) (wants_back (core v) s))
          (λ _. Sound-by ready _ (core-up e v) (up-IsSound (is_delayed e) (core v) s well h)))

pub try_up_instance-Sound :
    (e : Env) (leaving_init : Bool) (flag : Fault) (v : Vrrp)
    → Sound v
    → (if leaving_init then is_mast v.state ≡ false else has_bit flag v.flags_if_fault ≡ true)
    → Sound (try_up_instance e leaving_init flag v)
unfolding try_up_instance core
try_up_instance-Sound e true flag v s h = resolve-Sound e v s h
try_up_instance-Sound e false flag v s h =
    let (sound, low) = without_fault-IsSound flag (core v) s h in
    resolve-Sound e (clear_fault flag v)
      (Sound-by (clear_fault flag v) _ (core-clear_fault flag v) sound)
      (ap is_mast
          (sym (core-state (clear_fault flag v)) ∙ ap (λ c. c.state) (core-clear_fault flag v))
        ∙ low)
