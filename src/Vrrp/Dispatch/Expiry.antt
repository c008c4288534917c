-- ===== src/Vrrp/Dispatch/Expiry.antt =====
-- An advert that a backup does not accept leaves what is left of the time until the backup takes over.
use keepalived.Common.{
  ℕ, ◌^◌, ◌<◌, ◌≡◌, refl, ap, ◌∙◌, ◌⊎◌, inl, inr, Bool, true, false, ◌==◌, ◌||◌, if◌then◌else◌,
  arith, if_true, if_false, sym, subst,
}
use keepalived.Timer.Laws.{IsNormal, After, timer_add_long_value}
use keepalived.Sockaddr.{Sockaddr}
use keepalived.Vrrp.Instance.{State, Vrrp, Env, Advert, is_mast, is_back}
use keepalived.Vrrp.Timers.{is_delayed, next_sands, vrrp_init_instance_sands}
use keepalived.Vrrp.Backup.{
  vrrp_state_backup, process_backup, reduce_down_timer, regain_priority, is_accepted,
}
use keepalived.Vrrp.Backup.Expiry.{reduce_down_timer_value}
use keepalived.Vrrp.Dispatch.{read_state, renew_sands, vrrp_dispatcher_read}

backup_sands :
    (e : Env) (v : Vrrp) (d : ℕ)
    → is_delayed e ≡ false
    → v.state ≡ State.back
    → IsNormal e.sands_now
    → d < 2 ^ 32
    → v.ms_down_timer ≡ d
    → IsNormal (renew_sands e v).sands × After (renew_sands e v).sands d e.sands_now
unfolding renew_sands vrrp_init_instance_sands next_sands
backup_sands e v d s b n small t =
    rw (b, s, t) (timer_add_long_value e.sands_now d n (λ never. omega arith))

renew_sands_state : (e : Env) (v : Vrrp) → (renew_sands e v).state ≡ v.state
unfolding renew_sands vrrp_init_instance_sands
renew_sands_state e v = keep _
  where
    keep : (b : Bool) → (if b then vrrp_init_instance_sands e v else v).state ≡ v.state
    keep true = refl
    keep false = refl

-- The advert is invalid, or from a worse router that the instance is to take over from.
abbrev pub IsIgnored : Bool → Env → Advert → Vrrp → Type 0
IsIgnored ok e hd v =
    (ok ≡ false)
    ⊎ (((hd.priority == 0) ≡ false) × (is_accepted e hd (regain_priority hd v) ≡ false))

reduced :
    (e : Env) (v w : Vrrp) (d : ℕ)
    → IsNormal e.time_now
    → IsNormal v.sands
    → After v.sands d e.time_now
    → d < 2 ^ 32
    → w.sands ≡ v.sands
    → (reduce_down_timer e w).ms_down_timer ≡ d
reduced e v w d n m h small same = reduce_down_timer_value e w d n (rw same m) (rw same h) small

regain_priority_kept :
    (hd : Advert) (v : Vrrp)
    → ((regain_priority hd v).sands ≡ v.sands) × ((regain_priority hd v).state ≡ v.state)
unfolding regain_priority
regain_priority_kept hd v = regained _ _ (refl, refl)
  where
    regained :
        (b : Bool) (w : Vrrp)
        → (w.sands ≡ v.sands) × (w.state ≡ v.state)
        → ((if b then w else v).sands ≡ v.sands) × ((if b then w else v).state ≡ v.state)
    regained true w h = h
    regained false w h = (refl, refl)

reduced_state : (e : Env) (v : Vrrp) → (reduce_down_timer e v).state ≡ v.state
unfolding reduce_down_timer
reduced_state e v = refl

ignored :
    (ok : Bool) (e : Env) (hd : Advert) (v : Vrrp) (d : ℕ)
    → IsNormal e.time_now
    → IsNormal v.sands
    → After v.sands d e.time_now
    → d < 2 ^ 32
    → IsIgnored ok e hd v
    → ((vrrp_state_backup ok e hd v).ms_down_timer ≡ d)
      × ((vrrp_state_backup ok e hd v).state ≡ v.state)
unfolding vrrp_state_backup process_backup
ignored false e hd v d n m h small why = (reduced e v v d n m h small refl, reduced_state e v)
ignored true e hd v d n m h small (inr (sent, refused)) =
    let kept = regain_priority_kept hd v in
    rw (sent, refused) (reduced e v _ d n m h small kept.0, reduced_state e _ ∙ kept.1)
ignored true e hd v d n m h small (inl bad) = absurd (ground arith)

backup_read :
    (ok : Bool) (e : Env) (src : Sockaddr) (hd : Advert) (v : Vrrp)
    → is_delayed e ≡ false
    → v.state ≡ State.back
    → vrrp_dispatcher_read ok e src hd v
      ≡ renew_sands e (vrrp_state_backup ok e hd (record v { pkt_saddr = src }))
unfolding vrrp_dispatcher_read read_state
backup_read ok e src hd v s b =
    if_false _ _ _ s
    ∙ if_true _ _ _ (ap (λ t. is_back t || is_mast t) b)
    ∙ ap (renew_sands e) (if_true _ _ _ (ap is_back b))

-- An advert that a backup refuses as invalid, or ignores since it is to take over from its sender (a
-- lower priority, with preemption allowed and no preemption delay running), leaves the backup in backup,
-- and due as far ahead of the time read when its timer is set as it was due ahead of the time read when
-- the advert was handled: it moves by what the clock moves between these two readings, and by nothing
-- else. It is a condition that it was due in less than 2 ^ 32 microseconds, that the times are normal and
-- that no start is delayed.
pub ignored-vrrp_dispatcher_read :
    (ok : Bool) (e : Env) (src : Sockaddr) (hd : Advert) (v : Vrrp) (d : ℕ)
    → is_delayed e ≡ false
    → v.state ≡ State.back
    → IsNormal e.time_now
    → IsNormal e.sands_now
    → IsNormal v.sands
    → After v.sands d e.time_now
    → d < 2 ^ 32
    → IsIgnored ok e hd (record v { pkt_saddr = src })
    → IsNormal (vrrp_dispatcher_read ok e src hd v).sands
      × After (vrrp_dispatcher_read ok e src hd v).sands d e.sands_now
      × ((vrrp_dispatcher_read ok e src hd v).state ≡ State.back)
ignored-vrrp_dispatcher_read ok e src hd v d s b n n' m h small why =
    let (left, stay) = ignored ok e hd (record v { pkt_saddr = src }) d n m h small why in
    let w = vrrp_state_backup ok e hd (record v { pkt_saddr = src }) in
    let step = backup_read ok e src hd v s b in
    let at = backup_sands e w d s (stay ∙ b) n' small left in
    (
      subst (λ x. IsNormal x.sands) (sym step) at.0,
      subst (λ x. After x.sands d e.sands_now) (sym step) at.1,
      ap (λ x. x.state) step ∙ renew_sands_state e w ∙ stay ∙ b,
    )
