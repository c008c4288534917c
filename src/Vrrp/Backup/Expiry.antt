-- ===== src/Vrrp/Backup/Expiry.antt =====
-- What is left of a down timer.
use keepalived.Common.{ℕ, ◌+◌, ◌*◌, ◌^◌, ◌<◌, ◌≡◌, if◌then◌else◌, arith}
use keepalived.Common.Int.{pos, pos_part, ltb_ℤ}
use keepalived.Timer.{Timeval, timer_hz, timersub}
use keepalived.Timer.Laws.{IsNormal, usecs, debt, After, timersub_value}
use keepalived.Vrrp.Instance.{Vrrp, Env}
use keepalived.Vrrp.Timers.{u32}
use keepalived.Vrrp.Backup.{reduce_down_timer}

left_of : Timeval → ℕ
left_of left =
    if ltb_ℤ left.tv_sec (pos 0) then 0 else u32 (pos_part left.tv_sec * timer_hz + left.tv_usec)

left_value : (l : Timeval) (d : ℕ) → IsNormal l → usecs l ≡ d + debt l → d < 2 ^ 32 → left_of l ≡ d
unfolding left_of
left_value l d n h small = ground arith

-- What reduce_down_timer leaves is the time up to the expiry.
pub reduce_down_timer_value :
    (e : Env) (v : Vrrp) (d : ℕ)
    → IsNormal e.time_now
    → IsNormal v.sands
    → After v.sands d e.time_now
    → d < 2 ^ 32
    → (reduce_down_timer e v).ms_down_timer ≡ d
unfolding reduce_down_timer left_of
reduce_down_timer_value e v d n m h small =
    let (normal, gap) = timersub_value v.sands e.time_now m n in
    left_value (timersub v.sands e.time_now) d normal (omega arith) small
