-- ===== src/Vrrp/Priority/Contribution.antt =====
-- What the tracked objects add to the priority.
use keepalived.Common.{◌≡◌, ◌⊎◌, Bool, not, if◌then◌else◌}
use keepalived.Common.Int.{ℤ, pos, negsuc, ◌+ℤ◌, ◌-ℤ◌, ◌*ℤ◌, ltb_ℤ}
use keepalived.Vrrp.Instance.{Vrrp}
use keepalived.Vrrp.Priority.{TrackingObj, eqb}

-- A positive weight counts while the object is up, and a negative one while it is down.
abbrev pub contribution : TrackingObj → Bool → ℤ
contribution t up =
    if eqb (ltb_ℤ (pos 0) t.weight) up then t.weight *ℤ t.weight_multiplier else pos 0

-- weight_multiplier is 1, or -1 for a reversed weight.
abbrev pub IsSign : ℤ → Type 0
IsSign m = (m ≡ pos 1) ⊎ (m ≡ negsuc 0)

-- The total after a change of a tracked object: what it adds now in place of what it added before.
abbrev pub changed : TrackingObj → Bool → ℤ → ℤ
changed t up total = total +ℤ contribution t up -ℤ contribution t (not up)
