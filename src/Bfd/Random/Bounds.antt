-- ===== src/Bfd/Random/Bounds.antt =====
-- Bounds of the random numbers, and of the delay before the next packet.
use keepalived.Common.{ℕ, ◌+◌, ◌-◌, ◌*◌, ◌/◌, ◌%◌, ◌^◌, ◌≤◌, ◌<◌, ◌≡◌, arith}
use keepalived.Bfd.Random.{rand_intv, discr_of, odd_second}
use keepalived.Timer.{Timeval}

scaled_le : (q r : ℕ) → r < 2 ^ 31 → q * r + q ≤ q * 2 ^ 31
scaled_le q r h = grind arith

-- The scaled number, once no step of it overflows.
rand_intv_value :
    (lo hi r : ℕ)
    → lo ≤ hi
    → hi < 2 ^ 32
    → r < 2 ^ 31
    → (rand_intv lo hi r ≡ (hi - lo + 1) * r / 2 ^ 31 + lo) × ((hi - lo + 1) * r / 2 ^ 31 ≤ hi - lo)
unfolding rand_intv
rand_intv_value lo hi r le small h =
    let e : (hi + 2 ^ 64 - lo + 1) % 2 ^ 64 ≡ hi - lo + 1 = omega arith in
    let s = scaled_le (hi - lo + 1) r h in rw e (omega arith, omega arith)

-- For an interval of 32-bit numbers and a number of random(), the result lies in the interval.
pub rand_intv_bounds :
    (lo hi r : ℕ)
    → lo ≤ hi
    → hi < 2 ^ 32
    → r < 2 ^ 31
    → (lo ≤ rand_intv lo hi r) × (rand_intv lo hi r ≤ hi)
rand_intv_bounds lo hi r le small h =
    let (e, b) = rand_intv_value lo hi r le small h in (omega arith, omega arith)

-- Both ends of the interval come up.
pub rand_intv_ends :
    (lo hi : ℕ)
    → lo ≤ hi
    → hi < 2 ^ 31
    → (rand_intv lo hi 0 ≡ lo) × (rand_intv lo hi (2 ^ 31 - 1) ≡ hi)
rand_intv_ends lo hi le small =
    let (e, b) = rand_intv_value lo hi 0 le (omega arith) (omega arith) in
    let (e', b') = rand_intv_value lo hi (2 ^ 31 - 1) le (omega arith) (omega arith) in
    (omega arith, omega arith)

-- Over the interval of the discriminators an r above 0 gives 2 r, so the lowest bit is never set.
pub rand_intv-even : (r : ℕ) → 0 < r → r < 2 ^ 31 → rand_intv 1 (2 ^ 32 - 1) r ≡ 2 * r
rand_intv-even r pos small =
    let (e, b) = rand_intv_value 1 (2 ^ 32 - 1) r (omega arith) (omega arith) small in omega arith

pub discr_of_value :
    (now : Timeval) (r : ℕ) → 0 < r → r < 2 ^ 31 → discr_of now r ≡ 2 * r + odd_second now
unfolding discr_of
discr_of_value now r pos small = rw (rand_intv-even r pos small) (omega arith)
