-- ===== src/Bfd/Random.antt =====
-- keepalived/bfd/bfd_data.c: random numbers in an interval, and discriminators.
-- random() gives the numbers of a stream, each below 2 ^ 31.
pub mod Bounds
pub mod Fresh
use Prim.Native.Nat.{bit_and, bit_or}
use keepalived.Common.{
  ℕ, zero, suc, ◌+◌, ◌-◌, ◌*◌, ◌/◌, ◌%◌, ◌^◌, Bool, true, false, ◌||◌, ◌==◌, if◌then◌else◌, Option,
  none, some, List, [], ◌∷◌,
}
use keepalived.Common.Int.{ℤ, pos, negsuc}
use keepalived.Bfd.Session.{Ctx}
use keepalived.Timer.{Timeval}

-- RAND_MAX + 1U
abbrev pub rand_range : ℕ
rand_range = 2 ^ 31

-- The interval of min to max; `r` is what random() gave.
unfoldable pub rand_intv : ℕ → ℕ → ℕ → ℕ
rand_intv min max r =
    ((max + 2 ^ 64 - min + 1) % 2 ^ 64 * r % 2 ^ 64 / rand_range % 2 ^ 32 + min) % 2 ^ 32

-- One call of random().
unfoldable pub take_random : Ctx → ℕ × Ctx
take_random c = (c.random 0, record c { random = λ n. c.random (suc n) })

-- tv_sec & 1
abbrev pub odd_second : Timeval → ℕ
odd_second t = elim t.tv_sec [ pos n ↦ n % 2 | negsuc n ↦ (n + 1) % 2 ]

pub contains : ℕ → List ℕ → Bool
contains d [] = false
contains d (x ∷ xs) = x == d || contains d xs

-- The discriminator that one number of the stream stands for: `& ~1` clears the lowest bit.
pub discr_of : Timeval → ℕ → ℕ
unfolding rand_intv
discr_of now r = rand_intv 1 (2 ^ 32 - 1) r / 2 * 2 + odd_second now

-- 0 where the number is taken, as the loop sets it.
unfoldable pub try_discr : List ℕ → Timeval → ℕ → ℕ
unfolding discr_of contains
try_discr discrs now r = let d = discr_of now r in if contains d discrs then 0 else d

-- The loop, with fuel for the tries: the discriminator, and how many numbers it took.
pub find_discr : ℕ → List ℕ → Timeval → (ℕ → ℕ) → Option (ℕ × (ℕ → ℕ))
unfolding try_discr
find_discr zero discrs now random = none
find_discr (suc fuel) discrs now random =
    let rest = find_discr fuel discrs now (λ n. random (suc n)) in
    let d = try_discr discrs now (random 0) in
    if d == 0 then rest else some (d, λ n. random (suc n))

-- How often the loop is tried in the model.
unfoldable pub tries : ℕ
tries = 64

unfoldable pub bfd_get_random_discr : Ctx → Option (ℕ × Ctx)
bfd_get_random_discr c = elim (find_discr tries (c.s.local_discr ∷ c.discrs) c.now c.random) [
  | none ↦ none
  | some (d, rest) ↦ some (d, record c { random = rest })
]
