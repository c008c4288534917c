-- ===== src/Bfd/Random/Fresh.antt =====
-- New discriminators: they differ from those in use, and the loop finds one.
use keepalived.Common.{
  ℕ, zero, suc, ◌<◌, ◌≡◌, ◌≢◌, inl, inr, false, some, List, [], ◌∷◌, arith, ◌==◌, Bool-cases, All,
  sym,
}
use keepalived.Timer.{Timeval}
use keepalived.Bfd.Session.{Ctx}
use keepalived.Bfd.Random.{contains, discr_of, try_discr, find_discr, tries, bfd_get_random_discr}

contains-All : (d : ℕ) (xs : List ℕ) → contains d xs ≡ false → All (λ x. x ≢ d) xs
unfolding contains
contains-All d [] h = tt
contains-All d (x ∷ xs) h = (λ e. ground arith, contains-All d xs (ground arith))

try_discr_fresh :
    (discrs : List ℕ) (now : Timeval) (r : ℕ)
    → try_discr discrs now r ≢ 0
    → contains (try_discr discrs now r) discrs ≡ false
unfolding try_discr
try_discr_fresh discrs now r h = elim (Bool-cases (contains (discr_of now r) discrs)) [
  | inl used ↦ absurd (h (rw used))
  | inr free ↦ rw free free
]

-- What the loop gives is above 0 and not in use.
pub find_discr_sound :
    (fuel : ℕ) (discrs : List ℕ) (now : Timeval) (random : ℕ → ℕ) (d : ℕ) (rest : ℕ → ℕ)
    → find_discr fuel discrs now random ≡ some (d, rest)
    → (d ≢ 0) × All (λ x. x ≢ d) discrs
unfolding find_discr
find_discr_sound zero discrs now random d rest h = cc
find_discr_sound (suc fuel) discrs now random d rest h =
    elim (Bool-cases (try_discr discrs now (random 0) == 0)) [
      | inl taken ↦ find_discr_sound fuel discrs now (λ n. random (suc n)) d rest (rw taken at h)
      | inr free ↦
          let nonzero : try_discr discrs now (random 0) ≢ 0 = (λ e. ground arith) in
          let e : try_discr discrs now (random 0) ≡ d = ground arith in
          rw (← e) (nonzero, contains-All _ discrs (try_discr_fresh discrs now (random 0) nonzero))
    ]

-- One of the next numbers gives a discriminator that is free.
abbrev pub FreeWithin : ℕ → List ℕ → Timeval → (ℕ → ℕ) → Type 0
FreeWithin fuel discrs now random = (k : ℕ) × (k < fuel) × (try_discr discrs now (random k) ≢ 0)

-- Then the loop ends.
pub find_discr_total :
    (fuel : ℕ) (discrs : List ℕ) (now : Timeval) (random : ℕ → ℕ)
    → FreeWithin fuel discrs now random
    → (d : ℕ) × (rest : ℕ → ℕ) × (find_discr fuel discrs now random ≡ some (d, rest))
unfolding find_discr
find_discr_total zero discrs now random (k, lt, h) = absurd (omega arith)
find_discr_total (suc fuel) discrs now random (zero, lt, h) =
    (try_discr discrs now (random 0), (λ n. random (suc n)), rw (zero-test _ h))
  where
    zero-test : (n : ℕ) → n ≢ 0 → (n == 0) ≡ false
    zero-test n f = ground arith
find_discr_total (suc fuel) discrs now random (suc k, lt, h) =
    elim (Bool-cases (try_discr discrs now (random 0) == 0)) [
      | inl taken ↦
          rw taken (find_discr_total fuel discrs now (λ n. random (suc n)) (k, omega arith, h))
      | inr free ↦ (try_discr discrs now (random 0), (λ n. random (suc n)), rw free)
    ]

-- If one of the next numbers stands for a free discriminator, the search ends, and the session gets
-- a discriminator above 0 that no session uses, its own old one included.
pub bfd_get_random_discr_fresh :
    (c : Ctx)
    → FreeWithin tries (c.s.local_discr ∷ c.discrs) c.now c.random
    → (d : ℕ) × (rest : ℕ → ℕ) × (bfd_get_random_discr c ≡ some (d, record c { random = rest }))
      × (d ≢ 0)
      × (d ≢ c.s.local_discr)
      × All (λ x. x ≢ d) c.discrs
unfolding bfd_get_random_discr
bfd_get_random_discr_fresh c free =
    let (d, rest, e) = find_discr_total tries _ c.now c.random free in
    let (nonzero, unused) = find_discr_sound tries _ c.now c.random d rest e in
    (d, rest, rw (e, bfd_get_random_discr), nonzero, (λ p. unused.0 (sym p)), unused.1)
