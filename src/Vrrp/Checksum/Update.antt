-- ===== src/Vrrp/Checksum/Update.antt =====
-- lib/utils.h: a checksum follows the change of a word without the other words being read (RFC 1624).
use keepalived.Common.{ℕ, ◌+◌, ◌-◌, ◌/◌, ◌%◌, ◌^◌, ◌<◌, ◌≡◌, arith}
use keepalived.Vrrp.Checksum.{fold_carries, csum_incremental_update16, csum_incremental_update32}

-- A sum of words, with the checksum among them, that is all ones after the carries are added.
abbrev pub IsFull : ℕ → Type 0
IsFull s = (0 < s) × (s % (2 ^ 16 - 1) ≡ 0)

pub fold_carries-IsFull :
    (s : ℕ) → s < 2 ^ 32 - 2 ^ 16 → IsFull s → 2 ^ 16 - 1 - fold_carries s % 2 ^ 16 ≡ 0
unfolding fold_carries
fold_carries-IsFull s h k = ground arith

pub update16-IsFull :
    (s c old new : ℕ)
    → c < 2 ^ 16
    → old < 2 ^ 16
    → new < 2 ^ 16
    → 0 < s
    → IsFull (s + old + c)
    → IsFull (s + new + csum_incremental_update16 c old new)
unfolding csum_incremental_update16
update16-IsFull s c old new h1 h2 h3 p k = ground arith

pub update32-IsFull :
    (s c old new : ℕ)
    → c < 2 ^ 16
    → old < 2 ^ 32
    → new < 2 ^ 32
    → 0 < s
    → IsFull (s + (old / 2 ^ 16 + old % 2 ^ 16) + c)
    → IsFull (s + (new / 2 ^ 16 + new % 2 ^ 16) + csum_incremental_update32 c old new)
unfolding csum_incremental_update32
update32-IsFull s c old new h1 h2 h3 p k = ground arith

-- The complement of a sum fills it.
pub fold_carries_complement :
    (s : ℕ) → 0 < s → s < 2 ^ 32 - 2 ^ 16 → IsFull (s + (2 ^ 16 - 1 - fold_carries s % 2 ^ 16))
unfolding fold_carries
fold_carries_complement s p h = ground arith

pub update16_lt : (c old new : ℕ) → c < 2 ^ 16 → csum_incremental_update16 c old new < 2 ^ 16
unfolding csum_incremental_update16
update16_lt c old new h = ground arith

pub update32_lt : (c old new : ℕ) → c < 2 ^ 16 → csum_incremental_update32 c old new < 2 ^ 16
unfolding csum_incremental_update32
update32_lt c old new h = ground arith
