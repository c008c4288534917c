-- ===== src/Vrrp/Checksum.antt =====
-- lib/utils.c: the Internet checksum, of 16-bit words in host order (the order of the bytes does not
-- matter to it). A length is even: those of the packets are.
pub mod Inverse
pub mod Update
use keepalived.Common.{ℕ, ◌+◌, ◌-◌, ◌/◌, ◌%◌, ◌^◌, ◌==◌, if◌then◌else◌, List, [], ◌∷◌}
use keepalived.Vrrp.Timers.{u32}

-- The sum of the words in 32 bits.
unfoldable pub add_words : List ℕ → ℕ → ℕ
add_words [] csum = csum
add_words (w ∷ r) csum = add_words r (u32 (csum + w))

-- Both halves of the sum, with the carry.
unfoldable pub fold_carries : ℕ → ℕ
fold_carries sum = let once = sum / 2 ^ 16 + sum % 2 ^ 16 in u32 (once + once / 2 ^ 16)

unfoldable pub in_csum : List ℕ → ℕ → ℕ
in_csum ws csum = 2 ^ 16 - 1 - fold_carries (add_words ws csum) % 2 ^ 16

-- csum_incremental_update16 of lib/utils.h; the complement of a 16-bit number is written out.
unfoldable pub csum_incremental_update16 : ℕ → ℕ → ℕ → ℕ
csum_incremental_update16 old_csum old_val new_val =
    let acc = 2 ^ 16 - 1 - old_csum + (2 ^ 16 - 1 - old_val) + new_val in
    let once = acc % 2 ^ 16 + acc / 2 ^ 16 in
    if old_val == new_val then old_csum else 2 ^ 16 - 1 - (once + once / 2 ^ 16) % 2 ^ 16

-- csum_incremental_update32 of lib/utils.h
unfoldable pub csum_incremental_update32 : ℕ → ℕ → ℕ → ℕ
csum_incremental_update32 old_csum old_val new_val =
    let acc =
      2 ^ 16
      - 1
      - old_csum
      + (2 ^ 16 - 1 - old_val / 2 ^ 16)
      + (2 ^ 16 - 1 - old_val % 2 ^ 16)
      + (new_val / 2 ^ 16 + new_val % 2 ^ 16) in
    let once = acc % 2 ^ 16 + acc / 2 ^ 16 in
    if old_val == new_val then old_csum else 2 ^ 16 - 1 - (once + once / 2 ^ 16) % 2 ^ 16
