-- ===== src/Vrrp/Checksum/Inverse.antt =====
-- A packet that carries its checksum passes the check.
use keepalived.Common.{ℕ, ◌+◌, ◌-◌, ◌%◌, ◌^◌, ◌<◌, ◌≡◌, ◌∙◌, List, [], ◌∷◌, ◌++◌, arith}
use keepalived.Vrrp.Timers.{u32}
use keepalived.Vrrp.Checksum.{add_words, fold_carries, in_csum}

abbrev pub sum_of : List ℕ → ℕ
sum_of [] = 0
sum_of (w ∷ r) = w + sum_of r

-- The words are too few for their sum to overflow 32 bits.
pub add_words_sum :
    (ws : List ℕ) (csum : ℕ) → csum + sum_of ws < 2 ^ 32 → add_words ws csum ≡ csum + sum_of ws
unfolding add_words
add_words_sum [] csum h = omega arith
add_words_sum (w ∷ r) csum h =
    let fits : u32 (csum + w) ≡ csum + w = omega arith in
    rw fits (add_words_sum r (csum + w) (omega arith) ∙ omega arith)

complement :
    (s : ℕ)
    → s + 2 ^ 16 < 2 ^ 32
    → 2 ^ 16 - 1 - fold_carries (s + (2 ^ 16 - 1 - fold_carries s % 2 ^ 16)) % 2 ^ 16 ≡ 0
unfolding fold_carries
complement s h = ground arith

pub sum_of-append : (xs ys : List ℕ) → sum_of (xs ++ ys) ≡ sum_of xs + sum_of ys
sum_of-append [] ys = omega arith
sum_of-append (x ∷ r) ys = let h = sum_of-append r ys in omega arith

-- Words with the checksum of all the others in place of 0 have the checksum 0, wherever it stands, and
-- with any start (the sum of a pseudo header), as long as the sum fits 32 bits with one word to spare.
pub in_csum-in_csum :
    (before after : List ℕ) (csum : ℕ)
    → csum + sum_of before + sum_of after + 2 ^ 16 < 2 ^ 32
    → in_csum (before ++ in_csum (before ++ 0 ∷ after) csum ∷ after) csum ≡ 0
unfolding in_csum
in_csum-in_csum before after csum fits =
    let zeroed = before ++ 0 ∷ after in
    let s = csum + sum_of before + sum_of after in
    let sum_zeroed : add_words zeroed csum ≡ s =
      let h = sum_of-append before (0 ∷ after) in
      add_words_sum zeroed csum (omega arith) ∙ omega arith in
    let c = 2 ^ 16 - 1 - fold_carries s % 2 ^ 16 in
    let sum_filled : add_words (before ++ c ∷ after) csum ≡ s + c =
      let h = sum_of-append before (c ∷ after) in
      add_words_sum (before ++ c ∷ after) csum (omega arith) ∙ omega arith in
    rw sum_zeroed (rw sum_filled (complement s fits))
