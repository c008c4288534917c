-- ===== src/Parser/Decimal.antt =====
-- lib/parser.c: the value of a decimal number.
use keepalived.Common.{
  ℕ, suc, zero, ◌+◌, ◌-◌, ◌*◌, ◌^◌, ◌<◌, ◌≤◌, Bool, true, false, ◌==◌, if◌then◌else◌, if_false, ◌≡◌,
  refl, sym, ap, ◌∙◌, subst, some, List, [], ◌∷◌, ◌++◌, length, All, arith,
}
use native.Mathlib.Nat.{pow-suc, mul_assoc, mul_comm}
use keepalived.Parser.{
  Parsed, point, digit_zero, is_negative, before_point, after_point, take, zeroes, rounds_up,
  updated_param, read_decimal_unsigned_long_func,
}

abbrev pub IsDigit : ℕ → Type 0
IsDigit c = (digit_zero ≤ c) × (c < digit_zero + 10)

-- The value of digits after those of a number.
unfoldable pub value : ℕ → List ℕ → ℕ
value n [] = n
value n (c ∷ cs) = value (n * 10 + (c - digit_zero)) cs

value-append : (n : ℕ) (xs ys : List ℕ) → value n (xs ++ ys) ≡ value (value n xs) ys
unfolding value
value-append n [] ys = refl
value-append n (x ∷ xs) ys = value-append (n * 10 + (x - digit_zero)) xs ys

drop_zero : (m : ℕ) → m + 0 ≡ m
drop_zero m = omega arith

value-zeroes : (k n : ℕ) → value n (zeroes k) ≡ n * 10 ^ k
unfolding value zeroes
value-zeroes zero n = omega arith
value-zeroes (suc k) n =
    value-zeroes k (n * 10 + 0)
    ∙ ap (λ x. x * 10 ^ k) (drop_zero (n * 10))
    ∙ mul_assoc n 10 (10 ^ k)
    ∙ ap (λ x. n * x) (mul_comm 10 (10 ^ k) ∙ sym (pow-suc 10 k))

before_point-append : (ds fs : List ℕ) → All IsDigit ds → before_point (ds ++ point ∷ fs) ≡ ds
unfolding before_point
before_point-append [] fs a = refl
before_point-append (d ∷ ds) fs a =
    if_false (d == point) [] _ (ground arith) ∙ ap (λ x. d ∷ x) (before_point-append ds fs a.1)

after_point-append : (ds fs : List ℕ) → All IsDigit ds → after_point (ds ++ point ∷ fs) ≡ fs
unfolding after_point
after_point-append [] fs a = refl
after_point-append (d ∷ ds) fs a =
    if_false (d == point) (ds ++ point ∷ fs) _ (ground arith) ∙ after_point-append ds fs a.1

All-append {κ} : (P : ℕ → Type κ) (xs ys : List ℕ) → All P xs → All P ys → All P (xs ++ ys)
All-append P [] ys a b = b
All-append P (x ∷ xs) ys a b = (a.0, All-append P xs ys a.1 b)

All-take {κ} : (P : ℕ → Type κ) (n : ℕ) (xs : List ℕ) → All P xs → All P (take n xs)
unfolding take
All-take P zero xs a = tt
All-take P (suc n) [] a = tt
All-take P (suc n) (x ∷ xs) a = (a.0, All-take P n xs a.1)

All-zeroes : (n : ℕ) → All IsDigit (zeroes n)
unfolding zeroes
All-zeroes zero = tt
All-zeroes (suc n) = ((omega arith, omega arith), All-zeroes n)

-- The digits before the point and as many after it as the shift, filled up with zeroes, and one more
-- where the first place too many is 5 at least.
unfoldable pub decimal : List ℕ → List ℕ → ℕ → ℕ
decimal ds fs shift =
    value 0 (ds ++ take shift fs) * 10 ^ (shift - length (take shift fs))
    + (if rounds_up shift fs then 1 else 0)

value-updated_param :
    (ds fs : List ℕ) (shift : ℕ)
    → All IsDigit ds
    → value 0 (updated_param (ds ++ point ∷ fs) shift) + (if rounds_up shift fs then 1 else 0)
      ≡ decimal ds fs shift
unfolding updated_param decimal
value-updated_param ds fs shift a =
    let places = take shift fs in
    let n = shift - length places in
    ap (λ x. value 0 x + (if rounds_up shift fs then 1 else 0))
      (ap
          (λ b.
            b
            ++ (take shift (after_point (ds ++ point ∷ fs))
                ++ zeroes (shift - length (take shift (after_point (ds ++ point ∷ fs))))))
          (before_point-append ds fs a)
        ∙ ap (λ b. ds ++ (take shift b ++ zeroes (shift - length (take shift b))))
            (after_point-append ds fs a))
    ∙ ap (λ x. x + (if rounds_up shift fs then 1 else 0))
        (value-append 0 ds (places ++ zeroes n)
          ∙ value-append (value 0 ds) places (zeroes n)
          ∙ value-zeroes n (value (value 0 ds) places)
          ∙ ap (λ x. x * 10 ^ n) (sym (value-append 0 ds places)))

updated_param-IsDigit :
    (ds fs : List ℕ) (shift : ℕ)
    → All IsDigit ds
    → All IsDigit fs
    → All IsDigit (updated_param (ds ++ point ∷ fs) shift)
unfolding updated_param
updated_param-IsDigit ds fs shift a b =
    let rest = after_point-append ds fs a in
    All-append IsDigit (before_point (ds ++ point ∷ fs)) _
      (subst (All IsDigit) (sym (before_point-append ds fs a)) a)
      (All-append IsDigit (take shift (after_point (ds ++ point ∷ fs))) _
        (All-take IsDigit shift _ (subst (All IsDigit) (sym rest) b))
        (All-zeroes (shift - length (take shift (after_point (ds ++ point ∷ fs))))))

not_negative : (d : ℕ) (ds fs : List ℕ) → IsDigit d → is_negative (d ∷ ds ++ point ∷ fs) ≡ false
unfolding is_negative
not_negative d ds fs a = ground arith

taken :
    (strtoull : List ℕ → Parsed) (param : List ℕ) (n min_val max_val shift : ℕ)
    (ignore_error : Bool)
    → is_negative param ≡ false
    → strtoull (updated_param param shift) ≡ record { val = n; whole = true; erange = false }
    → n + (if rounds_up shift (after_point param) then 1 else 0) < 2 ^ 64
    → min_val ≤ n + (if rounds_up shift (after_point param) then 1 else 0)
    → n + (if rounds_up shift (after_point param) then 1 else 0) ≤ max_val
    → read_decimal_unsigned_long_func strtoull param min_val max_val shift ignore_error
      ≡ (some (n + (if rounds_up shift (after_point param) then 1 else 0)), true)
unfolding read_decimal_unsigned_long_func
taken strtoull param n min_val max_val shift ignore_error s e fits low high =
    rw (e, s) (ground arith)

-- A number of digits, a point and digits, of any length. Where strtoull gives the value of every string
-- of digits that fits 64 bits, the reader takes the number if its value, in units of the last place
-- of the shift and rounded by the first digit too many, fits 64 bits and lies in the range; and gives
-- exactly that value.
pub read_decimal_unsigned_long_func-decimal :
    (strtoull : List ℕ → Parsed) (d : ℕ) (ds fs : List ℕ) (min_val max_val shift : ℕ)
    (ignore_error : Bool)
    → ((cs : List ℕ)
        → All IsDigit cs
        → value 0 cs < 2 ^ 64
        → strtoull cs ≡ record { val = value 0 cs; whole = true; erange = false })
    → All IsDigit (d ∷ ds)
    → All IsDigit fs
    → decimal (d ∷ ds) fs shift < 2 ^ 64
    → min_val ≤ decimal (d ∷ ds) fs shift
    → decimal (d ∷ ds) fs shift ≤ max_val
    → read_decimal_unsigned_long_func strtoull
        (d ∷ ds ++ point ∷ fs)
        min_val
        max_val
        shift
        ignore_error
      ≡ (some (decimal (d ∷ ds) fs shift), true)
read_decimal_unsigned_long_func-decimal strtoull d ds fs min_val max_val shift ignore_error reads a
      b fits low high =
    let param = d ∷ ds ++ point ∷ fs in
    let u = updated_param param shift in
    let extra = if rounds_up shift (after_point param) then 1 else 0 in
    let v : value 0 u + extra ≡ decimal (d ∷ ds) fs shift =
      ap (λ x. value 0 u + (if rounds_up shift x then 1 else 0)) (after_point-append (d ∷ ds) fs a)
      ∙ value-updated_param (d ∷ ds) fs shift a in
    taken strtoull param (value 0 u) min_val max_val shift ignore_error (not_negative d ds fs a.0)
      (reads u (updated_param-IsDigit (d ∷ ds) fs shift a b) (omega (arith, v))) (omega (arith, v))
      (omega (arith, v)) (omega (arith, v))
    ∙ ap (λ x. (some x, true)) v
