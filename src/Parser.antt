-- ===== src/Parser.antt =====
-- lib/parser.c: the readers of unsigned numbers, in a build without strict configuration. A string is
-- the list of its characters. strtoull of the C library is an argument; strtoul is the same function
-- where unsigned long has 64 bits. What a reader writes through `res` is its first result, `none` where
-- it returns before that. Reports of errors are left out.
pub mod Decimal
pub mod Range
mod Tests
use keepalived.Common.{
  ℕ, suc, zero, ◌-◌, ◌+◌, ◌%◌, ◌^◌, Bool, true, false, not, ◌&&◌, ◌||◌, ltb, leb, ◌==◌,
  if◌then◌else◌, Option, none, some, List, [], ◌∷◌, ◌++◌, length,
}

-- The value, whether all of the string was read, and whether errno is ERANGE.
pub record Parsed : Type 0 where
  pub val : ℕ
  pub whole : Bool
  pub erange : Bool

abbrev minus : ℕ
minus = 45

abbrev pub point : ℕ
point = 46

abbrev pub digit_zero : ℕ
digit_zero = 48

abbrev pub digit_five : ℕ
digit_five = 53

unfoldable pub is_space : ℕ → Bool
is_space c = (c == 32) || (c == 9) || (c == 10) || (c == 11) || (c == 12) || (c == 13)

-- strspn with WHITE_SPACE, and what comes after it.
unfoldable pub skip_space : List ℕ → List ℕ
skip_space [] = []
skip_space (c ∷ cs) = let rest = skip_space cs in if is_space c then rest else c ∷ cs

unfoldable pub is_negative : List ℕ → Bool
is_negative [] = false
is_negative (c ∷ cs) = c == minus

abbrev pub within : ℕ → ℕ → ℕ → Bool
within val min_val max_val = leb min_val val && leb val max_val

-- `testing` is CONFIG_TEST_BIT.
unfoldable pub read_unsigned_func :
    (List ℕ → Parsed) → Bool → List ℕ → ℕ → ℕ → Bool → Option ℕ × Bool
read_unsigned_func strtoull testing number min_val max_val ignore_error =
    let text = skip_space number in
    let p = strtoull text in
    let tolerated = ignore_error && within p.val min_val max_val && not testing in
    (
      some (p.val % 2 ^ 32),
      (if is_negative text
          then tolerated
          else if not p.whole
          then tolerated
          else if p.erange || ltb (2 ^ 32 - 1) p.val
          then tolerated
          else if not (within p.val min_val max_val)
          then tolerated
          else true),
    )

-- The value is converted to unsigned here too.
unfoldable pub read_unsigned64_func :
    (List ℕ → Parsed) → Bool → List ℕ → ℕ → ℕ → Bool → Option ℕ × Bool
read_unsigned64_func strtoull testing number min_val max_val ignore_error =
    let text = skip_space number in
    let p = strtoull text in
    let tolerated = ignore_error && within p.val min_val max_val && not testing in
    (
      some (p.val % 2 ^ 32),
      (if is_negative text
          then tolerated
          else if not p.whole
          then tolerated
          else if p.erange
          then tolerated
          else if not (within p.val min_val max_val)
          then tolerated
          else true),
    )

unfoldable pub before_point : List ℕ → List ℕ
before_point [] = []
before_point (c ∷ cs) = let rest = before_point cs in if c == point then [] else c ∷ rest

unfoldable pub after_point : List ℕ → List ℕ
after_point [] = []
after_point (c ∷ cs) = let rest = after_point cs in if c == point then cs else rest

unfoldable pub take : ℕ → List ℕ → List ℕ
take zero cs = []
take (suc n) [] = []
take (suc n) (c ∷ cs) = c ∷ take n cs

unfoldable pub zeroes : ℕ → List ℕ
zeroes zero = []
zeroes (suc n) = digit_zero ∷ zeroes n

-- Whether the first decimal place too many is 5 at least.
unfoldable pub rounds_up : ℕ → List ℕ → Bool
rounds_up n [] = false
rounds_up zero (c ∷ cs) = leb digit_five c
rounds_up (suc n) (c ∷ cs) = rounds_up n cs

-- The string without its point, with as many places as the shift.
unfoldable pub updated_param : List ℕ → ℕ → List ℕ
updated_param param shift =
    let places = take shift (after_point param) in
    before_point param ++ (places ++ zeroes (shift - length places))

unfoldable pub read_decimal_unsigned_long_func :
    (List ℕ → Parsed) → List ℕ → ℕ → ℕ → ℕ → Bool → Option ℕ × Bool
read_decimal_unsigned_long_func strtoull param min_val max_val shift ignore_error =
    let p = strtoull (updated_param param shift) in
    let val = if rounds_up shift (after_point param) then (p.val + 1) % 2 ^ 64 else p.val in
    if is_negative param
    then (none, false)
    else if not p.whole
    then (some val, ignore_error && within val min_val max_val)
    else if p.erange
    then (some val, false)
    else if not (within val min_val max_val)
    then (some val, ignore_error && within val min_val max_val)
    else (some val, true)

-- *res is written only where the number is taken.
unfoldable pub given : Option ℕ × Bool → (ℕ → ℕ) → Option ℕ × Bool
given (none, ok) f = (none, ok)
given (some n, ok) f = ((if ok then some (f n) else none), ok)

unfoldable pub read_decimal_unsigned_func :
    (List ℕ → Parsed) → List ℕ → ℕ → ℕ → ℕ → Bool → Option ℕ × Bool
read_decimal_unsigned_func strtoull str min_val max_val shift ignore_error =
    given (read_decimal_unsigned_long_func strtoull str min_val max_val shift ignore_error)
      (λ n. n % 2 ^ 32)

-- TIMER_MAXIMUM
abbrev pub timer_maximum : ℕ
timer_maximum = 2 ^ 64 - 2

-- Microseconds; a maximum of 0 stands for TIMER_MAXIMUM.
unfoldable pub read_timer : (List ℕ → Parsed) → List ℕ → ℕ → ℕ → Bool → Option ℕ × Bool
read_timer strtoull str min_time max_time ignore_error =
    given
      (read_decimal_unsigned_long_func strtoull str min_time
        (if max_time == 0 then timer_maximum else max_time) 6 ignore_error)
      (λ n. n)
