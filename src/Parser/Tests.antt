-- ===== src/Parser/Tests.antt =====
-- lib/parser.c: numbers read with a strtoull that knows digits only.
use keepalived.Common.{ℕ, ◌≤◌, true, false, ◌≡◌, refl, some, List, [], ◌∷◌, arith}
use keepalived.Parser.{
  Parsed, take, rounds_up, skip_space, is_space, is_negative, read_unsigned_func,
  read_decimal_unsigned_long_func,
}
use keepalived.Parser.Decimal.{value, decimal, read_decimal_unsigned_long_func-decimal}
use keepalived.Parser.Range.{read_unsigned_func-within}

-- What strtoull does with strings of digits; other strings are of no account here.
abbrev digits_only : List ℕ → Parsed
digits_only cs = record { val = value 0 cs; whole = true; erange = false }

-- 3.312 with 3 places
read_decimal_unsigned_long_func-decimal_example :
    read_decimal_unsigned_long_func digits_only (51 ∷ 46 ∷ 51 ∷ 49 ∷ 50 ∷ []) 0 10000 3 false
    ≡ (some (decimal (51 ∷ []) (51 ∷ 49 ∷ 50 ∷ []) 3), true)
unfolding decimal value take rounds_up
read_decimal_unsigned_long_func-decimal_example =
    read_decimal_unsigned_long_func-decimal digits_only 51 [] (51 ∷ 49 ∷ 50 ∷ []) 0 10000 3 false
      (λ cs a h. refl) ((omega arith, omega arith), tt)
      ((omega arith, omega arith), ((omega arith, omega arith), ((omega arith, omega arith), tt)))
      (omega arith) (omega arith) (omega arith)

-- 42
read_unsigned_func-within_example :
    (1 ≤ (digits_only (skip_space (52 ∷ 50 ∷ []))).val)
    × ((digits_only (skip_space (52 ∷ 50 ∷ []))).val ≤ 255)
    × ((read_unsigned_func digits_only false (52 ∷ 50 ∷ []) 1 255 false).0
        ≡ some (digits_only (skip_space (52 ∷ 50 ∷ []))).val)
unfolding read_unsigned_func skip_space is_space is_negative value
read_unsigned_func-within_example =
    read_unsigned_func-within digits_only false (52 ∷ 50 ∷ []) 1 255 false (omega arith) refl

-- 5000000000
abbrev five_billion : List ℕ
five_billion = 53 ∷ 48 ∷ 48 ∷ 48 ∷ 48 ∷ 48 ∷ 48 ∷ 48 ∷ 48 ∷ 48 ∷ []
