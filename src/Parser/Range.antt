-- ===== src/Parser/Range.antt =====
-- lib/parser.c: a number that is taken lies in the range, and is the number that is given.
use keepalived.Common.{ℕ, ◌^◌, ◌<◌, ◌≤◌, Bool, true, ◌≡◌, some, List, arith}
use keepalived.Parser.{Parsed, skip_space, read_unsigned_func}

-- A number that read_unsigned_func takes, with an upper limit of 32 bits, is what strtoul has read, and
-- lies in the range, even where an error is ignored.
pub read_unsigned_func-within :
    (strtoull : List ℕ → Parsed) (testing : Bool) (number : List ℕ) (min_val max_val : ℕ)
    (ignore_error : Bool)
    → max_val < 2 ^ 32
    → (read_unsigned_func strtoull testing number min_val max_val ignore_error).1 ≡ true
    → (min_val ≤ (strtoull (skip_space number)).val)
      × ((strtoull (skip_space number)).val ≤ max_val)
      × ((read_unsigned_func strtoull testing number min_val max_val ignore_error).0
          ≡ some (strtoull (skip_space number)).val)
unfolding read_unsigned_func
read_unsigned_func-within strtoull testing number min_val max_val ignore_error h k =
    (ground arith, ground arith, ground arith)
