-- ===== src/Authorize/MaxAge.antt =====
-- The max_age parameter: parseMaxAge of pkg/authorize/handler.go with strconv.ParseInt for base 10
-- and 64 bits, and the comparison of a session's age with it.
pub mod Bounds
use Prim.Native.Char.{code}
use autentico.Prelude.{
  ℕ, ◌+◌, ◌-◌, ◌*◌, String, Bool, true, false, Option, none, some, ◌&&◌, leb, ltb, nat_eq, is_empty,
  if◌then◌else◌,
}
use Prim.Native.Nat.{◌%◌}
use autentico.Schema.{second}

-- Digits to a number, behind the digits that were read.
unfoldable pub digits : ℕ → String → Option ℕ
digits acc String.[] = some acc
digits acc (String.◌∷◌ c s) =
    let rest = digits (acc * 10 + (code c - 48)) s in
    if leb 48 (code c) && leb (code c) 57 then rest else none

unfoldable pub parse_digits : String → Option ℕ
unfolding digits
parse_digits s = if is_empty s then none else digits 0 s

abbrev pub int64_bound : ℕ
int64_bound = 9223372036854775808

-- Two to the power of 64.
abbrev pub uint64_bound : ℕ
uint64_bound = 18446744073709551616

unfoldable pub in_range : Option ℕ → Option ℕ
in_range none = none
in_range (some n) = if ltb n int64_bound then some n else none

-- Behind a minus sign, only the number 0 is not negative.
unfoldable pub negated : Option ℕ → Option ℕ
negated none = none
negated (some n) = if nat_eq n 0 then some 0 else none

-- `none` is the code's -1: there is no limit.
unfoldable pub parse_max_age : String → Option ℕ
unfolding parse_digits in_range negated
parse_max_age String.[] = none
parse_max_age (String.◌∷◌ c s) =
    if nat_eq (code c) b'+'
    then in_range (parse_digits s)
    else if nat_eq (code c) b'-'
    then negated (parse_digits s)
    else in_range (parse_digits (String.◌∷◌ c s))

-- `time.Duration(n)*time.Second` in int64, as the number that it is modulo two to the power of 64.
unfoldable pub seconds : ℕ → ℕ
seconds n = (n * second) % uint64_bound

-- `time.Since(created) > d` for the int64 that `d` stands for.
unfoldable pub is_older : ℕ → ℕ → ℕ → Bool
is_older now created d =
    if ltb d int64_bound then ltb (created + d) now else ltb created (now + (uint64_bound - d))

unfoldable pub exceeds_max_age : ℕ → ℕ → String → Bool
unfolding parse_max_age seconds is_older
exceeds_max_age now created max_age = elim (parse_max_age max_age) [
  | none ↦ false
  | some n ↦ is_older now created (seconds n)
]
