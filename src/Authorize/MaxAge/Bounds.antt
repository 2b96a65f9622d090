-- ===== src/Authorize/MaxAge/Bounds.antt =====
-- The numbers that max_age can be, and what a session that passes has for an age.
use Prim.Native.Char.{code}
use autentico.Prelude.{
  ℕ, ◌+◌, ◌*◌, String, ◌≡◌, ◌<◌, ◌≤◌, false, Option, none, some, arith, ltb, nat_eq, Bool-cases,
  inl, inr,
}
use autentico.Schema.{second}
use autentico.Authorize.MaxAge.{
  parse_max_age, in_range, negated, parse_digits, int64_bound, seconds, is_older, exceeds_max_age,
}

in_range-bound : (o : Option ℕ) (n : ℕ) → in_range o ≡ some n → n < int64_bound
unfolding in_range
in_range-bound none n h = absurd (ground arith)
in_range-bound (some m) n h = elim (Bool-cases (ltb m int64_bound)) [
  | inl small ↦ ground (arith, small)
  | inr large ↦ absurd (ground (arith, large))
]

negated-bound : (o : Option ℕ) (n : ℕ) → negated o ≡ some n → n < int64_bound
unfolding negated
negated-bound none n h = absurd (ground arith)
negated-bound (some m) n h = elim (Bool-cases (nat_eq m 0)) [
  | inl zero ↦ ground (arith, zero)
  | inr more ↦ absurd (ground (arith, more))
]

-- A max_age that is read as a number is one of an int64.
pub parse_max_age-bound : (s : String) (n : ℕ) → parse_max_age s ≡ some n → n < int64_bound
unfolding parse_max_age
parse_max_age-bound String.[] n h = absurd (ground arith)
parse_max_age-bound (String.◌∷◌ c s) n h = elim (Bool-cases (nat_eq (code c) b'+')) [
  | inl plus ↦ in_range-bound (parse_digits s) n (ground (arith, plus))
  | inr unsigned ↦ elim (Bool-cases (nat_eq (code c) b'-')) [
    | inl minus ↦ negated-bound (parse_digits s) n (ground (arith, minus))
    | inr digit ↦ in_range-bound (parse_digits (String.◌∷◌ c s)) n (ground (arith, digit))
  ]
]

-- Up to 292 years, no product overflows.
abbrev pub longest : ℕ
longest = 9223372036

seconds_small : (n : ℕ) → n ≤ longest → (seconds n ≡ n * second) × (n * second < int64_bound)
unfolding seconds
seconds_small n h = (ground arith, ground arith)

-- A session that a max_age of up to 292 years lets pass is no older than that.
pub exceeds_max_age-false :
    (now created : ℕ) (s : String) (n : ℕ)
    → parse_max_age s ≡ some n
    → n ≤ longest
    → exceeds_max_age now created s ≡ false
    → now ≤ created + n * second
unfolding exceeds_max_age is_older
exceeds_max_age-false now created s n parsed short passes =
    let (exact, small) = seconds_small n short in ground (arith, parsed, exact, small)
