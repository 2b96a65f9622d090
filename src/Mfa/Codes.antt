-- ===== src/Mfa/Codes.antt =====
-- The codes that are sent by e-mail.
use Prim.Native.Char.{Char, code}
use Prim.Native.Nat.{◌%◌}
use autentico.Prelude.{
  ℕ, ◌+◌, ◌*◌, ◌/◌, ◌<◌, suc, zero, String, ◌≡◌, refl, sym, ap, ◌∙◌, some, arith,
}
use autentico.Env.{Env}
use autentico.DeviceCode.Authorize.{pick, size}
use autentico.Authorize.MaxAge.{digits}
use autentico.Mfa.{last_digits, generate_email_otp}

abbrev ten_digits : String
ten_digits = "0123456789"

-- The digit of a number below ten.
pick-digit :
    (d : ℕ) (rest : String)
    → d < 10
    → (c : Char) × (pick ten_digits d rest ≡ String.◌∷◌ c rest) × (code c ≡ 48 + d)
unfolding pick
pick-digit zero rest h = (_, refl, refl)
pick-digit (suc zero) rest h = (_, refl, refl)
pick-digit (suc (suc zero)) rest h = (_, refl, refl)
pick-digit (suc (suc (suc zero))) rest h = (_, refl, refl)
pick-digit (suc (suc (suc (suc zero)))) rest h = (_, refl, refl)
pick-digit (suc (suc (suc (suc (suc zero))))) rest h = (_, refl, refl)
pick-digit (suc (suc (suc (suc (suc (suc zero)))))) rest h = (_, refl, refl)
pick-digit (suc (suc (suc (suc (suc (suc (suc zero))))))) rest h = (_, refl, refl)
pick-digit (suc (suc (suc (suc (suc (suc (suc (suc zero)))))))) rest h = (_, refl, refl)
pick-digit (suc (suc (suc (suc (suc (suc (suc (suc (suc zero))))))))) rest h = (_, refl, refl)
pick-digit (suc (suc (suc (suc (suc (suc (suc (suc (suc (suc d)))))))))) rest h =
    absurd (ground arith)

digits-pick :
    (acc d : ℕ) (rest : String)
    → d < 10
    → digits acc (pick ten_digits d rest) ≡ digits (acc * 10 + d) rest
unfolding digits
digits-pick acc d rest h =
    let (c, written, number) = pick-digit d rest h in
    ap (digits acc) written ∙ ground (arith, number)

size-pick : (d : ℕ) (rest : String) → d < 10 → size (pick ten_digits d rest) ≡ suc (size rest)
unfolding size
size-pick d rest h = let (c, written, number) = pick-digit d rest h in ap size written

size-last_digits : (k n : ℕ) (rest : String) → size (last_digits k n rest) ≡ k + size rest
unfolding last_digits
size-last_digits zero n rest = ground arith
size-last_digits (suc k) n rest =
    size-last_digits k (n / 10) (pick ten_digits (n % 10) rest)
    ∙ ground (arith, size-pick (n % 10) rest (ground arith))

-- The number that six digits read as.
abbrev horner : ℕ → ℕ → ℕ → ℕ → ℕ → ℕ → ℕ
horner a b c d e f = (((((0 * 10 + a) * 10 + b) * 10 + c) * 10 + d) * 10 + e) * 10 + f

horner-digits :
    (a b c d e f : ℕ)
    → a < 10
    → b < 10
    → c < 10
    → d < 10
    → e < 10
    → f < 10
    → digits 0 (
        pick ten_digits a (
          pick ten_digits b
            (pick ten_digits c (pick ten_digits d (pick ten_digits e (pick ten_digits f ""))))))
      ≡ some (horner a b c d e f)
horner-digits a b c d e f ha hb hc hd he hf =
    digits-pick 0 a _ ha
    ∙ digits-pick (0 * 10 + a) b _ hb
    ∙ digits-pick ((0 * 10 + a) * 10 + b) c _ hc
    ∙ digits-pick (((0 * 10 + a) * 10 + b) * 10 + c) d _ hd
    ∙ digits-pick ((((0 * 10 + a) * 10 + b) * 10 + c) * 10 + d) e _ he
    ∙ digits-pick (((((0 * 10 + a) * 10 + b) * 10 + c) * 10 + d) * 10 + e) f "" hf
    ∙ unfold digits in refl

last_digits-read : (n : ℕ) → n < 1000000 → digits 0 (last_digits 6 n "") ≡ some n
unfolding last_digits
last_digits-read n small =
    let n1 = n / 10 in
    let n2 = n1 / 10 in
    let n3 = n2 / 10 in
    let n4 = n3 / 10 in
    let n5 = n4 / 10 in
    horner-digits (n5 % 10) (n4 % 10) (n3 % 10) (n2 % 10) (n1 % 10) (n % 10) (ground arith)
      (ground arith) (ground arith) (ground arith) (ground arith) (ground arith)
    ∙ ap some (omega arith)

-- A code for an e-mail that is made from a number below a million has six characters, and they
-- read as that number: the codes of different numbers differ.
pub otp-digits :
    (env : Env) (n : ℕ) (otp : String)
    → env.random_below 1000000 ≡ some n
    → n < 1000000
    → generate_email_otp env ≡ some otp
    → (size otp ≡ 6) × (digits 0 otp ≡ some n)
unfolding generate_email_otp
otp-digits env n otp drawn small made =
    let same : last_digits 6 n "" ≡ otp = ground (arith, drawn, made) in
    (
      ap size (sym same) ∙ size-last_digits 6 n "" ∙ unfold size in ground arith,
      ap (digits 0) (sym same) ∙ last_digits-read n small,
    )
