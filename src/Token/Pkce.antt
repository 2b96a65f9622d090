-- ===== src/Token/Pkce.antt =====
-- PKCE at the token endpoint: validateCodeVerifier and verifyCodeChallenge of
-- pkg/token/authorization_code.go.
use Prim.Native.Char.{code}
use Prim.Native.String.{len}
use autentico.Prelude.{
  ℕ, ◌≤◌, String, ◌≡◌, refl, Bool, true, false, ◌==◌, ◌&&◌, ◌||◌, ◌↔◌, inl, inr, arith, ltb, leb,
  nat_eq, eq_iff, eq_refl, sym, Bool-cases, if◌then◌else◌,
}
use autentico.Env.{Env}

-- A character of the class [A-Za-z0-9\-._~].
unfoldable pub is_unreserved : ℕ → Bool
is_unreserved c =
    (leb b'A' c && leb c b'Z')
    || (leb b'a' c && leb c b'z')
    || (leb b'0' c && leb c b'9')
    || nat_eq c b'-'
    || nat_eq c b'.'
    || nat_eq c b'_'
    || nat_eq c b'~'

unfoldable pub all_unreserved : String → Bool
all_unreserved String.[] = true
all_unreserved (String.◌∷◌ c s) = is_unreserved (code c) && all_unreserved s

-- `codeVerifierRe.MatchString(v)`: one or more unreserved characters and nothing else.
unfoldable pub matches_verifier : String → Bool
unfolding all_unreserved
matches_verifier String.[] = false
matches_verifier (String.◌∷◌ c s) = all_unreserved (String.◌∷◌ c s)

-- validateCodeVerifier(v) == nil.
unfoldable pub validate_code_verifier : String → Bool
unfolding matches_verifier
validate_code_verifier v = if ltb (len v) 43 || ltb 128 (len v) then false else matches_verifier v

unfoldable pub verify_code_challenge : Env → String → String → String → Bool
verify_code_challenge env code_challenge method code_verifier =
    if method == "S256" || method == ""
    then env.sha256_base64 code_verifier == code_challenge
    else if method == "plain"
    then code_verifier == code_challenge
    else false

-- The transformation of the verifier that a method stands for.
pub data Transforms (env : Env) (verifier : String) : String → String → Type 0 where
  s256 : Transforms env verifier "S256" (env.sha256_base64 verifier)
  default : Transforms env verifier "" (env.sha256_base64 verifier)
  plain : Transforms env verifier "plain" verifier

-- The challenge test accepts exactly the transformation of the verifier that the method stands
-- for: the hash for "S256" and for no method, the verifier itself for "plain", nothing otherwise.
pub verify_code_challenge_iff :
    (env : Env) (challenge method verifier : String)
    → (verify_code_challenge env challenge method verifier ≡ true)
      ↔ Transforms env verifier method challenge
unfolding verify_code_challenge
verify_code_challenge_iff env challenge method verifier = (
  λ h. elim (Bool-cases (method == "S256")) [
    | inl e ↦
        rw
          (
            (eq_iff method "S256").0 e,
            sym ((eq_iff (env.sha256_base64 verifier) challenge).0 (ground arith)),
          )
          Transforms.s256
    | inr e ↦ elim (Bool-cases (method == "")) [
      | inl f ↦
          rw
            (
              (eq_iff method "").0 f,
              sym ((eq_iff (env.sha256_base64 verifier) challenge).0 (ground arith)),
            )
            Transforms.default
      | inr f ↦
          rw
            (
              (eq_iff method "plain").0 (ground arith),
              sym ((eq_iff verifier challenge).0 (ground arith)),
            )
            Transforms.plain
    ]
  ],
  accepted,
)
  where
    accepted :
        {m c : String} → Transforms env verifier m c → verify_code_challenge env c m verifier ≡ true
    accepted Transforms.s256 = eq_refl (env.sha256_base64 verifier)
    accepted Transforms.default = eq_refl (env.sha256_base64 verifier)
    accepted Transforms.plain = eq_refl verifier

matches-unreserved : (v : String) → 1 ≤ len v → matches_verifier v ≡ all_unreserved v
unfolding matches_verifier
matches-unreserved String.[] h = absurd (omega arith)
matches-unreserved (String.◌∷◌ c s) h = refl

-- A verifier is accepted exactly when it has 43 to 128 characters, all of them unreserved.
pub validate_code_verifier_iff :
    (v : String)
    → (validate_code_verifier v ≡ true) ↔ ((43 ≤ len v) × (len v ≤ 128) × (all_unreserved v ≡ true))
unfolding validate_code_verifier
validate_code_verifier_iff v = (
  λ h.
      let short : 43 ≤ len v = ground arith in
      (short, ground arith, ground (arith, matches-unreserved v (omega arith))),
  λ (low, high, chars). ground (arith, matches-unreserved v (omega arith)),
)
