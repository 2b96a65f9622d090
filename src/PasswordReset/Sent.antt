-- ===== src/PasswordReset/Sent.antt =====
-- What a message with a link says, and the rows that go with it.
use autentico.Prelude.{
  ◌≡◌, refl, ap, String, false, none, some, List, ◌∷◌, ◌+◌, ◌==◌, arith, is_empty, is_none, ◌⊎◌, [],
  eq_iff, if◌then◌else◌, Option-cases, Bool-cases, inl, inr,
}
use autentico.Schema.{PasswordResetToken}
use autentico.Env.{Env}
use autentico.Sql.{modify}
use autentico.Text.{append}
use autentico.PasswordReset.{OauthParams, build_reset_url, used_now, is_unused_of}

-- The value of a parameter, "" if it is missing.
abbrev pub query_value : String → List (String × String) → String
query_value name [] = ""
query_value name ((n, v) ∷ rest) = if n == name then v else query_value name rest

-- The link leads to the page for a new password and has the token and the parameters of the
-- request: a nonce and a code challenge only if there are any.
pub record IsLinkTo (env : Env) (p : OauthParams) (raw : String)
    (link : String × List (String × String)) : Type 0 where
  pub target : link.0 ≡ append env.app_url (append env.oauth_path "/reset-password?")
  pub token : query_value "token" link.1 ≡ raw
  pub redirect_uri : query_value "redirect_uri" link.1 ≡ p.redirect_uri
  pub state : query_value "state" link.1 ≡ p.state
  pub client_id : query_value "client_id" link.1 ≡ p.client_id
  pub scope : query_value "scope" link.1 ≡ p.scope
  pub nonce : query_value "nonce" link.1 ≡ p.nonce
  pub code_challenge : query_value "code_challenge" link.1 ≡ p.code_challenge
  pub code_challenge_method :
      (p.code_challenge ≡ "")
      ⊎ (query_value "code_challenge_method" link.1 ≡ p.code_challenge_method)

pub build_reset_url-IsLinkTo :
    (env : Env) (raw : String) (p : OauthParams) → IsLinkTo env p raw (build_reset_url env raw p)
build_reset_url-IsLinkTo env raw p =
    let quiet = eq_iff p.nonce "" in
    let plain = eq_iff p.code_challenge "" in
    record {
      target = refl;
      token = refl;
      redirect_uri = refl;
      state = refl;
      client_id = refl;
      scope = refl;
      nonce = ground (arith, quiet, plain);
      code_challenge = ground (arith, quiet, plain);
      code_challenge_method = elim (Bool-cases (is_empty p.code_challenge)) [
        | inl without ↦ inl (plain.0 without)
        | inr pkce ↦ inr (ground (arith, pkce))
      ];
    }

-- A row that a new link leaves alone, or puts out of use.
abbrev pub Retires : Env → String → PasswordResetToken → PasswordResetToken → Type 0
Retires env user_id x y =
    ((x.user_id ≡ user_id) × (x.used_at ≡ none) × (y ≡ record x { used_at = some env.now }))
    ⊎ (((x.user_id == user_id) ≡ false) × (y ≡ x))
    ⊎ ((is_none x.used_at ≡ false) × (y ≡ x))

pub used_now-Retires :
    (env : Env) (user_id : String) (x : PasswordResetToken)
    → Retires env user_id x (modify (is_unused_of user_id) (used_now env) x)
used_now-Retires env user_id x = elim (Bool-cases (x.user_id == user_id)) [
  | inr other ↦ inr (inl (other, rw other refl))
  | inl own ↦ elim (Option-cases x.used_at) [
    | inr (t, used) ↦ inr (inr (ap is_none used, ground (arith, used)))
    | inl live ↦ inl ((eq_iff x.user_id user_id).0 own, live, rw own (rw live refl))
  ]
]

-- The new row; the rows behind it are those of before, the unused ones of the user out of use.
pub record IsLinkRow (env : Env) (user_id raw : String) (row : PasswordResetToken) : Type 0 where
  pub owner : row.user_id ≡ user_id
  pub hash : row.token_hash ≡ env.hash_sha256 raw
  pub expires_at : row.expires_at ≡ env.now + env.config.password_reset_expiration
  pub unused : row.used_at ≡ none
