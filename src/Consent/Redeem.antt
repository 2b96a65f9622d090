-- ===== src/Consent/Redeem.antt =====
-- A granted code at the token endpoint.
use autentico.Prelude.{ℕ, ◌+◌, String, ◌≡◌, ◌≤◌, refl, sym, ap, ◌∙◌, true, some, arith, eq_iff, inr}
use autentico.Schema.{User, AuthCode, Db}
use autentico.Env.{Env, FlowParams, Healthy}
use autentico.Exec.{ok}
use autentico.Sql.{find_row}
use autentico.Sql.Laws.{first_row, find_row_sound}
use autentico.Browser.{Granted}
use autentico.AuthCode.{has_code, stored_row, mark_code}
use autentico.User.{is_active}
use autentico.Token.CodeGrant.{
  TokenRequest, user_by_authorization_code, validate_token_request_authorization_code,
}
use autentico.Token.CodeGrant.Checks.{PkceHolds, IsRedeemed-exchange}
use autentico.Consent.{code_row}
use autentico.Consent.Grants.{IsGranted}

-- The stored row of a granted code.
abbrev pub row_of : Env → FlowParams → String → ℕ → String → Granted → AuthCode
row_of env p user_id created idp g = stored_row env (code_row env p user_id created idp g.code)

-- What a client sends with the code: its own name, the redirect URI, and the verifier if there was
-- a challenge; up to the moment at which the code expires.
pub record Presents (env later : Env) (p : FlowParams) (c : AuthCode) (r : TokenRequest)
    : Type 0 where
  pub valid : validate_token_request_authorization_code later r ≡ true
  pub code : r.code ≡ c.code
  pub redirect : r.redirect_uri ≡ p.redirect_uri
  pub client : r.client_id ≡ p.client_id
  pub in_time : later.now ≤ env.now + env.config.authorization_code_expiration
  pub pkce : PkceHolds later r c

pub grant-redeem :
    (env later : Env) (p : FlowParams) (user_id : String) (created : ℕ) (idp : String) (g : Granted)
    (r : TokenRequest) (u : User) (db db' : Db)
    → IsGranted env p user_id created idp g db db'
    → Healthy later
    → Presents env later p (row_of env p user_id created idp g) r
    → find_row (is_active user_id) db.users ≡ some u
    → user_by_authorization_code later r db'
      ≡ (ok (u, row_of env p user_id created idp g), mark_code r.code db')
grant-redeem env later p user_id created idp g r u db db' i healthy s owner =
    let c = row_of env p user_id created idp g in
    let active = find_row_sound (is_active user_id) db.users owner in
    IsRedeemed-exchange later r u c db' healthy s.valid
      (record {
        listed =
            ap (λ d. find_row (has_code r.code) d.auth_codes) i.written
            ∙ first_row (has_code r.code) c db.auth_codes ((eq_iff g.code r.code).1 (sym s.code));
        same_code = sym s.code;
        unused = refl;
        redirect = sym s.redirect;
        in_time = s.in_time;
        client = inr (sym s.client);
        pkce = s.pkce;
        owner = (eq_iff u.id user_id).0 (ground arith);
        owner_active = ground arith;
      })
      (ap (λ d. find_row (is_active user_id) d.users) i.written ∙ owner)
