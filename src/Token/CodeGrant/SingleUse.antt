-- ===== src/Token/CodeGrant/SingleUse.antt =====
-- An authorization code is redeemed at most once (RFC 6749 section 10.6).
use autentico.Prelude.{◌≡◌, refl, true, some, arith}
use autentico.Schema.{User, AuthCode, Db}
use autentico.Env.{Env, Healthy, query, exec, select_auth_code, revoke_code_tokens}
use autentico.Exec.{ok, err}
use autentico.Sql.{find_row}
use autentico.Sql.Laws.{find_row-update, find_row_sound}
use autentico.AuthCode.{has_code, auth_code_by_code_including_used, set_used}
use autentico.Token.{is_code_token, revoke, update_tokens, revoke_tokens_by_user_and_client}
use autentico.Token.CodeGrant.{
  TokenRequest, user_by_authorization_code, invalid_grant,
  validate_token_request_authorization_code,
}
use autentico.Token.CodeGrant.Checks.{user_by_authorization_code-Exchange}

-- A used code: every later exchange is refused, and a valid request for it takes the owner's tokens down.
pub used_code_refused :
    (env : Env) (r : TokenRequest) (c : AuthCode) (db : Db)
    → Healthy env
    → validate_token_request_authorization_code env r ≡ true
    → find_row (has_code r.code) db.auth_codes ≡ some c
    → c.used ≡ true
    → user_by_authorization_code env r db
      ≡ (err invalid_grant, update_tokens (is_code_token c.user_id) (revoke env) db)
unfolding user_by_authorization_code query exec auth_code_by_code_including_used
    revoke_tokens_by_user_and_client
used_code_refused env r c db healthy valid found used =
    ground (arith, healthy select_auth_code, healthy revoke_code_tokens)

-- After an exchange of a code has succeeded, the next valid request that presents the same code,
-- from any client and at any time, is answered with invalid_grant, and revokes every unrevoked
-- authorization_code token of the code's owner; nothing else is written.
pub exchange-replay :
    (env later : Env) (r s : TokenRequest) (u : User) (c : AuthCode) (db db' : Db)
    → user_by_authorization_code env r db ≡ (ok (u, c), db')
    → Healthy later
    → s.code ≡ r.code
    → validate_token_request_authorization_code later s ≡ true
    → user_by_authorization_code later s db'
      ≡ (err invalid_grant, update_tokens (is_code_token c.user_id) (revoke later) db')
exchange-replay env later r s u c db db' h healthy same valid =
    let e = user_by_authorization_code-Exchange env r u c db db' h in
    let here = find_row_sound (has_code r.code) db.auth_codes e.listed in
    let row =
      find_row-update (has_code r.code) (has_code r.code) set_used db.auth_codes (λ y. refl)
        e.listed in
    used_code_refused later s (set_used c) db' healthy valid
      (rw (same, e.marked) (ground (arith, row, here))) refl
