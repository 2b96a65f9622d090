-- ===== src/Tests/Codes.antt =====
-- The authorization code grant at the concrete server.
use autentico.Prelude.{◌+◌, ◌*◌, ◌≡◌, refl}
use autentico.Schema.{second}
use autentico.Exec.{ok, err}
use autentico.AuthCode.{mark_code}
use autentico.Token.{update_tokens, is_code_token, revoke}
use autentico.Token.CodeGrant.{user_by_authorization_code, invalid_grant}
use autentico.Token.CodeGrant.Checks.{IsRedeemed, exchange-IsRedeemed}
use autentico.Token.CodeGrant.SingleUse.{exchange-replay}
use autentico.Token.CodeGrant.Race.{both_at_once, double_redeem}
use autentico.Tests.World.{env, minute_later, env_at-Healthy, start}
use autentico.Tests.Rows.{db, user, auth_code, code_request}

exchanged :
    user_by_authorization_code env code_request db ≡ (ok (user, auth_code), mark_code "code1" db)
unfolding user_by_authorization_code
    autentico.Token.CodeGrant.validate_token_request_authorization_code
    autentico.AuthCode.auth_code_by_code_including_used autentico.Env.query autentico.Sql.find_row
    autentico.Token.CodeGrant.check_code autentico.Token.Pkce.validate_code_verifier
    autentico.Token.Pkce.is_unreserved autentico.Token.Pkce.verify_code_challenge
    autentico.AuthCode.mark_auth_code_as_used autentico.Env.exec autentico.User.user_by_id
exchanged = refl

exchange-IsRedeemed_example :
    IsRedeemed env code_request db user auth_code
    × (mark_code "code1" db ≡ mark_code code_request.code db)
exchange-IsRedeemed_example =
    exchange-IsRedeemed env code_request user auth_code db (mark_code "code1" db) exchanged

exchange-replay_example :
    user_by_authorization_code minute_later code_request (mark_code "code1" db) ≡ (
      err invalid_grant,
      update_tokens (is_code_token "u1") (revoke minute_later) (mark_code "code1" db),
    )
unfolding autentico.Token.CodeGrant.validate_token_request_authorization_code
exchange-replay_example =
    exchange-replay env minute_later code_request code_request user auth_code db
      (mark_code "code1" db) exchanged (env_at-Healthy (start + 60 * second)) refl refl

double_redeem_example :
    both_at_once env code_request code_request db ≡ (ok (user, auth_code), ok (user, auth_code))
unfolding autentico.Token.CodeGrant.validate_token_request_authorization_code autentico.Sql.find_row
    autentico.Token.CodeGrant.check_code autentico.Token.Pkce.validate_code_verifier
    autentico.Token.Pkce.is_unreserved autentico.Token.Pkce.verify_code_challenge
double_redeem_example =
    double_redeem env code_request code_request user auth_code db (env_at-Healthy start) refl refl
      refl refl refl refl refl refl
