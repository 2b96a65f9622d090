-- ===== src/Token/CodeGrant/Race.antt =====
-- Two requests for one authorization code that are served at the same time: the code is read and
-- tested in one statement and marked as used in a later one, with no transaction around them.
use autentico.Prelude.{◌≡◌, true, false, some, arith}
use autentico.Schema.{User, AuthCode, Db}
use autentico.Env.{Env, Healthy, query, exec, select_auth_code, mark_auth_code, select_user}
use autentico.Exec.{ok, Result, HttpError, Exec, continue}
use autentico.Sql.{find_row}
use autentico.AuthCode.{has_code, auth_code_by_code_including_used, mark_auth_code_as_used}
use autentico.User.{user_by_id, is_active}
use autentico.Token.CodeGrant.{
  TokenRequest, present, redeem, check_code, validate_token_request_authorization_code,
}

-- What is left of a request that has run up to its first write.
abbrev pub resume :
    Env → TokenRequest → Result HttpError AuthCode → Exec HttpError (User × AuthCode)
resume env r m db = continue (m, db) (redeem env r)

-- Both requests read the code, then the first one writes, then the second one.
pub both_at_once :
    Env
    → TokenRequest
    → TokenRequest
    → Db
    → Result HttpError (User × AuthCode) × Result HttpError (User × AuthCode)
both_at_once env r s db =
    let (first, db1) = present env r db in
    let (second, db2) = present env s db1 in
    let (a, db3) = resume env r first db2 in let (b, db4) = resume env s second db3 in (a, b)

-- If two requests present one unused code and each passes the tests, then in the interleaving
-- where both read the code before either marks it, both obtain the owner and the code.
pub double_redeem :
    (env : Env) (r s : TokenRequest) (u : User) (c : AuthCode) (db : Db)
    → Healthy env
    → validate_token_request_authorization_code env r ≡ true
    → validate_token_request_authorization_code env s ≡ true
    → s.code ≡ r.code
    → find_row (has_code r.code) db.auth_codes ≡ some c
    → c.used ≡ false
    → check_code env r c ≡ true
    → check_code env s c ≡ true
    → find_row (is_active c.user_id) db.users ≡ some u
    → both_at_once env r s db ≡ (ok (u, c), ok (u, c))
unfolding both_at_once present redeem query exec user_by_id auth_code_by_code_including_used
    mark_auth_code_as_used
double_redeem env r s u c db healthy valid valid' same found unused checked checked' row =
    ground (arith, healthy select_auth_code, healthy mark_auth_code, healthy select_user)
