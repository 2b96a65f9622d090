-- ===== src/Token/CodeGrant/Checks.antt =====
-- What a successful exchange of an authorization code has established.
use autentico.Prelude.{
  String, ◌≡◌, ◌≤◌, ◌⊎◌, true, false, none, some, arith, eq_iff, or_empty, is_empty, Bool-cases,
  inl, inr,
}
use autentico.Schema.{User, AuthCode, Db}
use autentico.Env.{Env, Healthy, query, exec, select_auth_code, mark_auth_code, select_user}
use autentico.Exec.{ok}
use autentico.Sql.{find_row}
use autentico.Sql.Laws.{find_row_sound}
use autentico.AuthCode.{
  has_code, auth_code_by_code_including_used, mark_auth_code_as_used, mark_code,
}
use autentico.User.{user_by_id, is_active}
use autentico.Token.Pkce.{validate_code_verifier, verify_code_challenge_iff, Transforms}
use autentico.Token.CodeGrant.{
  TokenRequest, user_by_authorization_code, check_code, check_pkce,
  validate_token_request_authorization_code,
}

-- A code was issued with a challenge, and the request proves that it knows the verifier.
abbrev pub PkceHolds : Env → TokenRequest → AuthCode → Type 0
PkceHolds env r c =
    (c.code_challenge ≡ "")
    ⊎ ((validate_code_verifier r.code_verifier ≡ true)
        × Transforms env r.code_verifier c.code_challenge_method c.code_challenge)

pub record IsRedeemed (env : Env) (r : TokenRequest) (db : Db) (u : User) (c : AuthCode)
    : Type 0 where
  pub listed : find_row (has_code r.code) db.auth_codes ≡ some c
  pub same_code : c.code ≡ r.code
  pub unused : c.used ≡ false
  pub redirect : c.redirect_uri ≡ r.redirect_uri
  pub in_time : env.now ≤ c.expires_at
  pub client : (or_empty c.client_id ≡ "") ⊎ (or_empty c.client_id ≡ r.client_id)
  pub pkce : PkceHolds env r c
  pub owner : u.id ≡ c.user_id
  pub owner_active : u.deactivated_at ≡ none

check_pkce_sound :
    (env : Env) (r : TokenRequest) (c : AuthCode) → check_pkce env r c ≡ true → PkceHolds env r c
unfolding check_pkce
check_pkce_sound env r c h = elim (Bool-cases (is_empty c.code_challenge)) [
  | inl none_issued ↦ inl ((eq_iff c.code_challenge "").0 none_issued)
  | inr issued ↦ inr (
    ground arith,
    (verify_code_challenge_iff env c.code_challenge c.code_challenge_method r.code_verifier).0
        (ground arith),
  )
]

module _ (env : Env) (r : TokenRequest) (c : AuthCode) (h : check_code env r c ≡ true) where
  check_code-redirect : c.redirect_uri ≡ r.redirect_uri
  unfolding check_code
  check_code-redirect = (eq_iff c.redirect_uri r.redirect_uri).0 (ground arith)

  check_code-in_time : env.now ≤ c.expires_at
  unfolding check_code
  check_code-in_time = ground arith

  check_code-client : (or_empty c.client_id ≡ "") ⊎ (or_empty c.client_id ≡ r.client_id)
  unfolding check_code
  check_code-client = elim (Bool-cases (is_empty (or_empty c.client_id))) [
    | inl unbound ↦ inl ((eq_iff (or_empty c.client_id) "").0 unbound)
    | inr bound ↦ inr ((eq_iff (or_empty c.client_id) r.client_id).0 (ground arith))
  ]

  check_code-pkce : PkceHolds env r c
  unfolding check_code
  check_code-pkce = check_pkce_sound env r c (ground arith)

-- The parts of a successful run: the row of the code, the row of the user, and the tests passed.
pub record Exchange (env : Env) (r : TokenRequest) (u : User) (c : AuthCode) (db db' : Db)
    : Type 0 where
  pub listed : find_row (has_code r.code) db.auth_codes ≡ some c
  pub unused : c.used ≡ false
  pub checked : check_code env r c ≡ true
  pub marked : db' ≡ mark_code r.code db
  pub user_row : find_row (is_active c.user_id) db.users ≡ some u

pub user_by_authorization_code-Exchange :
    (env : Env) (r : TokenRequest) (u : User) (c : AuthCode) (db db' : Db)
    → user_by_authorization_code env r db ≡ (ok (u, c), db')
    → Exchange env r u c db db'
unfolding user_by_authorization_code query exec user_by_id auth_code_by_code_including_used
    mark_auth_code_as_used
user_by_authorization_code-Exchange env r u c db db' h = record {
  listed = ground arith;
  unused = ground arith;
  checked = ground arith;
  marked = ground arith;
  user_row = ground arith;
}

-- If an exchange succeeds with a user and a code, then the code's row stood in the table under the
-- presented value, unused and not expired; its redirect URI is the request's; it is bound to no
-- client or to the request's client; it has no challenge, or the request's verifier is well formed
-- and transforms to the challenge; and the user is the code's owner and is not deactivated. The
-- only change of the database is that the rows under that code are marked as used.
pub exchange-IsRedeemed :
    (env : Env) (r : TokenRequest) (u : User) (c : AuthCode) (db db' : Db)
    → user_by_authorization_code env r db ≡ (ok (u, c), db')
    → IsRedeemed env r db u c × (db' ≡ mark_code r.code db)
exchange-IsRedeemed env r u c db db' h =
    let e = user_by_authorization_code-Exchange env r u c db db' h in
    let code_found = find_row_sound (has_code r.code) db.auth_codes e.listed in
    let user_found = find_row_sound (is_active c.user_id) db.users e.user_row in
    (
      record {
        listed = e.listed;
        same_code = (eq_iff c.code r.code).0 code_found;
        unused = e.unused;
        redirect = check_code-redirect env r c e.checked;
        in_time = check_code-in_time env r c e.checked;
        client = check_code-client env r c e.checked;
        pkce = check_code-pkce env r c e.checked;
        owner = (eq_iff u.id c.user_id).0 (ground arith);
        owner_active = ground arith;
      },
      e.marked,
    )

check_pkce_complete :
    (env : Env) (r : TokenRequest) (c : AuthCode)
    → PkceHolds env r c
    → (r.code_verifier ≡ "" → validate_code_verifier r.code_verifier ≡ false)
    → check_pkce env r c ≡ true
unfolding check_pkce
check_pkce_complete env r c (inl no_challenge) empty = rw no_challenge
check_pkce_complete env r c (inr (formed, t)) empty =
    let verified =
      (verify_code_challenge_iff env c.code_challenge c.code_challenge_method r.code_verifier).1
        t in
    ground (arith, eq_iff r.code_verifier "")

empty_verifier : (v : String) → v ≡ "" → validate_code_verifier v ≡ false
unfolding validate_code_verifier
empty_verifier v e = rw e

-- With a database that refuses no statement, a valid request for such a code is granted.
pub IsRedeemed-exchange :
    (env : Env) (r : TokenRequest) (u : User) (c : AuthCode) (db : Db)
    → Healthy env
    → validate_token_request_authorization_code env r ≡ true
    → IsRedeemed env r db u c
    → find_row (is_active c.user_id) db.users ≡ some u
    → user_by_authorization_code env r db ≡ (ok (u, c), mark_code r.code db)
unfolding user_by_authorization_code query exec user_by_id auth_code_by_code_including_used
    mark_auth_code_as_used
IsRedeemed-exchange env r u c db healthy valid i row =
    let pkce = check_pkce_complete env r c i.pkce (empty_verifier r.code_verifier) in
    let checked : check_code env r c ≡ true =
      unfold check_code in
      ground (
        arith,
        i.client,
        i.redirect,
        i.in_time,
        eq_iff c.redirect_uri r.redirect_uri,
        eq_iff (or_empty c.client_id) "",
        eq_iff (or_empty c.client_id) r.client_id,
        pkce,
      ) in
    ground (
      arith,
      checked,
      i.listed,
      i.unused,
      healthy select_auth_code,
      healthy mark_auth_code,
      healthy select_user,
    )
