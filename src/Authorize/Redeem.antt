-- ===== src/Authorize/Redeem.antt =====
-- From the authorization endpoint to the token endpoint, and how old a login can be.
use mathlib.Core.Path.{subst}
use autentico.Prelude.{ℕ, ◌+◌, ◌*◌, ◌≤◌, String, ◌≡◌, sym, ap, ◌∙◌, some, some-eq, arith}
use autentico.Schema.{User, IdpSession, Db, second}
use autentico.Env.{Env, Healthy, exec}
use autentico.Exec.{ok}
use autentico.Sql.{find_row}
use autentico.Web.{Request}
use autentico.Browser.{Granted}
use autentico.AuthCode.{mark_code}
use autentico.User.{is_active}
use autentico.IdpSession.{update_last_activity}
use autentico.Token.CodeGrant.{TokenRequest, user_by_authorization_code}
use autentico.Consent.Grants.{IsGranted}
use autentico.Consent.Redeem.{row_of, Presents, grant-redeem}
use autentico.Authorize.{handle_authorize, authorize_request, flow_of}
use autentico.Authorize.Authorized.{handle_authorize-IsAuthorized}
use autentico.Authorize.MaxAge.{parse_max_age}
use autentico.Authorize.MaxAge.Bounds.{longest, exceeds_max_age-false}

touch-users :
    (env : Env) (id : String) (db : Db) → (update_last_activity env id db).1.users ≡ db.users
unfolding update_last_activity exec
touch-users env id db = ground arith

-- A code that the authorization endpoint has answered with is exchanged at the token endpoint for
-- the user of the single sign-on session that the cookie names, and is then marked as used: when
-- the client presents it in time with the redirect URI and the verifier, the user is active, and
-- the database refuses no statement.
pub authorize-redeem :
    (env later : Env) (req : Request) (g : Granted) (s : IdpSession) (r : TokenRequest) (u : User)
    (db db' : Db)
    → handle_authorize env req db ≡ (ok g, db')
    → find_row (autentico.IdpSession.is_active req.sso_cookie) db.idp_sessions ≡ some s
    → Healthy later
    → Presents env later
        (flow_of (authorize_request req))
        (row_of env (flow_of (authorize_request req)) s.user_id s.created_at s.id g)
        r
    → find_row (is_active s.user_id) db.users ≡ some u
    → user_by_authorization_code later r db' ≡ (
      ok (u, row_of env (flow_of (authorize_request req)) s.user_id s.created_at s.id g),
      mark_code r.code db',
    )
authorize-redeem env later req g s r u db db' h live healthy presents owner =
    let a = handle_authorize-IsAuthorized env req g db db' h in
    let p = flow_of (authorize_request req) in
    let t = a.signed_in.session in
    let same : t ≡ s = some-eq (sym a.signed_in.live ∙ live) in
    let touched = (update_last_activity env s.id db).1 in
    grant-redeem env later p s.user_id s.created_at s.id g r u touched db'
      (subst
        (λ (k : IdpSession).
          IsGranted env p k.user_id k.created_at k.id g (update_last_activity env k.id db).1 db')
        same a.signed_in.login.code)
      healthy presents (ap (find_row (is_active s.user_id)) (touch-users env s.id db) ∙ owner)

-- A max_age of at most 292 years is kept: a code is only given from a session that started at most
-- that many seconds ago.
pub authorize-max_age :
    (env : Env) (req : Request) (g : Granted) (s : IdpSession) (n : ℕ) (db db' : Db)
    → handle_authorize env req db ≡ (ok g, db')
    → find_row (autentico.IdpSession.is_active req.sso_cookie) db.idp_sessions ≡ some s
    → parse_max_age (authorize_request req).max_age ≡ some n
    → n ≤ longest
    → env.now ≤ s.created_at + n * second
authorize-max_age env req g s n db db' h live asked short =
    let a = handle_authorize-IsAuthorized env req g db db' h in
    let t = a.signed_in.session in
    let same : t ≡ s = some-eq (sym a.signed_in.live ∙ live) in
    subst (λ (k : IdpSession). env.now ≤ k.created_at + n * second) same
      (exceeds_max_age-false env.now t.created_at (authorize_request req).max_age n asked short
        a.signed_in.login.recent)
