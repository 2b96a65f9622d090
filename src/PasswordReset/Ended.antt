-- ===== src/PasswordReset/Ended.antt =====
-- The sessions of a user whose password has been set through a link.
use mathlib.Core.Path.{subst}
use mathlib.Core.Option.{some_inj}
use autentico.Prelude.{
  ◌≡◌, ◌≢◌, ap, sym, ◌∙◌, ℕ, String, false, eq_refl, none, some, arith, All, eq_iff,
}
use autentico.Schema.{Session, IdpSession, User, AuthCode, PasswordResetToken, Db}
use autentico.Env.{Env, FlowParams, Healthy, RefreshClaims, select_revoked_at}
use autentico.Exec.{ok}
use autentico.Sql.{find_row, modify}
use autentico.Sql.Laws.{All-update, All-found, find_row_sound, first_row}
use autentico.Web.{Request}
use autentico.Browser.{Granted}
use autentico.IdpSession.{end_session, end_idp, is_active_of, is_active}
use autentico.Session.{has_id}
use autentico.AuthCode.{has_code, stored_row}
use autentico.Consent.Grants.{IsGranted}
use autentico.Consent.{code_row}
use autentico.Authorize.{handle_authorize}
use autentico.Authorize.Authorized.{handle_authorize-IsAuthorized}
use autentico.Token.CodeGrant.{TokenRequest}
use autentico.Token.RefreshGrant.{user_by_refresh_token}
use autentico.Token.RefreshGrant.Checks.{refresh-IsRefreshable}
use autentico.PasswordReset.{OauthParams, handle_reset_password, is_live_of, has_hash}
use autentico.PasswordReset.Reset.{handle_reset_password-IsReset, IsReset}

-- No session and no single sign-on session of a user is left.
pub record IsSignedOut (user_id : String) (db : Db) : Type 0 where
  pub sessions : All (λ (s : Session). is_live_of user_id s ≡ false) db.sessions
  pub idp_sessions : All (λ (s : IdpSession). is_active_of user_id s ≡ false) db.idp_sessions

session-ended :
    (env : Env) (user_id : String) (s : Session)
    → is_live_of user_id (modify (is_live_of user_id) (end_session env) s) ≡ false
session-ended env user_id s = ground arith

idp_session-ended :
    (env : Env) (user_id : String) (s : IdpSession)
    → is_active_of user_id (modify (is_active_of user_id) (end_idp env) s) ≡ false
idp_session-ended env user_id s = ground arith

pub reset-IsSignedOut :
    (env : Env) (req : Request) (p : OauthParams) (db db' : Db)
    → (r : IsReset env req p db db') → IsSignedOut r.token.user_id db'
reset-IsSignedOut env req p db db' r =
    let id = r.token.user_id in
    record {
      sessions =
          subst (λ d. All (λ (s : Session). is_live_of id s ≡ false) d.sessions) (sym r.written)
            (All-update (λ (s : Session). is_live_of id s ≡ false) (is_live_of id) (end_session env)
              db.sessions (session-ended env id));
      idp_sessions =
          subst (λ d. All (λ (s : IdpSession). is_active_of id s ≡ false) d.idp_sessions)
            (sym r.written)
            (All-update (λ (s : IdpSession). is_active_of id s ≡ false) (is_active_of id)
              (end_idp env) db.idp_sessions (idp_session-ended env id));
    }

-- After a link has set a user's password, and the database has accepted every statement, no
-- refresh token of a session of that user is accepted.
pub reset-refresh :
    (env later : Env) (req : Request) (p : OauthParams) (t : PasswordResetToken) (r : TokenRequest)
    (c : RefreshClaims) (s : Session) (u : User) (db db1 db2 : Db)
    → Healthy env
    → later.fails select_revoked_at ≡ false
    → handle_reset_password env req db ≡ (ok p, db1)
    → find_row (has_hash (env.hash_sha256 (req.form "token"))) db.password_reset_tokens ≡ some t
    → later.parse_refresh r.refresh_token ≡ some c
    → find_row (has_id c.session_id) db1.sessions ≡ some s
    → s.user_id ≡ t.user_id
    → user_by_refresh_token later r db1 ≢ (ok (some u), db2)
reset-refresh env later req p t r c s u db db1 db2 healthy up first row parsed stored owner second =
    let reset = handle_reset_password-IsReset env req p db db1 healthy first in
    let accepted = (refresh-IsRefreshable later r up u db1 db2 second).0 in
    let out = reset-IsSignedOut env req p db db1 reset in
    let ended =
      All-found (λ (x : Session). is_live_of reset.token.user_id x ≡ false) (has_id c.session_id)
        db1.sessions out.sessions stored in
    let claims : c ≡ accepted.claims = some_inj.0 (sym parsed ∙ accepted.parsed) in
    let session : s ≡ accepted.session = some_inj.0 (
      sym stored
      ∙ ap (λ k. find_row (has_id k.session_id) db1.sessions) claims
      ∙ accepted.stored) in
    let token : t ≡ reset.token = some_inj.0 (sym row ∙ reset.listed) in
    let live : s.deactivated_at ≡ none = ap (λ k. k.deactivated_at) session ∙ accepted.live in
    let same : s.user_id ≡ reset.token.user_id = owner ∙ ap (λ k. k.user_id) token in
    absurd (ground (arith, ended, live, (eq_iff s.user_id reset.token.user_id).1 same))

granted-owner :
    (env : Env) (f : FlowParams) (user_id : String) (created : ℕ) (idp : String) (g : Granted)
    (c : AuthCode) (db db' : Db)
    → IsGranted env f user_id created idp g db db'
    → find_row (has_code g.code) db'.auth_codes ≡ some c
    → c.user_id ≡ user_id
granted-owner env f user_id created idp g c db db' i found =
    let head : find_row (has_code g.code) db'.auth_codes
        ≡ some (stored_row env (code_row env f user_id created idp g.code)) =
      ap (λ d. find_row (has_code g.code) d.auth_codes) i.written
      ∙ first_row (has_code g.code) (stored_row env (code_row env f user_id created idp g.code))
          db.auth_codes (eq_refl g.code) in
    ap (λ k. k.user_id) (some_inj.0 (sym found ∙ head))

-- After a link has set a user's password, and the database has accepted every statement, the
-- authorization endpoint gives no code for that user.
pub reset-authorize :
    (env later : Env) (req visit : Request) (p : OauthParams) (t : PasswordResetToken) (g : Granted)
    (c : AuthCode) (db db1 db2 : Db)
    → Healthy env
    → handle_reset_password env req db ≡ (ok p, db1)
    → find_row (has_hash (env.hash_sha256 (req.form "token"))) db.password_reset_tokens ≡ some t
    → handle_authorize later visit db1 ≡ (ok g, db2)
    → find_row (has_code g.code) db2.auth_codes ≡ some c
    → c.user_id ≢ t.user_id
reset-authorize env later req visit p t g c db db1 db2 healthy first row second code owner =
    let reset = handle_reset_password-IsReset env req p db db1 healthy first in
    let a = (handle_authorize-IsAuthorized later visit g db1 db2 second).signed_in in
    let out = reset-IsSignedOut env req p db db1 reset in
    let ended =
      All-found (λ (x : IdpSession). is_active_of reset.token.user_id x ≡ false)
        (is_active visit.sso_cookie) db1.idp_sessions out.idp_sessions a.live in
    let live = find_row_sound (is_active visit.sso_cookie) db1.idp_sessions a.live in
    let of_session =
      granted-owner later _ a.session.user_id a.session.created_at a.session.id g c _ db2
        a.login.code code in
    let token : t ≡ reset.token = some_inj.0 (sym row ∙ reset.listed) in
    let same : a.session.user_id ≡ reset.token.user_id =
      sym of_session ∙ owner ∙ ap (λ k. k.user_id) token in
    absurd (ground (arith, ended, live, (eq_iff a.session.user_id reset.token.user_id).1 same))
