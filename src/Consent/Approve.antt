-- ===== src/Consent/Approve.antt =====
-- What the consent page does: a code only for what the user has agreed to, and a code for everything
-- that the page has asked.
use autentico.Prelude.{
  String, ◌≡◌, ◌≢◌, sym, ap, ◌∙◌, true, false, not, some, ◌==◌, arith, is_empty, is_none,
  Option-cases, inl, inr, eq_iff,
}
use autentico.Schema.{IdpSession, Client, Db}
use autentico.Env.{Env, FlowParams, exec_if, select_idp_session}
use autentico.Exec.{ok, require, on_error}
use autentico.Exec.Inversion.{bind-ok, on_error-ok, query-ok, require-ok}
use autentico.Sql.{find_row}
use autentico.Web.{Request}
use autentico.Browser.{Granted, http_error}
use autentico.IdpSession.{is_active, idp_session_by_id}
use autentico.Client.{is_registered, client_by_client_id, is_valid_redirect_uri}
use autentico.Client.Credentials.{client_by_client_id-ok}
use autentico.Consent.{
  validate_session, handle_consent_post, decide, params_of, sign_consent, verify_consent_signature,
  upsert_consent, upsert_rows, consent_row,
}
use autentico.Consent.Table.{view, view-upsert_same}
use autentico.Consent.Grants.{IsGranted, grant_code-IsGranted}

pub validate_session-ok :
    (env : Env) (req : Request) (s : IdpSession) (db db' : Db)
    → validate_session env req db ≡ (ok s, db')
    → (is_empty req.sso_cookie ≡ false)
      × (find_row (is_active req.sso_cookie) db.idp_sessions ≡ some s)
      × (db' ≡ db)
unfolding validate_session idp_session_by_id
validate_session-ok env req s db db' h =
    let (_, db1, h1, rest1) = bind-ok (require (not (is_empty req.sso_cookie)) _) _ db s db' h in
    let (present, same1) = require-ok (not (is_empty req.sso_cookie)) _ db db1 h1 in
    let (x, db2, h2, rest2) =
      bind-ok (on_error _ (idp_session_by_id env req.sso_cookie)) _ db1 s db' rest1 in
    let (row, same2) =
      query-ok env select_idp_session (λ d. find_row (is_active req.sso_cookie) d.idp_sessions) db1
        x db2 (on_error-ok _ (idp_session_by_id env req.sso_cookie) db1 x db2 h2) in
    let (_, db3, h3, rest3) = bind-ok (require (is_none x.deactivated_at) _) _ db2 s db' rest2 in
    let (_, same3) = require-ok (is_none x.deactivated_at) _ db2 db3 h3 in
    let same : x ≡ s = ground arith in
    let last : db' ≡ db3 = ground arith in
    (
      ground (arith, present),
      ap (λ d. find_row (is_active req.sso_cookie) d.idp_sessions) (sym same1) ∙ row ∙ ap some same,
      last ∙ same3 ∙ same2 ∙ same1,
    )

upsert_consent-ok :
    (env : Env) (user_id client_id scopes : String) (db db' : Db)
    → upsert_consent env user_id client_id scopes db ≡ (ok tt, db')
    → (id : String) × (db' ≡ record db {
      user_consents =
          upsert_rows env (consent_row env id user_id client_id scopes) db.user_consents;
    })
unfolding upsert_consent exec_if
upsert_consent-ok env user_id client_id scopes db db' h = elim (Option-cases (env.secure_code 2)) [
  | inl broken ↦ absurd (ground arith)
  | inr (id, drawn) ↦ (id, ground arith)
]

-- A code that the consent page has granted: to the user of the live session that the cookie names,
-- who has not refused, for parameters that carry the signature of this user and an allowed redirect
-- URI of a registered client; the scopes that the code has are recorded as granted to the client.
pub record IsConsented (env : Env) (req : Request) (g : Granted) (db db' : Db) : Type 0 where
  pub session : IdpSession
  pub client : Client
  pub live : find_row (is_active req.sso_cookie) db.idp_sessions ≡ some session
  pub signed : sign_consent env (params_of req.form) session.user_id ≡ req.form "consent_sig"
  pub registered : find_row (is_registered (req.form "client_id")) db.clients ≡ some client
  pub allowed : is_valid_redirect_uri env (some client) (req.form "redirect_uri") ≡ true
  pub agreed : req.form "action" ≢ "deny"
  pub between : Db
  pub recorded :
      view between.user_consents session.user_id (req.form "client_id") ≡ some (req.form "scope")
  pub code : IsGranted env (params_of req.form) session.user_id 0 session.id g between db'

record Decided (env : Env) (req : Request) (p : FlowParams) (s : IdpSession) (g : Granted)
    (db db' : Db) : Type 0 where
  agreed : req.form "action" ≢ "deny"
  between : Db
  recorded : view between.user_consents s.user_id p.client_id ≡ some p.scope
  code : IsGranted env p s.user_id 0 s.id g between db'

decide-Decided :
    (env : Env) (req : Request) (p : FlowParams) (s : IdpSession) (g : Granted) (db db' : Db)
    → decide env req p s db ≡ (ok g, db')
    → Decided env req p s g db db'
unfolding decide
decide-Decided env req p s g db db' h =
    let denied = req.form "action" == "deny" in
    let (_, db1, h1, rest1) = bind-ok (require (not denied) _) _ db g db' h in
    let (agreed, same1) = require-ok (not denied) _ db db1 h1 in
    let (_, db2, h2, rest2) =
      bind-ok (on_error _ (upsert_consent env s.user_id p.client_id p.scope)) _ db1 g db' rest1 in
    let (id, written) =
      upsert_consent-ok env s.user_id p.client_id p.scope db1 db2
        (on_error-ok _ (upsert_consent env s.user_id p.client_id p.scope) db1 tt db2 h2) in
    record {
      agreed = λ deny. absurd (ground (arith, agreed, (eq_iff (req.form "action") "deny").1 deny));
      between = db2;
      recorded =
          ap (λ d. view d.user_consents s.user_id p.client_id) written
          ∙ view-upsert_same env (consent_row env id s.user_id p.client_id p.scope)
              db1.user_consents;
      code =
          grant_code-IsGranted env (http_error 500 "server_error") p s.user_id 0 s.id g db2 db'
            rest2;
    }

-- Whenever POST /consent answers with a code, then the cookie names a live single sign-on session,
-- the parameters of the form carry the signature for its user, their client is registered and
-- allows their redirect URI, the user has not refused, the scopes are recorded as granted by the
-- user to the client, and the code is a new one whose row has the session's user, the parameters
-- and an expiry after the configured time.
pub handle_consent_post-IsConsented :
    (env : Env) (req : Request) (g : Granted) (db db' : Db)
    → handle_consent_post env req db ≡ (ok g, db')
    → IsConsented env req g db db'
unfolding handle_consent_post verify_consent_signature params_of
handle_consent_post-IsConsented env req g db db' h =
    let p = params_of req.form in
    let (_, db1, h1, rest1) = bind-ok (require req.parses _) _ db g db' h in
    let (_, same1) = require-ok req.parses _ db db1 h1 in
    let (s, db2, h2, rest2) = bind-ok (validate_session env req) _ db1 g db' rest1 in
    let (_, live, same2) = validate_session-ok env req s db1 db2 h2 in
    let genuine = sign_consent env p s.user_id == req.form "consent_sig" in
    let (_, db3, h3, rest3) = bind-ok (require genuine _) _ db2 g db' rest2 in
    let (signed, same3) = require-ok genuine _ db2 db3 h3 in
    let (c, db4, h4, rest4) =
      bind-ok (on_error _ (client_by_client_id env p.client_id)) _ db3 g db' rest3 in
    let (registered, same4) =
      client_by_client_id-ok env p.client_id c db3 db4
        (on_error-ok _ (client_by_client_id env p.client_id) db3 c db4 h4) in
    let allows = is_valid_redirect_uri env (some c) p.redirect_uri in
    let (_, db5, h5, rest5) = bind-ok (require allows _) _ db4 g db' rest4 in
    let (allowed, same5) = require-ok allows _ db4 db5 h5 in
    let decided = decide-Decided env req p s g db5 db' rest5 in
    record {
      session = s;
      client = c;
      live = ap (λ d. find_row (is_active req.sso_cookie) d.idp_sessions) (sym same1) ∙ live;
      signed = (eq_iff (sign_consent env p s.user_id) (req.form "consent_sig")).0 signed;
      registered =
          ap (λ d. find_row (is_registered p.client_id) d.clients) (sym (same3 ∙ same2 ∙ same1))
          ∙ registered;
      allowed = allowed;
      agreed = decided.agreed;
      between = decided.between;
      recorded = decided.recorded;
      code = decided.code;
    }
