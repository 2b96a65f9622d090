-- ===== src/Authorize/Authorized.antt =====
-- Whom the authorization endpoint gives a code.
use mathlib.Core.Path.{subst}
use autentico.Prelude.{
  ◌≡◌, ◌≢◌, sym, ap, ◌∙◌, true, false, not, some, ◌==◌, ◌&&◌, arith, is_empty, member, Bool-cases,
  inl, inr,
}
use autentico.Schema.{IdpSession, Client, Db}
use autentico.Env.{Env, select_idp_session}
use autentico.Exec.{ok, require, on_error, raise}
use autentico.Exec.Inversion.{bind-ok, on_error-ok, query-ok, require-ok, recover-ok}
use autentico.Sql.{find_row}
use autentico.Text.{fields}
use autentico.Web.{Request}
use autentico.Browser.{Answer, AuthorizeRequest, Granted, is_redirect_uri}
use autentico.IdpSession.{is_active, idp_session_by_id}
use autentico.Client.{is_registered, client_by_client_id, is_valid_redirect_uri}
use autentico.Client.Credentials.{client_by_client_id-ok}
use autentico.Consent.{needs_consent}
use autentico.Authorize.{
  handle_authorize, trusted_client, check_request, try_auto_login, ask_user, refuse_silently,
  silent_error, authorize_request, AutoLoginResult,
}
use autentico.Authorize.Issue.{Checked, check_request-ok, FromSession, login_from-FromSession}

pub record Trusted (env : Env) (r : AuthorizeRequest) (c : Client) (db : Db) : Type 0 where
  pub is_uri : is_redirect_uri env r.redirect_uri ≡ true
  pub registered : find_row (is_registered r.client_id) db.clients ≡ some c
  pub allowed : is_valid_redirect_uri env (some c) r.redirect_uri ≡ true

pub trusted_client-Trusted :
    (env : Env) (r : AuthorizeRequest) (c : Client) (db db' : Db)
    → trusted_client env r db ≡ (ok c, db')
    → Trusted env r c db × (db' ≡ db)
unfolding trusted_client
trusted_client-Trusted env r c db db' h =
    let is_uri = is_redirect_uri env r.redirect_uri in
    let (_, db1, h1, rest1) = bind-ok (require is_uri _) _ db c db' h in
    let (formed, same1) = require-ok is_uri _ db db1 h1 in
    let (x, db2, h2, rest2) =
      bind-ok (on_error _ (client_by_client_id env r.client_id)) _ db1 c db' rest1 in
    let (row, same2) =
      client_by_client_id-ok env r.client_id x db1 db2
        (on_error-ok _ (client_by_client_id env r.client_id) db1 x db2 h2) in
    let (_, db3, h3, rest3) = bind-ok (require x.is_active _) _ db2 c db' rest2 in
    let (_, same3) = require-ok x.is_active _ db2 db3 h3 in
    let allows = is_valid_redirect_uri env (some x) r.redirect_uri in
    let (_, db4, h4, rest4) = bind-ok (require allows _) _ db3 c db' rest3 in
    let (allowed, same4) = require-ok allows _ db3 db4 h4 in
    let same : x ≡ c = ground arith in
    let last : db' ≡ db4 = ground arith in
    (
      record {
        is_uri = formed;
        registered =
            ap (λ d. find_row (is_registered r.client_id) d.clients) (sym same1)
            ∙ row
            ∙ ap some same;
        allowed = ap (λ k. is_valid_redirect_uri env (some k) r.redirect_uri) (sym same) ∙ allowed;
      },
      last ∙ same4 ∙ same3 ∙ same2 ∙ same1,
    )

-- A page or an error is no code.
refuse_silently-err :
    (env : Env) (r : AuthorizeRequest) (c : Client) (result : AutoLoginResult) (g : Granted)
    (db db' : Db)
    → refuse_silently env r c result db ≢ (ok g, db')
unfolding refuse_silently
refuse_silently-err env r c result g db db' h = elim (Bool-cases result.has_session) [
  | inr without ↦ absurd (ground arith)
  | inl within ↦
      let (asks, db1, h1, rest1) =
        bind-ok
          (needs_consent {E = Answer} env c.consent_required result.user_id r.client_id r.scope "")
          (λ asks. raise (silent_error r asks)) db g db' (ground arith) in
      absurd (ground arith)
]

ask_user-err :
    (env : Env) (req : Request) (r : AuthorizeRequest) (c : Client) (result : AutoLoginResult)
    (g : Granted) (db db' : Db)
    → ask_user env req r c result db ≢ (ok g, db')
unfolding ask_user
ask_user-err env req r c result g db db' h = elim (Bool-cases result.needs_consent) [
  | inl asks ↦ ground arith
  | inr quiet ↦ elim (Bool-cases (r.prompt == "none")) [
    | inl silent ↦ refuse_silently-err env r c result g db db' (ground arith)
    | inr loud ↦ ground arith
  ]
]

-- A live single sign-on session that the browser's cookie names, and a code from it.
pub record SignedIn (env : Env) (req : Request) (r : AuthorizeRequest) (c : Client) (g : Granted)
    (db db' : Db) : Type 0 where
  pub enabled : env.config.sso_enabled ≡ true
  pub not_fresh : member "login" (fields r.prompt) ≡ false
  pub session : IdpSession
  pub live : find_row (is_active req.sso_cookie) db.idp_sessions ≡ some session
  pub login : FromSession env r c session g db db'

try_auto_login-SignedIn :
    (env : Env) (req : Request) (r : AuthorizeRequest) (c : Client) (g : Granted) (db db' : Db)
    → try_auto_login env req r c db ≡ (ok g, db')
    → SignedIn env req r c g db db'
unfolding try_auto_login idp_session_by_id
try_auto_login-SignedIn env req r c g db db' h =
    let may = env.config.sso_enabled && not (member "login" (fields r.prompt)) in
    let (_, db1, h1, rest1) = bind-ok (require may _) _ db g db' h in
    let (wanted, same1) = require-ok may _ db db1 h1 in
    let (_, db2, h2, rest2) =
      bind-ok (require (not (is_empty req.sso_cookie)) _) _ db1 g db' rest1 in
    let (_, same2) = require-ok (not (is_empty req.sso_cookie)) _ db1 db2 h2 in
    let (s, db3, h3, rest3) =
      bind-ok (on_error _ (idp_session_by_id env req.sso_cookie)) _ db2 g db' rest2 in
    let (row, same3) =
      query-ok env select_idp_session (λ d. find_row (is_active req.sso_cookie) d.idp_sessions) db2
        s db3 (on_error-ok _ (idp_session_by_id env req.sso_cookie) db2 s db3 h3) in
    let same : db3 ≡ db = same3 ∙ same2 ∙ same1 in
    record {
      enabled = ground (arith, wanted);
      not_fresh = ground (arith, wanted);
      session = s;
      live =
          ap (λ d. find_row (is_active req.sso_cookie) d.idp_sessions) (sym (same2 ∙ same1)) ∙ row;
      login =
          subst (λ d. FromSession env r c s g d db') same
            (login_from-FromSession env r c s g db3 db' rest3);
    }

-- A registered client with an allowed redirect URI, whose request passes every test, and a live
-- session.
pub record IsAuthorized (env : Env) (req : Request) (g : Granted) (db db' : Db) : Type 0 where
  pub client : Client
  pub trusted : Trusted env (authorize_request req) client db
  pub checked : Checked env (authorize_request req) client
  pub signed_in : SignedIn env req (authorize_request req) client g db db'

-- Whenever the authorization endpoint answers with a code, then the redirect URI is a URL that the
-- request's registered client allows; the request is valid, has a code challenge if the client is
-- public, does not use the method plain where only S256 is taken, and asks for a response type and
-- for scopes that the client may use; single sign-on is enabled and the request asks neither for a
-- new login nor for the consent page; the cookie names an active session within the idle timeout,
-- the maximal age and the request's max_age; the session's user need not be asked or has granted
-- the client all requested scopes; and the code is new and its row, with the session's user, times
-- and the request's parameters, is all that is written, up to the session's last activity.
pub handle_authorize-IsAuthorized :
    (env : Env) (req : Request) (g : Granted) (db db' : Db)
    → handle_authorize env req db ≡ (ok g, db')
    → IsAuthorized env req g db db'
unfolding handle_authorize
handle_authorize-IsAuthorized env req g db db' h =
    let r = authorize_request req in
    let (c, db1, h1, rest1) = bind-ok (trusted_client env r) _ db g db' h in
    let (trusted, same1) = trusted_client-Trusted env r c db db1 h1 in
    let (_, db2, h2, rest2) = bind-ok (check_request env req r c) _ db1 g db' rest1 in
    let (checked, same2) = check_request-ok env req r c db1 db2 h2 in
    elim (recover-ok (try_auto_login env req r c) (ask_user env req r c) db2 g db' rest2) [
      | inl automatic ↦ record {
        client = c;
        trusted = trusted;
        checked = checked;
        signed_in =
            subst (λ d. SignedIn env req r c g d db') (same2 ∙ same1)
              (try_auto_login-SignedIn env req r c g db2 db' automatic);
      }
      | inr (result, db3, _, asked) ↦ absurd (ask_user-err env req r c result g db3 db' asked)
    ]
