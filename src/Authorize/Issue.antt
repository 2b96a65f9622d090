-- ===== src/Authorize/Issue.antt =====
-- What a code of the authorization endpoint has behind it.
use mathlib.Core.Path.{subst}
use autentico.Prelude.{
  String, ◌≡◌, sym, ap, ◌∙◌, true, false, not, some, ◌==◌, ◌&&◌, arith, is_empty, member,
  Bool-cases, inl, inr,
}
use autentico.Schema.{IdpSession, Client, Db}
use autentico.Env.{Env, exec}
use autentico.Exec.{ok, require, attempt}
use autentico.Exec.Inversion.{bind-ok, require-ok}
use autentico.Text.{fields}
use autentico.Web.{Request}
use autentico.Browser.{AuthorizeRequest, Granted}
use autentico.IdpSession.{update_last_activity}
use autentico.Client.{is_response_type_allowed, validate_scopes}
use autentico.Consent.Asked.{Consented, needs_consent-false}
use autentico.Consent.Grants.{IsGranted, grant_code-IsGranted}
use autentico.Authorize.{
  check_request, login_from, code_from, must_ask, flow_of, is_within, validate_authorize_request,
  parameter, AutoLoginResult,
}
use autentico.Authorize.MaxAge.{exceeds_max_age}

-- The tests on the request that concern its client.
pub record Checked (env : Env) (r : AuthorizeRequest) (c : Client) : Type 0 where
  pub valid : validate_authorize_request env r ≡ true
  pub pkce : (c.client_type == "public" && is_empty r.code_challenge) ≡ false
  pub method : (r.code_challenge_method == "plain" && env.config.pkce_enforce_sha256) ≡ false
  pub response_type : is_response_type_allowed env (some c) r.response_type ≡ true
  pub scopes : validate_scopes (some c) r.scope ≡ true

pub check_request-ok :
    (env : Env) (req : Request) (r : AuthorizeRequest) (c : Client) (db db' : Db)
    → check_request env req r c db ≡ (ok tt, db')
    → Checked env r c × (db' ≡ db)
unfolding check_request
check_request-ok env req r c db db' h =
    let open_client = c.client_type == "public" && is_empty r.code_challenge in
    let weak = r.code_challenge_method == "plain" && env.config.pkce_enforce_sha256 in
    let (_, db1, h1, rest1) =
      bind-ok (require (is_empty (parameter req "request")) _) _ db tt db' h in
    let (_, same1) = require-ok (is_empty (parameter req "request")) _ db db1 h1 in
    let (_, db2, h2, rest2) =
      bind-ok (require (validate_authorize_request env r) _) _ db1 tt db' rest1 in
    let (valid, same2) = require-ok (validate_authorize_request env r) _ db1 db2 h2 in
    let (_, db3, h3, rest3) = bind-ok (require (not open_client) _) _ db2 tt db' rest2 in
    let (pkce, same3) = require-ok (not open_client) _ db2 db3 h3 in
    let (_, db4, h4, rest4) = bind-ok (require (not weak) _) _ db3 tt db' rest3 in
    let (method, same4) = require-ok (not weak) _ db3 db4 h4 in
    let (_, db5, h5, rest5) =
      bind-ok (require (is_response_type_allowed env (some c) r.response_type) _) _ db4 tt db'
        rest4 in
    let (response_type, same5) =
      require-ok (is_response_type_allowed env (some c) r.response_type) _ db4 db5 h5 in
    let (scopes, same6) = require-ok (validate_scopes (some c) r.scope) _ db5 db' rest5 in
    (
      record {
        valid = valid;
        pkce = ground (arith, pkce);
        method = ground (arith, method);
        response_type = response_type;
        scopes = scopes;
      },
      same6 ∙ same5 ∙ same4 ∙ same3 ∙ same2 ∙ same1,
    )

must_ask-false :
    {E : Type 0} (env : Env) (r : AuthorizeRequest) (c : Client) (s : IdpSession) (db db' : Db)
    → must_ask {E = E} env r c s db ≡ (ok false, db')
    → (member "consent" (fields r.prompt) ≡ false)
      × Consented db.user_consents c s.user_id r.client_id r.scope
      × (db' ≡ db)
unfolding must_ask
must_ask-false {E = E} env r c s db db' h = elim (Bool-cases (member "consent" (fields r.prompt))) [
  | inl insists ↦ absurd (ground arith)
  | inr silent ↦
      let (consented, same) =
        needs_consent-false {E = E} env c s.user_id r.client_id r.scope r.prompt db db'
          (ground arith) in
      (silent, consented, same)
]

touch-consents :
    (env : Env) (id : String) (db : Db)
    → (update_last_activity env id db).1.user_consents ≡ db.user_consents
unfolding update_last_activity exec
touch-consents env id db = ground arith

-- A code that the automatic login has granted, from a session.
pub record FromSession (env : Env) (r : AuthorizeRequest) (c : Client) (s : IdpSession)
    (g : Granted) (db db' : Db) : Type 0 where
  pub not_idle : is_within env.now s.last_activity_at env.config.sso_session_idle_timeout ≡ true
  pub not_old : is_within env.now s.created_at env.config.sso_session_max_age ≡ true
  pub recent : exceeds_max_age env.now s.created_at r.max_age ≡ false
  pub not_insisting : member "consent" (fields r.prompt) ≡ false
  pub consented : Consented db.user_consents c s.user_id r.client_id r.scope
  pub code :
      IsGranted env
        (flow_of r)
        s.user_id
        s.created_at
        s.id
        g
        (update_last_activity env s.id db).1
        db'

pub login_from-FromSession :
    (env : Env) (r : AuthorizeRequest) (c : Client) (s : IdpSession) (g : Granted) (db db' : Db)
    → login_from env r c s db ≡ (ok g, db')
    → FromSession env r c s g db db'
unfolding login_from code_from
login_from-FromSession env r c s g db db' h =
    let idle = is_within env.now s.last_activity_at env.config.sso_session_idle_timeout in
    let age = is_within env.now s.created_at env.config.sso_session_max_age in
    let exceeds = exceeds_max_age env.now s.created_at r.max_age in
    let touched = (update_last_activity env s.id db).1 in
    let (_, db1, h1, rest1) = bind-ok (require idle _) _ db g db' h in
    let (not_idle, same1) = require-ok idle _ db db1 h1 in
    let (_, db2, h2, rest2) = bind-ok (require age _) _ db1 g db' rest1 in
    let (not_old, same2) = require-ok age _ db1 db2 h2 in
    let (_, db3, h3, rest3) = bind-ok (require (not exceeds) _) _ db2 g db' rest2 in
    let (recent, same3) = require-ok (not exceeds) _ db2 db3 h3 in
    let (_, db4, h4, rest4) =
      bind-ok (attempt {F = AutoLoginResult} (update_last_activity env s.id))
        (λ _. code_from env r c s) db3 g db' rest3 in
    let same4 : db4 ≡ touched =
      ap (λ k. k.1) (sym h4)
      ∙ ap (λ d. (update_last_activity env s.id d).1) (same3 ∙ same2 ∙ same1) in
    let (asks, db5, h5, rest5) =
      bind-ok (must_ask {E = AutoLoginResult} env r c s) _ db4 g db' rest4 in
    let (_, db6, h6, rest6) = bind-ok (require (not asks) _) _ db5 g db' rest5 in
    let (quiet, same6) = require-ok (not asks) _ db5 db6 h6 in
    let (silent, consented, same5) =
      must_ask-false {E = AutoLoginResult} env r c s db4 db5
        (h5 ∙ ap (λ b. (ok b, db5)) (ground (arith, quiet))) in
    let granted =
      grant_code-IsGranted env _ (flow_of r) s.user_id s.created_at s.id g db6 db' rest6 in
    let same : db6 ≡ touched = same6 ∙ same5 ∙ same4 in
    record {
      not_idle = not_idle;
      not_old = not_old;
      recent = ground (arith, recent);
      not_insisting = silent;
      consented =
          subst (λ rows. Consented rows c s.user_id r.client_id r.scope)
            (ap (λ d. d.user_consents) same4 ∙ touch-consents env s.id db) consented;
      code =
          subst (λ d. IsGranted env (flow_of r) s.user_id s.created_at s.id g d db') same granted;
    }
