-- ===== src/Consent.antt =====
-- pkg/consent: what a user has agreed to, and the consent page
-- (model.go, create.go, read.go, delete.go, handler.go).
pub mod Table
pub mod Grants
pub mod Approve
pub mod Asked
pub mod Page
pub mod Redeem
pub mod Remember
use autentico.Prelude.{
  ℕ, ◌+◌, String, Bool, true, false, not, Option, none, some, List, [], ◌∷◌, ◌==◌, ◌&&◌, all, map,
  member, filter, is_empty, is_none, if◌then◌else◌,
}
use autentico.Schema.{UserConsent, AuthCode, IdpSession, Db}
use autentico.Env.{
  Env, FlowParams, query, exec, exec_if, select_consent, upsert_consent_row, delete_consent_row,
  delete_client_consents, delete_user_consents,
}
use autentico.Exec.{
  Exec, GoError, message, no_rows, ok, err, pure, raise, require, on_error, optional, recover,
  map_error, ◌>>=◌, ◌>>◌,
}
use autentico.Sql.{find_row, update_rows, any_row}
use autentico.Text.{fields, join_lines, append}
use autentico.Web.{Request}
use autentico.Browser.{Answer, http_error, redirect, consent_page, Granted, state_param}
use autentico.AuthCode.{create_auth_code}
use autentico.IdpSession.{idp_session_by_id}
use autentico.Client.{client_by_client_id, is_valid_redirect_uri}

abbrev pub has_id : String → UserConsent → Bool
has_id id c = c.id == id

-- `WHERE user_id = ? AND client_id = ?`.
abbrev pub is_between : String → String → UserConsent → Bool
is_between user_id client_id c = c.user_id == user_id && c.client_id == client_id

abbrev pub consent_row : Env → String → String → String → String → UserConsent
consent_row env id user_id client_id scopes = record {
  id = id;
  user_id = user_id;
  client_id = client_id;
  scopes = scopes;
  granted_at = env.now;
}

abbrev pub granted_again : Env → String → UserConsent → UserConsent
granted_again env scopes c = record c { scopes = scopes; granted_at = env.now }

-- `INSERT ... ON CONFLICT(user_id, client_id) DO UPDATE`.
unfoldable pub upsert_rows : Env → UserConsent → List UserConsent → List UserConsent
upsert_rows env new rows =
    if any_row (is_between new.user_id new.client_id) rows
    then update_rows (is_between new.user_id new.client_id) (granted_again env new.scopes) rows
    else new ∷ rows

unfoldable pub upsert_consent : Env → String → String → String → Exec GoError (Unit {0})
unfolding upsert_rows
upsert_consent env user_id client_id scopes = elim (env.secure_code 2) [
  | none ↦ raise (message "failed to generate consent id")
  | some id ↦
      exec_if env upsert_consent_row (λ db. not (any_row (has_id id) db.user_consents))
        (λ db. record db {
          user_consents =
              upsert_rows env (consent_row env id user_id client_id scopes) db.user_consents;
        })
]

abbrev missing_consent : GoError → Exec GoError (Option UserConsent)
missing_consent no_rows = pure none
missing_consent e = raise (message "failed to get consent")

-- `none` is the code's `nil, nil`: there is no such row.
unfoldable pub get_consent : Env → String → String → Exec GoError (Option UserConsent)
get_consent env user_id client_id =
    recover
      (do
        c ←
            query env select_consent
              (λ db. find_row (is_between user_id client_id) db.user_consents)
        pure (some c))
      missing_consent

abbrev pub keep_consents : (UserConsent → Bool) → Db → Db
keep_consents p db = record db { user_consents = filter p db.user_consents }

unfoldable pub delete_consent : Env → String → Exec GoError (Unit {0})
delete_consent env id = exec env delete_consent_row (keep_consents (λ c. not (c.id == id)))

unfoldable pub delete_consents_by_client : Env → String → Exec GoError (Unit {0})
delete_consents_by_client env client_id =
    exec env delete_client_consents (keep_consents (λ c. not (c.client_id == client_id)))

unfoldable pub delete_consents_by_user : Env → String → Exec GoError (Unit {0})
delete_consents_by_user env user_id =
    exec env delete_user_consents (keep_consents (λ c. not (c.user_id == user_id)))

abbrev scope_description : String → String
scope_description s =
    if s == "openid"
    then "Verify your identity"
    else if s == "profile"
    then "View your profile information"
    else if s == "email"
    then "View your email address"
    else if s == "address"
    then "View your address"
    else if s == "phone"
    then "View your phone number"
    else if s == "offline_access"
    then "Stay signed in between sessions"
    else s

-- The scopes of a text, each with its description.
unfoldable pub describe_scopes : String → List (String × String)
describe_scopes scopes = map (λ s. (s, scope_description s)) (fields scopes)

unfoldable pub contains_prompt_value : String → String → Bool
contains_prompt_value prompt value = member value (fields prompt)

unfoldable pub scopes_covered : String → String → Bool
scopes_covered granted requested = all (λ s. member s (fields granted)) (fields requested)

abbrev pub is_required : Option Bool → Bool
is_required none = false
is_required (some b) = b

-- A consent that could not be read counts as missing.
unfoldable pub is_covered : String → Option (Option UserConsent) → Bool
unfolding scopes_covered
is_covered requested none = false
is_covered requested (some none) = false
is_covered requested (some (some c)) = scopes_covered c.scopes requested

unfoldable pub needs_consent :
    {E : Type 0} → Env → Option Bool → String → String → String → String → Exec E Bool
unfolding contains_prompt_value get_consent is_covered
needs_consent env required user_id client_id requested prompt =
    if not (is_required required)
    then pure false
    else if contains_prompt_value prompt "consent"
    then pure true
    else (do
      existing ← optional (get_consent env user_id client_id)
      pure (not (is_covered requested existing)))

abbrev pub texts : FlowParams → String → List String
texts p user_id =
    user_id ∷ p.client_id ∷ p.redirect_uri ∷ p.scope ∷ p.nonce ∷ p.code_challenge
    ∷ p.code_challenge_method ∷ p.state ∷ []

unfoldable pub sign_consent : Env → FlowParams → String → String
sign_consent env p user_id = env.hmac (join_lines (texts p user_id))

unfoldable pub verify_consent_signature : Env → FlowParams → String → String → Bool
unfolding sign_consent
verify_consent_signature env p user_id signature = sign_consent env p user_id == signature

unfoldable pub redirect_to_consent : Env → FlowParams → Answer
redirect_to_consent env p = redirect (append env.oauth_path "/consent") (
    ("client_id", p.client_id)
    ∷ ("redirect_uri", p.redirect_uri)
    ∷ ("scope", p.scope)
    ∷ ("state", p.state)
    ∷ ("nonce", p.nonce)
    ∷ ("code_challenge", p.code_challenge)
    ∷ ("code_challenge_method", p.code_challenge_method)
    ∷ ("prompt", p.prompt)
    ∷ [])

-- The parameters of a query or of a form.
unfoldable pub params_of : (String → String) → FlowParams
params_of get = record {
  redirect_uri = get "redirect_uri";
  state = get "state";
  client_id = get "client_id";
  scope = get "scope";
  nonce = get "nonce";
  code_challenge = get "code_challenge";
  code_challenge_method = get "code_challenge_method";
  prompt = get "prompt";
}

unfoldable pub validate_session : Env → Request → Exec Answer IdpSession
unfolding idp_session_by_id
validate_session env req = do
  require (not (is_empty req.sso_cookie)) (http_error 401 "login_required")
  session ← on_error (http_error 401 "login_required") (idp_session_by_id env req.sso_cookie)
  require (is_none session.deactivated_at) (http_error 401 "login_required")
  pure session

unfoldable pub handle_consent_get : Env → Request → Exec Answer Answer
unfolding validate_session describe_scopes sign_consent params_of
handle_consent_get env req = do
  session ← validate_session env req
  c ←
      on_error (http_error 400 "invalid_client")
        (client_by_client_id env (params_of req.query).client_id)
  pure (
      consent_page (params_of req.query) (describe_scopes (params_of req.query).scope)
        (sign_consent env (params_of req.query) session.user_id))

-- The row of a code that a flow grants; `created` is 0 where the code leaves the time empty.
abbrev pub code_row : Env → FlowParams → String → ℕ → String → String → AuthCode
code_row env p user_id created idp_session_id code = record {
  code = code;
  user_id = user_id;
  client_id = some p.client_id;
  redirect_uri = p.redirect_uri;
  scope = p.scope;
  nonce = p.nonce;
  code_challenge = p.code_challenge;
  code_challenge_method = p.code_challenge_method;
  expires_at = env.now + env.config.authorization_code_expiration;
  used = false;
  created_at = created;
  idp_session_id = some idp_session_id;
}

abbrev pub granted : FlowParams → String → Granted
granted p code = record {
  redirect_uri = p.redirect_uri;
  code = code;
  state = p.state;
  encoded = true;
  sso_cookie = none;
  device_cookie = none;
}

-- The last part of each flow: a new code, its row, and the redirect.
unfoldable pub grant_code :
    {E : Type 0} → Env → E → FlowParams → String → ℕ → String → Exec E Granted
grant_code env failed p user_id created idp_session_id = elim (env.secure_code 1) [
  | none ↦ raise failed
  | some code ↦ (do
    on_error failed (create_auth_code env (code_row env p user_id created idp_session_id code))
    pure (granted p code))
]

-- The part of the function behind the tests.
unfoldable pub decide : Env → Request → FlowParams → IdpSession → Exec Answer Granted
unfolding upsert_consent grant_code
decide env req p session = do
  require (not (req.form "action" == "deny"))
      (redirect p.redirect_uri (("error", "access_denied") ∷ state_param p.state))
  on_error (http_error 500 "server_error") (upsert_consent env session.user_id p.client_id p.scope)
  grant_code env (http_error 500 "server_error") p session.user_id 0 session.id

unfoldable pub handle_consent_post : Env → Request → Exec Answer Granted
unfolding params_of validate_session verify_consent_signature decide
handle_consent_post env req = do
  require req.parses (http_error 400 "invalid_request")
  session ← validate_session env req
  require
      (verify_consent_signature env (params_of req.form) session.user_id (req.form "consent_sig"))
      (http_error 400 "invalid_request")
  c ←
      on_error (http_error 400 "invalid_client")
        (client_by_client_id env (params_of req.form).client_id)
  require (is_valid_redirect_uri env (some c) (params_of req.form).redirect_uri)
      (http_error 400 "invalid_request")
  decide env req (params_of req.form) session

unfoldable pub handle_consent : Env → Request → Exec Answer Granted
unfolding handle_consent_get handle_consent_post
handle_consent env req =
    if req.method == "GET"
    then (do page ← handle_consent_get env req; raise page)
    else if req.method == "POST"
    then handle_consent_post env req
    else raise (http_error 405 "invalid_request")
