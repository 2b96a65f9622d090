-- ===== src/Tests/Browsers.antt =====
-- The authorization endpoint at the concrete server.
use mathlib.Core.Bool.{false≢true}
use autentico.Client.{is_valid_redirect_uri}
use autentico.Prelude.{
  ap, ◌∙◌, some-eq, ◌≡◌, ◌≢◌, ◌≤◌, ◌+◌, ◌*◌, refl, String, true, none, some, ◌==◌, inr, ◌∷◌, [],
  if◌then◌else◌, arith,
}
use autentico.Schema.{Client, second}
use autentico.Exec.{ok, err}
use autentico.Env.{Env}
use autentico.Web.{Request}
use autentico.Browser.{Answer, Granted, error_page, redirect}
use autentico.AuthCode.{mark_code}
use autentico.Token.CodeGrant.{TokenRequest, user_by_authorization_code}
use autentico.Token.Pkce.{Transforms}
use autentico.Authzsig.{AuthorizeParams, canonicalize, sign}
use autentico.Authzsig.Tampering.{verify-same}
use autentico.IdpSession.{deactivate_with_cascade}
use autentico.IdpSession.Cascade.{cascaded}
use autentico.Consent.Redeem.{row_of, Presents}
use autentico.Authorize.{handle_authorize, authorize_request, flow_of}
use autentico.Authorize.Authorized.{IsAuthorized, handle_authorize-IsAuthorized, Trusted}
use autentico.Authorize.Answers.{IsQuiet, handle_authorize-IsQuiet}
use autentico.Authorize.Redeem.{authorize-redeem, authorize-max_age}
use autentico.Authorize.SignedOut.{cascade-authorize}
use autentico.Tests.World.{env, minute_later, env_at-Healthy, start}
use autentico.Tests.Rows.{app, db, user, idp_session, verifier, blank, flow_field, browse}

abbrev request : Request
request = browse flow_field

abbrev granted : Granted
granted = record {
  redirect_uri = "https://app/cb";
  code = "code2";
  state = "s1";
  encoded = true;
  sso_cookie = none;
  device_cookie = none;
}

given : handle_authorize env request db ≡ (ok granted, (handle_authorize env request db).1)
unfolding handle_authorize autentico.Browser.is_redirect_uri autentico.Client.client_by_client_id
    autentico.Client.is_valid_redirect_uri autentico.Text.split autentico.Text.fields
    autentico.Text.push autentico.Text.words autentico.Text.is_space
    autentico.Client.is_response_type_allowed autentico.Client.validate_scopes
    autentico.IdpSession.idp_session_by_id autentico.Authorize.MaxAge.exceeds_max_age
    autentico.Consent.needs_consent autentico.Consent.grant_code autentico.AuthCode.create_auth_code
    autentico.Env.exec_if autentico.Authorize.MaxAge.digits autentico.Authorize.MaxAge.in_range
    autentico.Authorize.MaxAge.is_older autentico.Authorize.MaxAge.negated
    autentico.Authorize.MaxAge.parse_digits autentico.Authorize.MaxAge.parse_max_age
    autentico.Authorize.MaxAge.seconds autentico.Authorize.ask_user authorize_request
    autentico.Authorize.authorize_signature autentico.Authorize.check_request
    autentico.Authorize.code_from autentico.Authorize.login_from autentico.Authorize.must_ask
    autentico.Authorize.redirect_to_get autentico.Authorize.refuse_silently
    autentico.Authorize.trusted_client autentico.Authorize.try_auto_login
    autentico.Authorize.validate_authorize_request autentico.Authorize.validate_scope_syntax
    autentico.Authorize.validate_scope_token canonicalize sign autentico.Client.allows_uri
    autentico.Client.any_allows autentico.Client.get_redirect_uris
    autentico.Client.get_response_types autentico.Consent.contains_prompt_value
    autentico.Consent.get_consent autentico.Consent.is_covered autentico.Consent.redirect_to_consent
    autentico.Consent.scopes_covered autentico.Env.exec autentico.Env.query
    autentico.IdpSession.update_last_activity autentico.Sql.any_row autentico.Sql.find_row
    autentico.Sql.update_rows autentico.Text.append autentico.Text.cut_at autentico.Text.has_prefix
    autentico.Text.has_suffix autentico.Text.join_lines autentico.Text.pieces
given = refl

handle_authorize-IsAuthorized_example :
    IsAuthorized env request granted db (handle_authorize env request db).1
handle_authorize-IsAuthorized_example =
    handle_authorize-IsAuthorized env request granted db (handle_authorize env request db).1 given

abbrev exchange : TokenRequest
exchange = record blank {
  grant_type = "authorization_code";
  code = "code2";
  redirect_uri = "https://app/cb";
  code_verifier = verifier;
}

presents :
    Presents env minute_later
      (flow_of (authorize_request request))
      (row_of env (flow_of (authorize_request request)) "u1" start "idp0" granted)
      exchange
unfolding autentico.Token.CodeGrant.validate_token_request_authorization_code authorize_request
    autentico.Token.Pkce.validate_code_verifier autentico.Token.Pkce.is_unreserved
presents = record {
  valid = refl;
  code = refl;
  redirect = refl;
  client = refl;
  in_time = omega arith;
  pkce = inr (refl, Transforms.s256);
}

authorize-redeem_example :
    user_by_authorization_code minute_later exchange (handle_authorize env request db).1 ≡ (
      ok (user, row_of env (flow_of (authorize_request request)) "u1" start "idp0" granted),
      mark_code "code2" (handle_authorize env request db).1,
    )
unfolding autentico.Sql.find_row
authorize-redeem_example =
    authorize-redeem env minute_later request granted idp_session exchange user db
      (handle_authorize env request db).1 given refl (env_at-Healthy (start + 60 * second)) presents
      refl

abbrev limited : String → String
limited name = if name == "max_age" then "3600" else flow_field name

in_age :
    handle_authorize env (browse limited) db
    ≡ (ok granted, (handle_authorize env (browse limited) db).1)
unfolding handle_authorize autentico.Browser.is_redirect_uri autentico.Client.client_by_client_id
    autentico.Client.is_valid_redirect_uri autentico.Text.split autentico.Text.fields
    autentico.Text.push autentico.Text.words autentico.Text.is_space
    autentico.Client.is_response_type_allowed autentico.Client.validate_scopes
    autentico.IdpSession.idp_session_by_id autentico.Authorize.MaxAge.exceeds_max_age
    autentico.Consent.needs_consent autentico.Consent.grant_code autentico.AuthCode.create_auth_code
    autentico.Env.exec_if autentico.Authorize.MaxAge.digits autentico.Authorize.MaxAge.in_range
    autentico.Authorize.MaxAge.is_older autentico.Authorize.MaxAge.negated
    autentico.Authorize.MaxAge.parse_digits autentico.Authorize.MaxAge.parse_max_age
    autentico.Authorize.MaxAge.seconds autentico.Authorize.ask_user authorize_request
    autentico.Authorize.authorize_signature autentico.Authorize.check_request
    autentico.Authorize.code_from autentico.Authorize.login_from autentico.Authorize.must_ask
    autentico.Authorize.redirect_to_get autentico.Authorize.refuse_silently
    autentico.Authorize.trusted_client autentico.Authorize.try_auto_login
    autentico.Authorize.validate_authorize_request autentico.Authorize.validate_scope_syntax
    autentico.Authorize.validate_scope_token canonicalize sign autentico.Client.allows_uri
    autentico.Client.any_allows autentico.Client.get_redirect_uris
    autentico.Client.get_response_types autentico.Consent.contains_prompt_value
    autentico.Consent.get_consent autentico.Consent.is_covered autentico.Consent.redirect_to_consent
    autentico.Consent.scopes_covered autentico.Env.exec autentico.Env.query
    autentico.IdpSession.update_last_activity autentico.Sql.any_row autentico.Sql.find_row
    autentico.Sql.update_rows autentico.Text.append autentico.Text.cut_at autentico.Text.has_prefix
    autentico.Text.has_suffix autentico.Text.join_lines autentico.Text.pieces
in_age = refl

authorize-max_age_example : env.now ≤ start + 3600 * second
unfolding autentico.Sql.find_row autentico.Authorize.MaxAge.parse_max_age authorize_request
authorize-max_age_example =
    authorize-max_age env (browse limited) granted idp_session 3600 db
      (handle_authorize env (browse limited) db).1 in_age refl refl (omega arith)

abbrev silent : String → String
silent name = if name == "prompt" then "none" else flow_field name

-- Without a cookie.
abbrev unknown : Request
unknown = record (browse silent) { sso_cookie = "" }

abbrev refused : Answer
refused = redirect "https://app/cb" (("error", "login_required") ∷ ("state", "s1") ∷ [])

quiet : handle_authorize env unknown db ≡ (err refused, db)
unfolding handle_authorize autentico.Browser.is_redirect_uri autentico.Client.client_by_client_id
    autentico.Client.is_valid_redirect_uri autentico.Text.split autentico.Text.fields
    autentico.Text.push autentico.Text.words autentico.Text.is_space
    autentico.Client.is_response_type_allowed autentico.Client.validate_scopes
quiet = refl

handle_authorize-IsQuiet_example : IsQuiet env (authorize_request unknown) refused
unfolding authorize_request
handle_authorize-IsQuiet_example = handle_authorize-IsQuiet env unknown refused db db refl quiet

abbrev foreign : String → String
foreign name = if name == "redirect_uri" then "https://evil/cb" else flow_field name

not-Trusted : (c : Client) → ¬ Trusted env (authorize_request (browse foreign)) c db
unfolding autentico.Sql.find_row authorize_request is_valid_redirect_uri autentico.Text.split
not-Trusted c t =
    let same : app ≡ c = some-eq t.registered in
    false≢true (ap (λ k. is_valid_redirect_uri env (some k) "https://evil/cb") same ∙ t.allowed)

ended : deactivate_with_cascade env "idp0" db ≡ (ok tt, cascaded env "idp0" db)
unfolding deactivate_with_cascade autentico.Env.exec
ended = refl

cascade-authorize_example :
    handle_authorize minute_later request (cascaded env "idp0" db)
    ≢ (ok granted, (handle_authorize env request db).1)
cascade-authorize_example =
    cascade-authorize env minute_later request granted db (cascaded env "idp0" db)
      (handle_authorize env request db).1 ended

abbrev params : AuthorizeParams
params = record {
  client_id = "app";
  redirect_uri = "https://app/cb";
  scope = "openid";
  nonce = "n1";
  code_challenge = verifier;
  code_challenge_method = "S256";
  state = "s1";
}

verify-same_example : params ≡ params
unfolding autentico.Text.Lines.is_line autentico.Authzsig.verify autentico.Text.join_lines
    autentico.Text.append
verify-same_example =
    verify-same env params params (canonicalize params) (λ h. h) refl refl refl refl
