-- ===== src/Token/Generate.antt =====
-- The claims of the tokens and their signing (pkg/token/generate.go). The `name` claim has the
-- value of `preferred_username` and the `typ` claim is constant: neither has a field.
pub mod Audience
use autentico.Prelude.{
  ℕ, ◌+◌, String, Bool, true, false, Option, none, some, List, [], ◌∷◌, ◌++◌, member, is_empty,
  or_empty, if◌then◌else◌,
}
use autentico.Schema.{User, to_unix}
use autentico.Env.{Env, Config, AccessClaims, RefreshClaims, IdClaims}
use autentico.Exec.{GoError, message, Result, ok, err}
use autentico.Token.Scopes.{contains_scope}

unfoldable pub acr_for_user : User → String
acr_for_user u = if u.totp_verified then "2" else "1"

-- The loop of buildAudience; what it has seen is what the audience holds.
unfoldable pub extend_audience : List String → List String → List String
extend_audience aud [] = aud
extend_audience aud (a ∷ more) =
    extend_audience (if member a aud then aud else aud ++ (a ∷ [])) more

unfoldable pub build_audience : String → String → List String → List String
unfolding extend_audience
build_audience issuer client_id custom_audiences =
    extend_audience (issuer ∷ client_id ∷ []) custom_audiences

pub record AuthToken : Type 0 where
  pub user_id : String
  pub access_token : String
  pub refresh_token : String
  pub session_id : String
  pub access_expires_at : ℕ
  pub refresh_expires_at : ℕ

-- A claim that is set where the scope asks for it.
abbrev when {ℓ} : {A : Type ℓ} → Bool → A → Option A
when true a = some a
when false a = none

abbrev non_empty : String → Option String
non_empty s = if is_empty s then none else some s

abbrev named : Option (List String) → Option (List String)
named (some (g ∷ gs)) = some (g ∷ gs)
named _ = none

-- The groups claim: only where the scope asks for it and the user is in a group.
abbrev pub group_claim : Env → String → String → Option (List String)
group_claim env scope user_id =
    if contains_scope scope "groups" then named (env.group_names user_id) else none

abbrev with_groups : String → Option (List String) → List String
with_groups role none = role ∷ []
with_groups role (some groups) = role ∷ groups

unfoldable pub access_claims :
    Env → User → String → String → Config → String → String → AccessClaims
unfolding acr_for_user build_audience
access_claims env usr client_id scope cfg session_id jti = record {
  exp = to_unix (env.now + cfg.access_token_expiration);
  iat = to_unix env.now;
  auth_time = to_unix env.now;
  jti = jti;
  iss = env.issuer;
  aud = build_audience env.issuer client_id cfg.access_token_audience;
  sub = usr.id;
  azp = client_id;
  sid = session_id;
  acr = acr_for_user usr;
  scope = scope;
  role = some usr.role;
  preferred_username = when (contains_scope scope "profile") usr.username;
  email = when (contains_scope scope "email") (or_empty usr.email);
  email_verified = when (contains_scope scope "email") usr.is_email_verified;
  groups = group_claim env scope usr.id;
  roles = some (with_groups usr.role (group_claim env scope usr.id));
}

unfoldable pub refresh_claims : Env → User → String → Config → String → RefreshClaims
refresh_claims env usr client_id cfg session_id = record {
  user_id = usr.id;
  session_id = session_id;
  client_id = client_id;
  issued_at = to_unix env.now;
  expires_at = to_unix (env.now + cfg.refresh_token_expiration);
}

abbrev pub signed : String → Option String → Result GoError String
signed error none = err (message error)
signed error (some token) = ok token

abbrev pub then_with : {A B : Type 0} → Result GoError A → (A → Result GoError B) → Result GoError B
then_with (ok a) f = f a
then_with (err e) f = err e

-- The identifiers of the session and of the token are the first two that the request draws.
unfoldable pub generate_tokens : Env → User → String → String → Config → Result GoError AuthToken
unfolding access_claims refresh_claims
generate_tokens env usr client_id scope cfg =
    let session_id = env.fresh_id 0 in
    then_with
      (signed "could not sign access token"
        (env.sign_access (access_claims env usr client_id scope cfg session_id (env.fresh_id 1))))
      (λ access.
        then_with
          (signed "could not sign refresh token"
            (env.sign_refresh (refresh_claims env usr client_id cfg session_id)))
          (λ refresh. ok (record {
            user_id = usr.id;
            access_token = access;
            refresh_token = refresh;
            session_id = session_id;
            access_expires_at = env.now + cfg.access_token_expiration;
            refresh_expires_at = env.now + cfg.refresh_token_expiration;
          })))

unfoldable pub id_claims : Env → User → String → String → String → String → ℕ → String → IdClaims
id_claims env usr session_id nonce scope client_id auth_time access_token = record {
  iss = env.issuer;
  sub = usr.id;
  aud = client_id;
  exp = to_unix (env.now + env.config.access_token_expiration);
  iat = to_unix env.now;
  auth_time = to_unix auth_time;
  sid = session_id;
  acr = "1";
  nonce = non_empty nonce;
  at_hash = if is_empty access_token then none else some (env.at_hash access_token);
  azp = non_empty client_id;
  preferred_username = when (contains_scope scope "profile") usr.username;
  given_name = if contains_scope scope "profile" then non_empty usr.given_name else none;
  family_name = if contains_scope scope "profile" then non_empty usr.family_name else none;
  groups = group_claim env scope usr.id;
  roles = with_groups usr.role (group_claim env scope usr.id);
  email = when (contains_scope scope "email") (or_empty usr.email);
  email_verified = when (contains_scope scope "email") usr.is_email_verified;
}

unfoldable pub generate_id_token :
    Env → User → String → String → String → String → ℕ → String → Result GoError String
unfolding id_claims
generate_id_token env usr session_id nonce scope client_id auth_time access_token =
    signed "could not sign id token"
      (env.sign_id (id_claims env usr session_id nonce scope client_id auth_time access_token))

unfoldable pub client_claims : Env → String → String → Config → String → String → AccessClaims
unfolding build_audience
client_claims env client_id scope cfg session_id jti = record {
  exp = to_unix (env.now + cfg.access_token_expiration);
  iat = to_unix env.now;
  auth_time = to_unix env.now;
  jti = jti;
  iss = env.issuer;
  aud = build_audience env.issuer client_id cfg.access_token_audience;
  sub = client_id;
  azp = client_id;
  sid = session_id;
  acr = "1";
  scope = scope;
  role = none;
  preferred_username = none;
  email = none;
  email_verified = none;
  groups = none;
  roles = none;
}

-- The time of the refresh token that is not there is Go's zero time.
unfoldable pub generate_client_credentials_token :
    Env → String → String → Config → Result GoError AuthToken
unfolding client_claims
generate_client_credentials_token env client_id scope cfg =
    let session_id = env.fresh_id 0 in
    then_with
      (signed "could not sign access token"
        (env.sign_access (client_claims env client_id scope cfg session_id (env.fresh_id 1))))
      (λ access. ok (record {
        user_id = "";
        access_token = access;
        refresh_token = "";
        session_id = session_id;
        access_expires_at = env.now + cfg.access_token_expiration;
        refresh_expires_at = 0;
      }))
