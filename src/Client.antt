-- ===== src/Client.antt =====
-- pkg/client: the registry of clients, how a client proves who it is, and what it may ask for
-- (read.go, authenticate.go, the getters of model.go and GetForClient of pkg/config).
pub mod Scopes
pub mod Redirects
pub mod Credentials
use autentico.Prelude.{
  String, Bool, true, false, Option, none, some, List, [], ◌∷◌, ◌++◌, ◌==◌, ◌&&◌, ◌||◌, not, member,
  filter, all, is_empty, or_empty, if◌then◌else◌, ℕ,
}
use autentico.Schema.{Client, Db}
use autentico.Env.{Env, Config, query, select_client}
use autentico.Exec.{Exec, GoError, message, ok, err, pure, raise, require, on_error, ◌>>=◌, ◌>>◌}
use autentico.Sql.{find_row}
use autentico.Text.{fields, join, has_prefix, has_suffix, cut_at}
use autentico.Web.{Request}

-- `WHERE client_id = ? AND is_active = 1`.
abbrev pub is_registered : String → Client → Bool
is_registered client_id c = c.client_id == client_id && c.is_active

unfoldable pub client_by_client_id : Env → String → Exec GoError Client
unfolding query find_row
client_by_client_id env client_id =
    query env select_client (λ db. find_row (is_registered client_id) db.clients)

unfoldable pub authenticate_client : Env → String → String → Exec GoError Client
unfolding client_by_client_id
authenticate_client env client_id client_secret = do
  client ← on_error (message "invalid client credentials") (client_by_client_id env client_id)
  require client.is_active (message "client is inactive")
  if client.client_type == "public" then pure client else do
    require (not (is_empty client_secret))
        (message "client secret required for confidential clients")
    require (env.compare_hash (or_empty client.client_secret) client_secret)
        (message "invalid client credentials")
    pure client

-- A confidential client's secret in the form.
unfoldable pub authenticate_secret : Env → String → String → Exec GoError (Option Client)
unfolding authenticate_client
authenticate_secret env client_id client_secret = do
  require (not (is_empty client_secret)) (message "client secret required")
  c ← authenticate_client env client_id client_secret
  pure (some c)

-- The part of AuthenticateClientFromRequest for credentials in the form.
unfoldable pub authenticate_form : Env → String → String → Exec GoError (Option Client)
unfolding client_by_client_id authenticate_secret
authenticate_form env client_id client_secret = do
  client ← on_error (message "unknown client_id") (client_by_client_id env client_id)
  if client.client_type == "public"
      then (do require client.is_active (message "client is inactive"); pure (some client))
      else authenticate_secret env client_id client_secret

-- `none` is the code's `nil, nil`: no credentials were given.
unfoldable pub authenticate_client_from_request : Env → Request → Exec GoError (Option Client)
unfolding authenticate_client authenticate_form
authenticate_client_from_request env r = elim r.basic_auth [
  | some (user, pass) ↦ (do c ← authenticate_client env user pass; pure (some c))
  | none ↦
      if is_empty (r.form "client_id")
      then pure none
      else authenticate_form env (r.form "client_id") (r.form "client_secret")
]

unfoldable pub get_redirect_uris : Env → Client → List String
get_redirect_uris env c = env.json_strings c.redirect_uris

unfoldable pub get_post_logout_redirect_uris : Env → Client → List String
get_post_logout_redirect_uris env c = env.json_strings c.post_logout_redirect_uris

unfoldable pub get_grant_types : Env → Client → List String
get_grant_types env c = env.json_strings c.grant_types

unfoldable pub get_response_types : Env → Client → List String
get_response_types env c = env.json_strings c.response_types

-- One round of the loop of IsValidRedirectURI.
unfoldable pub allows_uri : String → String → Bool
unfolding cut_at has_prefix has_suffix
allows_uri redirect_uri uri = uri == redirect_uri || (elim (cut_at b'*' uri) [
  | none ↦ false
  | some (prefix, suffix) ↦ has_prefix redirect_uri prefix && has_suffix redirect_uri suffix
])

unfoldable pub any_allows : String → List String → Bool
unfolding allows_uri
any_allows redirect_uri [] = false
any_allows redirect_uri (uri ∷ uris) = allows_uri redirect_uri uri || any_allows redirect_uri uris

unfoldable pub is_valid_redirect_uri : Env → Option Client → String → Bool
unfolding get_redirect_uris any_allows
is_valid_redirect_uri env none redirect_uri = true
is_valid_redirect_uri env (some c) redirect_uri = any_allows redirect_uri (get_redirect_uris env c)

unfoldable pub is_grant_type_allowed : Env → Option Client → String → Bool
unfolding get_grant_types
is_grant_type_allowed env none grant_type = true
is_grant_type_allowed env (some c) grant_type = member grant_type (get_grant_types env c)

unfoldable pub is_response_type_allowed : Env → Option Client → String → Bool
unfolding get_response_types
is_response_type_allowed env none response_type = true
is_response_type_allowed env (some c) response_type =
    member response_type (get_response_types env c)

-- Whether a scope is among the scopes of a space-separated text.
abbrev pub is_allowed : String → String → Bool
is_allowed scopes s = member s (fields scopes)

unfoldable pub filter_scopes : Option Client → String → String
filter_scopes none requested = requested
filter_scopes (some c) requested =
    if is_empty c.scopes then requested else join (filter (is_allowed c.scopes) (fields requested))

unfoldable pub validate_scopes : Option Client → String → Bool
validate_scopes none requested = true
validate_scopes (some c) requested =
    if is_empty c.scopes || is_empty requested
    then true
    else all (is_allowed c.scopes) (fields requested)

abbrev override : (String → Option ℕ) → Option String → ℕ → ℕ
override parse none default = default
override parse (some s) default = elim (parse s) [ none ↦ default | some d ↦ d ]

abbrev audiences : Env → Option String → List String
audiences env none = []
audiences env (some s) = if env.is_json_strings s then env.json_strings s else []

-- config.GetForClient(c.ToOverrides()), on the settings that the token endpoint reads.
unfoldable pub config_for_client : Env → Client → Config
config_for_client env c = record (env.config) {
  access_token_expiration =
      override env.parse_duration c.access_token_expiration env.config.access_token_expiration;
  refresh_token_expiration =
      override env.parse_duration c.refresh_token_expiration env.config.refresh_token_expiration;
  access_token_audience = env.config.access_token_audience ++ audiences env c.allowed_audiences;
}
