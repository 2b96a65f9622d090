-- ===== src/Token.antt =====
-- pkg/token: the table of tokens (create.go, read.go, revoke.go) and, below it, the token endpoint.
pub mod Scopes
pub mod Pkce
pub mod CodeGrant
pub mod DeviceGrant
pub mod RefreshGrant
pub mod Generate
pub mod Grants
pub mod Handler
use autentico.Prelude.{
  String, Bool, true, false, not, Option, none, some, ◌∷◌, ◌==◌, ◌&&◌, ◌||◌, is_none, some_is,
  if◌then◌else◌,
}
use autentico.Schema.{Token, Db}
use autentico.Env.{
  Env, query, exec, exec_if, select_token, insert_token, revoke_code_tokens, revoke_by_id,
  revoke_by_value,
}
use autentico.Exec.{Exec, GoError, message, pure, raise, ◌>>=◌, ◌>>◌}
use autentico.Sql.{find_row, update_rows, any_row}
use autentico.AuthCode.{has_user}

abbrev pub has_id : String → Token → Bool
has_id id t = t.id == id

abbrev owner_exists : Db → Option String → Bool
owner_exists db none = true
owner_exists db (some user_id) = has_user db user_id

-- The identifier is a fresh xid; the owner is a foreign key that may be NULL.
unfoldable pub create_token : Env → String → Token → Exec GoError (Unit {0})
create_token env id token =
    exec_if env insert_token
      (λ db. owner_exists db token.user_id && not (any_row (has_id id) db.tokens))
      (λ db. record db { tokens = record token { id = id } ∷ db.tokens })

-- `WHERE access_token = ? AND revoked_at IS NULL`.
abbrev pub is_live : String → Token → Bool
is_live access_token t = t.access_token == access_token && is_none t.revoked_at

unfoldable pub token_by_access_token : Env → String → Exec GoError Token
token_by_access_token env access_token =
    query env select_token (λ db. find_row (is_live access_token) db.tokens)

abbrev pub revoke : Env → Token → Token
revoke env t = record t { revoked_at = some env.now }

abbrev pub update_tokens : (Token → Bool) → (Token → Token) → Db → Db
update_tokens p f db = record db { tokens = update_rows p f db.tokens }

-- The tokens that a replayed authorization code takes down.
abbrev pub is_code_token : String → Token → Bool
is_code_token user_id t =
    some_is t.user_id user_id && t.grant_type == "authorization_code" && is_none t.revoked_at

unfoldable pub revoke_tokens_by_user_and_client : Env → String → String → Exec GoError (Unit {0})
revoke_tokens_by_user_and_client env user_id client_id =
    exec env revoke_code_tokens (update_tokens (is_code_token user_id) (revoke env))

abbrev pub is_active_id : String → Token → Bool
is_active_id id t = t.id == id && is_none t.revoked_at

unfoldable pub revoke_token_by_id : Env → String → Exec GoError (Unit {0})
revoke_token_by_id env id db =
    let found = any_row (is_active_id id) db.tokens in
    (do
      exec env revoke_by_id (update_tokens (is_active_id id) (revoke env))
      if found then pure tt else raise (message "token not found or already revoked"))
      db

abbrev pub has_value : String → Token → Bool
has_value value t = t.access_token == value || t.refresh_token == value

unfoldable pub revoke_by_token_value : Env → String → Exec GoError (Unit {0})
revoke_by_token_value env value =
    exec env revoke_by_value (update_tokens (has_value value) (revoke env))
