-- ===== src/Token/Handler/Scopes.antt =====
-- The scopes that a refresh and a client_credentials grant may hand out.
use autentico.Prelude.{
  String, ◌≡◌, refl, sym, ap, ◌∙◌, true, false, not, some, List, [], ◌∷◌, arith, eq_iff, is_empty,
  member, ◌==◌, all, Bool-cases, inl, inr, ◌⊎◌, ℕ,
}
use autentico.Schema.{Client, Token, Db}
use autentico.Env.{Env, query, exec, exec_if, select_scope}
use autentico.Exec.{ok, Result, HttpError, on_error, lift, http, require}
use autentico.Exec.Inversion.{bind-ok, require-ok}
use autentico.Sql.{find_row, modify}
use autentico.Sql.Laws.{find_row-update}
use autentico.Text.{fields, push, words}
use autentico.IdpSession.{update_last_activity}
use autentico.Token.{create_token, update_tokens, revoke}
use autentico.Token.Scopes.{is_scope_subset, member-remove_scope, is_scope_subset_trans}
use autentico.Token.CodeGrant.{TokenRequest}
use autentico.Token.Generate.{AuthToken, generate_client_credentials_token}
use autentico.Token.RefreshGrant.{
  rotate_grant, rescope, carry_idp, rotate_token, Carried, has_refresh, is_rotated, carried,
  original_token,
}
use autentico.Token.Grants.{default_to}
use autentico.Token.Handler.{
  client_credentials, client_credentials_of, client_scope, client_token, TokenResponse,
  server_error, client_response,
}
use autentico.Client.{validate_scopes, config_for_client}

all-member_of :
    (xs ys : List String)
    → ((s : String) → member s ys ≡ true → member s xs ≡ true)
    → all (λ s. member s xs) ys ≡ true
all-member_of xs [] h = refl
all-member_of xs (y ∷ ys) h =
    ground (arith, h y, all-member_of xs ys (λ s m. h s (ground (arith, m))), eq_iff y y)

subset_refl : (s : String) → is_scope_subset s s ≡ true
unfolding is_scope_subset
subset_refl s = all-member_of (fields s) (fields s) (λ x m. m)

rescope-subset :
    (r : TokenRequest) (token_scope scope : String)
    → rescope r token_scope ≡ ok scope
    → is_scope_subset scope token_scope ≡ true
unfolding rescope
rescope-subset r token_scope scope h = ground (arith, subset_refl token_scope)

lift-ok :
    {A : Type 0} (r : Result HttpError A) (a : A) (db db' : Db) → lift r db ≡ (ok a, db') → r ≡ ok a
lift-ok r a db db' h = ground arith

carry_idp-tokens :
    (env : Env) (r : TokenRequest) (idp : String) (db db' : Db)
    → carry_idp env r db ≡ (ok idp, db')
    → db'.tokens ≡ db.tokens
unfolding carry_idp query exec update_last_activity
carry_idp-tokens env r idp db db' h = ground arith

subset_of_empty : (a b : String) → is_scope_subset a "" ≡ true → is_scope_subset a b ≡ true
unfolding is_scope_subset fields push words
subset_of_empty a b h = is_scope_subset_trans a "" b h refl

original_token-scope :
    (env : Env) (token : String) (first : String × ℕ) (t : Token) (db db' : Db)
    → original_token env token db ≡ (ok first, db')
    → find_row (has_refresh token) db.tokens ≡ some t
    → (first.0 ≡ "") ⊎ (first.0 ≡ t.scope)
unfolding original_token query
original_token-scope env token first t db db' h row = elim (Bool-cases (env.fails select_scope)) [
  | inl down ↦ inl (ground arith)
  | inr up ↦ inr (ground arith)
]

carried-subset :
    (env : Env) (r : TokenRequest) (idp : String) (g : Carried) (t : Token) (db db' : Db)
    → carried env r idp db ≡ (ok g, db')
    → find_row (has_refresh r.refresh_token) db.tokens ≡ some t
    → is_scope_subset g.scope t.scope ≡ true
unfolding carried
carried-subset env r idp g t db db' h row =
    let (first, db1, h1, rest1) = bind-ok (original_token env r.refresh_token) _ db g db' h in
    let (scope, db2, h2, rest2) = bind-ok (lift (rescope r first.0)) _ db1 g db' rest1 in
    let within = rescope-subset r first.0 scope (lift-ok (rescope r first.0) scope db1 db2 h2) in
    let same : g.scope ≡ scope = ground arith in
    elim (original_token-scope env r.refresh_token first t db db1 h1 row) [
      | inl unread ↦ subset_of_empty g.scope t.scope (ground (arith, within, same, unread))
      | inr read ↦ ground (arith, within, same, read)
    ]

rotate_token-ok :
    (env : Env) (token : String) (db db' : Db)
    → on_error (http 500 "server_error") (rotate_token env token) db ≡ (ok tt, db')
    → db' ≡ update_tokens (is_rotated token) (revoke env) db
unfolding rotate_token exec
rotate_token-ok env token db db' h = ground arith

rotated_scope :
    (env : Env) (token : String) (t : Token)
    → (modify (is_rotated token) (revoke env) t).scope ≡ t.scope
rotated_scope env token t = ground arith

-- The scope of a refreshed grant is within the scope of the presented token's row, also where the
-- database refuses to read that row.
pub rotate-subset :
    (env : Env) (r : TokenRequest) (g : Carried) (t : Token) (db db' : Db)
    → rotate_grant env r db ≡ (ok g, db')
    → find_row (has_refresh r.refresh_token) db.tokens ≡ some t
    → is_scope_subset g.scope t.scope ≡ true
unfolding rotate_grant
rotate-subset env r g t db db' h row =
    let token = r.refresh_token in
    let (idp, db1, h1, rest1) = bind-ok (carry_idp env r) _ db g db' h in
    let (_, db2, h2, rest2) =
      bind-ok (on_error (http 500 "server_error") (rotate_token env token)) _ db1 g db' rest1 in
    let kept =
      ap (find_row (has_refresh token)) (ap (λ d. d.tokens) (rotate_token-ok env token db1 db2 h2))
      ∙ find_row-update (has_refresh token) (is_rotated token) (revoke env) db1.tokens (λ y. refl)
          (ap (find_row (has_refresh token)) (carry_idp-tokens env r idp db db1 h1) ∙ row) in
    ap (is_scope_subset g.scope) (sym (rotated_scope env token t))
    ∙ carried-subset env r idp g (modify (is_rotated token) (revoke env) t) db2 db' rest2 kept

-- What a client_credentials grant promises.
pub record IsClientToken (env : Env) (c : Client) (resp : TokenResponse) (db db' : Db)
    : Type 0 where
  pub confidential : c.client_type ≡ "confidential"
  pub nobody : member "openid" (fields resp.scope) ≡ false
  pub allowed : validate_scopes (some c) resp.scope ≡ true
  pub no_refresh : resp.refresh_token ≡ ""
  pub no_identity : resp.id_token ≡ ""
  pub tokens : AuthToken
  pub written : db' ≡ record db {
    tokens = record (client_token env tokens resp.scope) { id = env.fresh_id 2 } ∷ db.tokens;
  }

client_scope-openid :
    (r : TokenRequest) (c : Client) → member "openid" (fields (client_scope r c)) ≡ false
unfolding client_scope
client_scope-openid r c = ground (
  arith,
  member-remove_scope (default_to c.scopes r.scope) "openid" "openid",
  eq_iff "openid" "openid",
)

create_token-ok :
    (env : Env) (id : String) (row : Token) (db db' : Db)
    → on_error server_error (create_token env id row) db ≡ (ok tt, db')
    → db' ≡ record db { tokens = record row { id = id } ∷ db.tokens }
unfolding create_token exec_if
create_token-ok env id row db db' h = ground arith

-- If client_credentials is granted, then the client is confidential; the scope holds no openid and
-- passes the client's validation; there is neither a refresh token nor an ID token; and all that
-- is written is one row of the table of tokens, without an owner, for that scope.
pub client_credentials-IsClientToken :
    (env : Env) (r : TokenRequest) (c : Client) (resp : TokenResponse) (db db' : Db)
    → client_credentials env (some c) r db ≡ (ok resp, db')
    → IsClientToken env c resp db db'
unfolding client_credentials client_credentials_of
client_credentials-IsClientToken env r c resp db db' h =
    let scope = client_scope r c in
    let cfg = config_for_client env c in
    let made = generate_client_credentials_token env r.client_id scope cfg in
    let (_, db1, h1, rest1) =
      bind-ok (require (c.client_type == "confidential") _) _ db resp db' h in
    let (_, db2, h2, rest2) = bind-ok (require (not (is_empty scope)) _) _ db1 resp db' rest1 in
    let (_, db3, h3, rest3) =
      bind-ok (require (validate_scopes (some c) scope) _) _ db2 resp db' rest2 in
    let (t, db4, h4, rest4) = bind-ok (on_error server_error (lift made)) _ db3 resp db' rest3 in
    let (_, db5, h5, rest5) =
      bind-ok (on_error server_error (create_token env (env.fresh_id 2) (client_token env t scope)))
        _ db4 resp db' rest4 in
    let stored = create_token-ok env (env.fresh_id 2) (client_token env t scope) db4 db5 h5 in
    let (kind, same1) =
      require-ok (c.client_type == "confidential") (http 400 "unauthorized_client") db db1 h1 in
    let (given, same2) = require-ok (not (is_empty scope)) (http 400 "invalid_scope") db1 db2 h2 in
    let (valid, same3) =
      require-ok (validate_scopes (some c) scope) (http 400 "invalid_scope") db2 db3 h3 in
    let same4 : db4 ≡ db3 = ground arith in
    let answer : resp ≡ client_response cfg t scope = ground arith in
    record {
      confidential = (eq_iff c.client_type "confidential").0 kind;
      nobody = ap (λ x. member "openid" (fields x.scope)) answer ∙ client_scope-openid r c;
      allowed = ap (λ x. validate_scopes (some c) x.scope) answer ∙ valid;
      no_refresh = ap (λ x. x.refresh_token) answer;
      no_identity = ap (λ x. x.id_token) answer;
      tokens = t;
      written = ground arith;
    }
