-- ===== src/Token/Handler/Issue.antt =====
-- What the token endpoint writes when it issues tokens, and what becomes of them.
use mathlib.Core.Path.{subst}
use autentico.Prelude.{
  String, ◌≡◌, refl, ap, sym, ◌∙◌, ◌⊎◌, inl, inr, true, false, none, some, Option, ◌∷◌, arith,
  is_empty, eq_iff, Bool-cases,
}
use autentico.Schema.{Client, Token, Session, Db}
use autentico.Env.{Env, exec_if}
use autentico.Exec.{ok, err, Result, GoError, lift, on_error}
use autentico.Exec.Inversion.{bind-ok, on_error-ok}
use autentico.AuthCode.{null_if_empty}
use autentico.Web.{Request}
use autentico.Token.{create_token}
use autentico.Session.{create_session}
use autentico.Token.Scopes.{contains_scope}
use autentico.Token.Generate.{AuthToken, generate_tokens, signed}
use autentico.Token.Grants.{Grant}
use autentico.Token.Handler.Signed.{
  IsSigned, IsIdentity, generate_tokens-IsSigned, id_token-IsIdentity,
}
use autentico.Token.Handler.{
  issue, TokenResponse, token_request, token_row, session_row, client_config, id_token, response,
  server_error,
}

create_token-ok :
    (env : Env) (id : String) (row : Token) (db db' : Db)
    → create_token env id row db ≡ (ok tt, db')
    → db' ≡ record db { tokens = record row { id = id } ∷ db.tokens }
unfolding create_token exec_if
create_token-ok env id row db db' h = ground arith

create_session-ok :
    (env : Env) (row : Session) (db db' : Db)
    → create_session env row db ≡ (ok tt, db')
    → db' ≡ record db {
      sessions =
          record row {
            created_at = env.now;
            deactivated_at = none;
            idp_session_id = null_if_empty row.idp_session_id;
          }
          ∷ db.sessions;
    }
unfolding create_session exec_if
create_session-ok env row db db' h = ground arith

-- The rows that are written for tokens.
abbrev pub row_of : Env → Request → Grant → AuthToken → Token
row_of env req g t = record (token_row env (token_request req) g t) { id = env.fresh_id 2 }

abbrev pub session_of : Env → Request → Grant → AuthToken → Session
session_of env req g t = record (session_row req g t) {
  created_at = env.now;
  deactivated_at = none;
  idp_session_id = null_if_empty (session_row req g t).idp_session_id;
}

-- What the row of the tokens says.
pub record IsTokenRow (env : Env) (req : Request) (g : Grant) (t : AuthToken) (row : Token)
    : Type 0 where
  pub user_id : row.user_id ≡ some g.user.id
  pub access_token : row.access_token ≡ t.access_token
  pub refresh_token : row.refresh_token ≡ t.refresh_token
  pub access_expiry : row.access_token_expires_at ≡ t.access_expires_at
  pub refresh_expiry : row.refresh_token_expires_at ≡ t.refresh_expires_at
  pub issued : row.issued_at ≡ env.now
  pub scope : row.scope ≡ g.scope
  pub grant_type : row.grant_type ≡ req.form "grant_type"
  pub unrevoked : row.revoked_at ≡ none

-- What the session of the tokens says; without a single sign-on session its column is NULL.
pub record IsSessionRow (env : Env) (req : Request) (g : Grant) (t : AuthToken) (s : Session)
    : Type 0 where
  pub id : s.id ≡ t.session_id
  pub user_id : s.user_id ≡ g.user.id
  pub access_token : s.access_token ≡ t.access_token
  pub refresh_token : s.refresh_token ≡ t.refresh_token
  pub user_agent : s.user_agent ≡ req.user_agent
  pub ip_address : s.ip_address ≡ req.client_ip
  pub created : s.created_at ≡ env.now
  pub expiry : s.expires_at ≡ t.access_expires_at
  pub live : s.deactivated_at ≡ none
  pub born_from :
      ((g.idp_session_id ≡ "") × (s.idp_session_id ≡ none))
      ⊎ ((is_empty g.idp_session_id ≡ false) × (s.idp_session_id ≡ some g.idp_session_id))

-- The refresh token is in the cookie or in the body, not in both.
pub record IsReply (env : Env) (req : Request) (g : Grant) (t : AuthToken) (resp : TokenResponse)
    : Type 0 where
  pub access_token : resp.access_token ≡ t.access_token
  pub scope : resp.scope ≡ g.scope
  pub refresh_token :
      ((env.cookie_only ≡ true)
        × (resp.refresh_token ≡ "")
        × (resp.refresh_cookie ≡ some t.refresh_token))
      ⊎ ((env.cookie_only ≡ false)
          × (resp.refresh_token ≡ t.refresh_token)
          × (resp.refresh_cookie ≡ none))
  pub id_token :
      ((contains_scope g.scope "openid" ≡ true) × IsIdentity env req g t resp.id_token)
      ⊎ ((contains_scope g.scope "openid" ≡ false) × (resp.id_token ≡ ""))

-- The tokens, their row and their session, as a successful answer leaves them.
pub record IsIssued (env : Env) (req : Request) (c : Option Client) (g : Grant) (db db' : Db)
    (resp : TokenResponse) : Type 0 where
  pub tokens : AuthToken
  pub generated :
      generate_tokens env g.user (token_request req).client_id g.scope (client_config env c)
      ≡ ok tokens
  pub written : db' ≡ record db {
    tokens = row_of env req g tokens ∷ db.tokens;
    sessions = session_of env req g tokens ∷ db.sessions;
  }
  pub signed : IsSigned env req c g tokens
  pub token : IsTokenRow env req g tokens (row_of env req g tokens)
  pub session : IsSessionRow env req g tokens (session_of env req g tokens)
  pub reply : IsReply env req g tokens resp
  pub id : String
  pub identity : id_token env (token_request req) g tokens ≡ ok id
  pub answer : resp ≡ response env (client_config env c) g tokens id

lift-ok :
    {A : Type 0} (r : Result GoError A) (a : A) (db db' : Db)
    → on_error server_error (lift r) db ≡ (ok a, db')
    → (r ≡ ok a) × (db' ≡ db)
lift-ok (ok x) a db db' h = (ground arith, ground arith)
lift-ok (err e) a db db' h = absurd (ground arith)

row_of-IsTokenRow :
    (env : Env) (req : Request) (g : Grant) (t : AuthToken)
    → t.user_id ≡ g.user.id
    → IsTokenRow env req g t (row_of env req g t)
unfolding token_request
row_of-IsTokenRow env req g t owner = record {
  user_id = ap some owner;
  access_token = refl;
  refresh_token = refl;
  access_expiry = refl;
  refresh_expiry = refl;
  issued = refl;
  scope = refl;
  grant_type = refl;
  unrevoked = refl;
}

session_of-IsSessionRow :
    (env : Env) (req : Request) (g : Grant) (t : AuthToken)
    → t.user_id ≡ g.user.id
    → IsSessionRow env req g t (session_of env req g t)
session_of-IsSessionRow env req g t owner = record {
  id = refl;
  user_id = owner;
  access_token = refl;
  refresh_token = refl;
  user_agent = refl;
  ip_address = refl;
  created = refl;
  expiry = refl;
  live = refl;
  born_from = elim (Bool-cases (is_empty g.idp_session_id)) [
    | inl none_given ↦ inl ((eq_iff g.idp_session_id "").0 none_given, rw none_given refl)
    | inr given ↦ inr (given, rw given (rw given refl))
  ];
}

response-IsReply :
    (env : Env) (req : Request) (c : Option Client) (g : Grant) (t : AuthToken) (id : String)
    → id_token env (token_request req) g t ≡ ok id
    → IsReply env req g t (response env (client_config env c) g t id)
response-IsReply env req c g t id h = record {
  access_token = refl;
  scope = refl;
  refresh_token = elim (Bool-cases env.cookie_only) [
    | inl cookie ↦ inl (cookie, rw cookie refl, rw cookie refl)
    | inr body ↦ inr (body, rw body refl, rw body refl)
  ];
  id_token = id_token-IsIdentity env req g t id h;
}

pub issue-IsIssued :
    (env : Env) (req : Request) (c : Option Client) (g : Grant) (resp : TokenResponse) (db db' : Db)
    → issue env req c g db ≡ (ok resp, db')
    → IsIssued env req c g db db' resp
unfolding issue
issue-IsIssued env req c g resp db db' h =
    let r = token_request req in
    let cfg = client_config env c in
    let (t, db1, h1, rest1) =
      bind-ok (on_error server_error (lift (generate_tokens env g.user r.client_id g.scope cfg))) _
        db resp db' h in
    let (generated, same1) =
      lift-ok (generate_tokens env g.user r.client_id g.scope cfg) t db db1 h1 in
    let (_, db2, h2, rest2) =
      bind-ok (on_error server_error (create_token env (env.fresh_id 2) (token_row env r g t))) _
        db1 resp db' rest1 in
    let stored = create_token-ok env (env.fresh_id 2) (token_row env r g t) db1 db2 (
      on_error-ok server_error (create_token env (env.fresh_id 2) (token_row env r g t)) db1 tt db2
        h2) in
    let (_, db3, h3, rest3) =
      bind-ok (on_error server_error (create_session env (session_row req g t))) _ db2 resp db'
        rest2 in
    let opened =
      create_session-ok env (session_row req g t) db2 db3
        (on_error-ok server_error (create_session env (session_row req g t)) db2 tt db3 h3) in
    let (id, db4, h4, rest4) =
      bind-ok (on_error server_error (lift (id_token env r g t))) _ db3 resp db' rest3 in
    let (identity, same4) = lift-ok (id_token env r g t) id db3 db4 h4 in
    let last : db' ≡ db4 = ground arith in
    let (signed, owner) = generate_tokens-IsSigned env req c g t generated in
    let answer : resp ≡ response env (client_config env c) g t id = ground arith in
    record {
      tokens = t;
      generated = generated;
      signed = signed;
      token = row_of-IsTokenRow env req g t owner;
      session = session_of-IsSessionRow env req g t owner;
      reply = subst (IsReply env req g t) (sym answer) (response-IsReply env req c g t id identity);
      written = last ∙ same4 ∙ opened ∙ ground (arith, stored, same1);
      id = id;
      identity = identity;
      answer = answer;
    }
