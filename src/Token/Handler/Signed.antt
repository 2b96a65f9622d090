-- ===== src/Token/Handler/Signed.antt =====
-- What the tokens that the token endpoint issues say.
use autentico.Prelude.{
  String, ◌≡◌, refl, ap, ◌+◌, ◌∙◌, ◌⊎◌, inl, inr, true, false, none, some, Option, arith,
  Bool-cases,
}
use autentico.Schema.{Client, to_unix}
use autentico.Env.{Env, AccessClaims, RefreshClaims, IdClaims}
use autentico.Exec.{ok, err, Result, GoError}
use autentico.Web.{Request}
use autentico.Token.Scopes.{contains_scope}
use autentico.Token.Generate.{
  AuthToken, generate_tokens, generate_id_token, access_claims, refresh_claims, id_claims,
  then_with, signed,
}
use autentico.Token.Grants.{Grant}
use autentico.Token.Handler.{token_request, client_config, id_token}

-- What has been signed: the claims name the user, the client, the scope and the session.
pub record IsSigned (env : Env) (req : Request) (c : Option Client) (g : Grant) (t : AuthToken)
    : Type 0 where
  pub access : AccessClaims
  pub refresh : RefreshClaims
  pub access_signed : env.sign_access access ≡ some t.access_token
  pub refresh_signed : env.sign_refresh refresh ≡ some t.refresh_token
  pub sub : access.sub ≡ g.user.id
  pub azp : access.azp ≡ (token_request req).client_id
  pub sid : access.sid ≡ t.session_id
  pub scope : access.scope ≡ g.scope
  pub owner : refresh.user_id ≡ g.user.id
  pub client : refresh.client_id ≡ (token_request req).client_id
  pub session : refresh.session_id ≡ t.session_id
  pub access_expiry : t.access_expires_at ≡ env.now + (client_config env c).access_token_expiration
  pub refresh_expiry :
      t.refresh_expires_at ≡ env.now + (client_config env c).refresh_token_expiration

-- The ID token: its claims name the user and the client, and it is there if the scope has openid.
pub record IsIdentity (env : Env) (req : Request) (g : Grant) (t : AuthToken) (token : String)
    : Type 0 where
  pub claims : IdClaims
  pub signed : env.sign_id claims ≡ some token
  pub sub : claims.sub ≡ g.user.id
  pub aud : claims.aud ≡ (token_request req).client_id
  pub sid : claims.sid ≡ t.session_id
  pub auth_time : claims.auth_time ≡ to_unix g.auth_time

then_with-ok :
    {A B : Type 0} (r : Result GoError A) (f : A → Result GoError B) (b : B)
    → then_with r f ≡ ok b
    → (a : A) × (r ≡ ok a) × (f a ≡ ok b)
then_with-ok (ok a) f b h = (a, refl, h)
then_with-ok (err e) f b h = absurd (ground arith)

signed-ok :
    (error : String) (o : Option String) (token : String)
    → signed error o ≡ ok token
    → o ≡ some token
signed-ok error none token h = absurd (ground arith)
signed-ok error (some x) token h = ground arith

pub generate_tokens-IsSigned :
    (env : Env) (req : Request) (c : Option Client) (g : Grant) (t : AuthToken)
    → generate_tokens env g.user (token_request req).client_id g.scope (client_config env c) ≡ ok t
    → IsSigned env req c g t × (t.user_id ≡ g.user.id)
unfolding generate_tokens access_claims refresh_claims
generate_tokens-IsSigned env req c g t h =
    let client_id = (token_request req).client_id in
    let cfg = client_config env c in
    let claims = access_claims env g.user client_id g.scope cfg (env.fresh_id 0) (env.fresh_id 1) in
    let carried = refresh_claims env g.user client_id cfg (env.fresh_id 0) in
    let (a, h1, rest) = then_with-ok (signed _ (env.sign_access claims)) _ t h in
    let (r, h2, last) = then_with-ok (signed _ (env.sign_refresh carried)) _ t rest in
    let s1 = signed-ok _ (env.sign_access claims) a h1 in
    let s2 = signed-ok _ (env.sign_refresh carried) r h2 in
    let access : a ≡ t.access_token = ground arith in
    let refresh : r ≡ t.refresh_token = ground arith in
    let session : env.fresh_id 0 ≡ t.session_id = ground arith in
    (
      record {
        access = claims;
        refresh = carried;
        access_signed = s1 ∙ ap some access;
        refresh_signed = s2 ∙ ap some refresh;
        sub = refl;
        azp = refl;
        sid = session;
        scope = refl;
        owner = refl;
        client = refl;
        session = session;
        access_expiry = ground arith;
        refresh_expiry = ground arith;
      },
      ground arith,
    )

pub id_token-IsIdentity :
    (env : Env) (req : Request) (g : Grant) (t : AuthToken) (id : String)
    → id_token env (token_request req) g t ≡ ok id
    → ((contains_scope g.scope "openid" ≡ true) × IsIdentity env req g t id)
      ⊎ ((contains_scope g.scope "openid" ≡ false) × (id ≡ ""))
unfolding id_token generate_id_token id_claims
id_token-IsIdentity env req g t id h = elim (Bool-cases (contains_scope g.scope "openid")) [
  | inr not_asked ↦ inr (not_asked, ground arith)
  | inl asked ↦
      let client_id = (token_request req).client_id in
      let claims =
        id_claims env g.user t.session_id g.nonce g.scope client_id g.auth_time t.access_token in
      let run : signed "could not sign id token" (env.sign_id claims) ≡ ok id =
        ground (arith, asked) in
      inl (
        asked,
        record {
          claims = claims;
          signed = signed-ok "could not sign id token" (env.sign_id claims) id run;
          sub = refl;
          aud = refl;
          sid = refl;
          auth_time = refl;
        },
      )
]
