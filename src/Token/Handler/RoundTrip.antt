-- ===== src/Token/Handler/RoundTrip.antt =====
-- Tokens that the endpoint has issued are good when they come back.
use autentico.Prelude.{
  String, ◌≡◌, ◌<◌, ◌≤◌, ◌+◌, refl, ap, sym, ◌∙◌, true, false, none, some, Option, arith, eq_iff,
  Option-cases, inl, inr,
}
use autentico.Schema.{User, Client, Token, Session, Db, from_unix, to_unix}
use autentico.Env.{
  Env, Config, RefreshClaims, Healthy, query, select_token, select_session, select_revoked_at,
  select_user,
}
use autentico.Exec.{ok}
use autentico.Sql.{find_row}
use autentico.Sql.Laws.{first_row}
use autentico.Web.{Request}
use autentico.User.{user_by_id, is_active}
use autentico.Session.{session_by_id_including_deactivated, has_id}
use autentico.Token.{has_value}
use autentico.Token.CodeGrant.{TokenRequest, validate_token_request_refresh}
use autentico.Token.Generate.{AuthToken, generate_tokens, refresh_claims, access_claims}
use autentico.Token.RefreshGrant.{
  user_by_refresh_token, refresh_user, refresh_owner, check_session, check_revoked, check_mfa,
  decode_refresh_token, same_client, has_refresh, expired,
}
use autentico.Token.Grants.{Grant}
use autentico.Token.Handler.{issue, TokenResponse, token_request, client_config}
use autentico.Token.Handler.Issue.{issue-IsIssued, session_of, row_of}
use autentico.Introspect.{introspect_token}

record Generated (env : Env) (usr : User) (client_id scope : String) (cfg : Config) (t : AuthToken)
    : Type 0 where
  user_id : t.user_id ≡ usr.id
  session_id : t.session_id ≡ env.fresh_id 0
  refresh :
      env.sign_refresh (refresh_claims env usr client_id cfg (env.fresh_id 0))
      ≡ some t.refresh_token
  access_expires_at : t.access_expires_at ≡ env.now + cfg.access_token_expiration

generate-Generated :
    (env : Env) (usr : User) (client_id scope : String) (cfg : Config) (t : AuthToken)
    → generate_tokens env usr client_id scope cfg ≡ ok t
    → Generated env usr client_id scope cfg t
unfolding generate_tokens
generate-Generated env usr client_id scope cfg t h =
    elim (Option-cases (
      env.sign_access
        (access_claims env usr client_id scope cfg (env.fresh_id 0) (env.fresh_id 1)))) [
          | inl bad ↦ absurd (ground arith)
          | inr (access, signed) ↦
              elim (Option-cases
                (env.sign_refresh (refresh_claims env usr client_id cfg (env.fresh_id 0)))) [
                  | inl bad ↦ absurd (ground arith)
                  | inr (refresh, signed_too) ↦ record {
                    user_id = ground arith;
                    session_id = ground arith;
                    refresh = ground arith;
                    access_expires_at = ground arith;
                  }
                ]
        ]

-- A refresh token that parses, has not expired, comes from its client, and whose session, row and
-- owner are live is accepted.
live_refresh_accepted :
    (env : Env) (r : TokenRequest) (k : RefreshClaims) (s : Session) (t : Token) (u : User)
    (db : Db)
    → Healthy env
    → validate_token_request_refresh r ≡ true
    → env.parse_refresh r.refresh_token ≡ some k
    → expired env k ≡ false
    → find_row (has_id k.session_id) db.sessions ≡ some s
    → s.deactivated_at ≡ none
    → same_client k r ≡ true
    → find_row (has_refresh r.refresh_token) db.tokens ≡ some t
    → t.revoked_at ≡ none
    → find_row (is_active k.user_id) db.users ≡ some u
    → u.totp_verified ≡ false
    → user_by_refresh_token env r db ≡ (ok (some u), db)
unfolding user_by_refresh_token refresh_user refresh_owner check_session check_revoked check_mfa
    decode_refresh_token user_by_id session_by_id_including_deactivated query
live_refresh_accepted env r k s t u db healthy valid parsed alive stored live client row current
      owner plain =
    ground (arith, healthy select_session, healthy select_revoked_at, healthy select_user)

-- The JWT library gives back the claims of a token that it has signed, until the token expires.
abbrev pub Parses : Env → Env → Type 0
Parses env later =
    (k : RefreshClaims) (w : String)
    → env.sign_refresh k ≡ some w
    → later.now < from_unix k.expires_at
    → later.parse_refresh w ≡ some k

-- A refresh token that the endpoint has just answered with, presented by the same client before it
-- expires, is accepted for the user of the grant and changes nothing: for a JWT library that gives
-- back the claims that it has signed, a user who is active and has no second factor, and a
-- database that refuses no statement.
pub issue-refresh :
    (env later : Env) (req : Request) (c : Option Client) (g : Grant) (resp : TokenResponse)
    (db db' : Db) (s : TokenRequest) (u : User)
    → issue env req c g db ≡ (ok resp, db')
    → env.cookie_only ≡ false
    → Healthy later
    → Parses env later
    → validate_token_request_refresh s ≡ true
    → s.refresh_token ≡ resp.refresh_token
    → s.client_id ≡ (token_request req).client_id
    → later.now < from_unix (to_unix (env.now + (client_config env c).refresh_token_expiration))
    → find_row (is_active g.user.id) db.users ≡ some u
    → u.totp_verified ≡ false
    → user_by_refresh_token later s db' ≡ (ok (some u), db')
unfolding refresh_claims
issue-refresh env later req c g resp db db' s u h plain healthy parses valid same client in_time
      owner single =
    let i = issue-IsIssued env req c g resp db db' h in
    let r = token_request req in
    let cfg = client_config env c in
    let k = refresh_claims env g.user r.client_id cfg (env.fresh_id 0) in
    let made = generate-Generated env g.user r.client_id g.scope cfg i.tokens i.generated in
    let value : s.refresh_token ≡ i.tokens.refresh_token = ground (arith, i.answer) in
    let srow = session_of env req g i.tokens in
    let trow = row_of env req g i.tokens in
    live_refresh_accepted later s k srow trow u db' healthy valid
      (ground (arith, value, parses k i.tokens.refresh_token made.refresh in_time)) (ground arith)
      (ap (λ d. find_row (has_id (env.fresh_id 0)) d.sessions) i.written
        ∙ first_row (has_id (env.fresh_id 0)) srow db.sessions
            ((eq_iff i.tokens.session_id (env.fresh_id 0)).1 made.session_id))
      refl (ground (arith, client, eq_iff r.client_id s.client_id))
      (ap (λ d. find_row (has_refresh s.refresh_token) d.tokens) i.written
        ∙ first_row (has_refresh s.refresh_token) trow db.tokens
            ((eq_iff i.tokens.refresh_token s.refresh_token).1 (sym value)))
      refl (ap (λ d. find_row (is_active g.user.id) d.users) i.written ∙ owner) single

-- An access token that the endpoint has just answered with is introspected as the row that was
-- written for it, up to and including the moment at which it expires.
pub issue-introspect :
    (env later : Env) (req : Request) (c : Option Client) (g : Grant) (resp : TokenResponse)
    (db db' : Db)
    → issue env req c g db ≡ (ok resp, db')
    → later.fails select_token ≡ false
    → later.now ≤ env.now + (client_config env c).access_token_expiration
    → (t : Token) × (introspect_token later resp.access_token db' ≡ (ok t, db'))
      × (t.scope ≡ g.scope)
      × (t.user_id ≡ some g.user.id)
      × (t.access_token_expires_at ≡ env.now + (client_config env c).access_token_expiration)
unfolding introspect_token query
issue-introspect env later req c g resp db db' h up in_time =
    let i = issue-IsIssued env req c g resp db db' h in
    let r = token_request req in
    let made =
      generate-Generated env g.user r.client_id g.scope (client_config env c) i.tokens
        i.generated in
    let trow = row_of env req g i.tokens in
    let row : find_row (has_value resp.access_token) db'.tokens ≡ some trow =
      ap (λ d. find_row (has_value resp.access_token) d.tokens) i.written
      ∙ first_row (has_value resp.access_token) trow db.tokens
          (ground (arith, i.answer, eq_iff i.tokens.access_token resp.access_token)) in
    (
      trow,
      ground (arith, up, row, made.access_expires_at, in_time),
      refl,
      ap some made.user_id,
      made.access_expires_at,
    )
