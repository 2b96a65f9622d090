-- ===== src/Bearer/Checks.antt =====
-- What a validated bearer token has established.
use autentico.Prelude.{
  String, Bool, ◌≡◌, refl, ◌∙◌, true, false, not, none, some, List, [], ◌∷◌, arith, inl, inr,
  Option-cases, ◌==◌, ◌||◌, is_empty, all,
}
use autentico.Schema.{Session, Token, Db}
use autentico.Env.{Env, AccessClaims, query}
use autentico.Exec.{ok, err, GoError, message, lift, require, Result, ◌>>=◌, continue}
use autentico.Exec.Inversion.{bind-ok}
use autentico.Sql.{find_row, update_rows}
use autentico.Session.{session_by_access_token, is_live}
use autentico.Token.{token_by_access_token}
use autentico.Bearer.{
  Validated, validate_bearer_token, live_session, live_bearer, validate_access_token,
  validate_audience,
}
use autentico.IdpSession.{is_active_child, end_session, is_child, deactivate_with_cascade}
use autentico.IdpSession.Cascade.{cascade-ok}

pub record IsValidated (env : Env) (token : String) (db : Db) (v : Validated) : Type 0 where
  pub row : Token
  pub same : v.token ≡ token
  pub parsed : env.parse_access token ≡ some v.claims
  pub audience : validate_audience v.claims.aud env.config.access_token_audience ≡ true
  pub session : find_row (is_live token) db.sessions ≡ some v.session
  pub stored : find_row (autentico.Token.is_live token) db.tokens ≡ some row

-- A token's session and its row, as a successful run has read them.
record IsLive (token : String) (c : AccessClaims) (db db' : Db) (v : Validated) : Type 0 where
  row : Token
  same : v.token ≡ token
  claims : v.claims ≡ c
  session : find_row (is_live token) db.sessions ≡ some v.session
  stored : find_row (autentico.Token.is_live token) db.tokens ≡ some row
  unchanged : db' ≡ db

live_session-ok :
    (env : Env) (token : String) (s : Session) (db db' : Db)
    → live_session env token db ≡ (ok s, db')
    → (find_row (is_live token) db.sessions ≡ some s) × (db' ≡ db)
unfolding live_session session_by_access_token query
live_session-ok env token s db db' h = ground arith

live_bearer-ok :
    (env : Env) (token : String) (c : AccessClaims) (v : Validated) (db db' : Db)
    → live_bearer env token c db ≡ (ok v, db')
    → IsLive token c db db' v
unfolding live_bearer token_by_access_token query
live_bearer-ok env token c v db db' h =
    let (s, db1, h1, rest) = bind-ok (live_session env token) _ db v db' h in
    let (session, same) = live_session-ok env token s db db1 h1 in
    elim (Option-cases (find_row (autentico.Token.is_live token) db1.tokens)) [
      | inl unknown ↦ absurd (ground arith)
      | inr (t, stored) ↦ record {
        row = t;
        same = ground arith;
        claims = ground arith;
        session = ground arith;
        stored = ground arith;
        unchanged = ground arith;
      }
    ]

claims-ok :
    (env : Env) (token : String) (c : AccessClaims)
    → validate_access_token env token ≡ ok c
    → (env.parse_access token ≡ some c)
      × (validate_audience c.aud env.config.access_token_audience ≡ true)
unfolding validate_access_token
claims-ok env token c h = ground arith

-- A bearer token that is accepted parses with the server's key, is meant for one of the configured
-- audiences, if there are any, has a session that is not deactivated and a row in the table of
-- tokens that is not revoked; and the database is not changed.
pub validate-IsValidated :
    (env : Env) (token : String) (v : Validated) (db db' : Db)
    → validate_bearer_token env token db ≡ (ok v, db')
    → IsValidated env token db v × (db' ≡ db)
unfolding validate_bearer_token
validate-IsValidated env token v db db' h =
    let (_, db1, h1, rest) = bind-ok (require (not (is_empty token)) _) _ db v db' h in
    let (c, db2, h2, live) = bind-ok (lift (validate_access_token env token)) _ db1 v db' rest in
    let (parsed, audience) = claims-ok env token c (ground arith) in
    let l = live_bearer-ok env token c v db2 db' live in
    let same : db2 ≡ db = ground arith in
    (
      record {
        row = l.row;
        same = l.same;
        parsed = ground (arith, parsed, l.claims);
        audience = ground (arith, audience, l.claims);
        session = ground (arith, l.session, same);
        stored = ground (arith, l.stored, same);
      },
      l.unchanged ∙ same,
    )

-- Whether the sessions of an access token all come from one single sign-on session.
abbrev pub all_from : String → String → List Session → Bool
all_from id token xs = all (λ s. not (s.access_token == token) || is_child id s) xs

none_live :
    (env : Env) (id token : String) (xs : List Session)
    → all_from id token xs ≡ true
    → find_row (is_live token) (update_rows (is_active_child id) (end_session env) xs) ≡ none
unfolding find_row update_rows
none_live env id token [] h = refl
none_live env id token (x ∷ xs) h = ground (arith, none_live env id token xs)

-- No bearer token of this value is accepted, and the attempt changes nothing.
abbrev pub Refused : String → Env → Db → Type 0
Refused token env db = (e : GoError) × (validate_bearer_token env token db ≡ (err e, db))

no_session-live :
    (env : Env) (token : String) (c : AccessClaims) (db : Db)
    → find_row (is_live token) db.sessions ≡ none
    → live_bearer env token c db ≡ (err (message "invalid session"), db)
unfolding live_bearer live_session session_by_access_token query
no_session-live env token c db gone = ground arith

no_session :
    (env : Env) (token : String) (db : Db)
    → find_row (is_live token) db.sessions ≡ none
    → Refused token env db
unfolding validate_bearer_token
no_session env token db gone = go (not (is_empty token)) (validate_access_token env token)
  where
    go :
        (b : Bool) (r : Result GoError AccessClaims)
        → (e : GoError) × (continue
              (require b (message "invalid Authorization header") db)
              (λ _. lift r >>= live_bearer env token)
            ≡ (err e, db))
    go false r = (message "invalid Authorization header", refl)
    go true (err e) = (e, refl)
    go true (ok c) = (message "invalid session", no_session-live env token c db gone)

-- Once a single sign-on session has been ended, at any time and whatever the token's claims, no
-- bearer token whose sessions came from it is accepted any more.
pub cascade-bearer :
    (env later : Env) (id token : String) (db db' : Db)
    → deactivate_with_cascade env id db ≡ (ok tt, db')
    → all_from id token db.sessions ≡ true
    → Refused token later db'
cascade-bearer env later id token db db' h from =
    no_session later token db'
      (ground (arith, cascade-ok env id db db' h, none_live env id token db.sessions from))
