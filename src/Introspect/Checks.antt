-- ===== src/Introspect/Checks.antt =====
-- When an introspection answers that a token is active.
use mathlib.Core.Path.{subst}
use autentico.Prelude.{
  String, Bool, ◌≡◌, ◌≤◌, ◌⊎◌, refl, ◌∙◌, true, false, none, some, Option, arith, eq_iff, inl, inr,
  Option-cases, Bool-cases, ◌==◌,
}
use autentico.Schema.{User, Session, Client, Token, Db}
use autentico.Env.{Env, query}
use autentico.Exec.{ok, optional, HttpError, ◌>>=◌}
use autentico.Exec.Inversion.{bind-ok}
use autentico.Sql.{find_row}
use autentico.User.{user_by_id_including_deactivated, has_id}
use autentico.Session.{session_by_access_token, is_live}
use autentico.Token.{has_value}
use autentico.Bearer.{may_handle}
use autentico.Introspect.{
  introspect, introspect_token, describe, describe_owner, describe_session, session_lives,
  owner_lives, active_response, IntrospectResponse,
}

-- The session behind a token: none is needed for client_credentials.
abbrev pub SessionLives : Token → Db → Type 0
SessionLives t db =
    (t.grant_type ≡ "client_credentials")
    ⊎ ((s : Session) × (find_row (is_live t.access_token) db.sessions ≡ some s))

-- The owner of a token, if it has one, is stored and active.
abbrev pub OwnerLives : Token → Db → Type 0
OwnerLives t db =
    (t.user_id ≡ none)
    ⊎ ((id : String) × (u : User) × (t.user_id ≡ some id)
        × (find_row (has_id id) db.users ≡ some u)
        × (u.deactivated_at ≡ none))

pub record IsActive (env : Env) (c : Option Client) (token_id : String) (db : Db) (t : Token)
    : Type 0 where
  pub row : find_row (has_value token_id) db.tokens ≡ some t
  pub unrevoked : t.revoked_at ≡ none
  pub in_time : env.now ≤ t.access_token_expires_at
  pub permitted : may_handle env c t.access_token ≡ true
  pub session : SessionLives t db
  pub owner : OwnerLives t db

session_lives_sound :
    (env : Env) (t : Token) (db db' : Db)
    → session_lives env t db ≡ (ok true, db')
    → SessionLives t db × (db' ≡ db)
unfolding session_lives session_by_access_token query
session_lives_sound env t db db' h = elim (Bool-cases (t.grant_type == "client_credentials")) [
  | inl same ↦ (inl ((eq_iff t.grant_type "client_credentials").0 same), ground arith)
  | inr other ↦ elim (Option-cases (find_row (is_live t.access_token) db.sessions)) [
    | inl missing ↦ absurd (ground arith)
    | inr (s, found) ↦ (inr (s, found), ground arith)
  ]
]

owner_lives_sound :
    (env : Env) (t : Token) (db db' : Db)
    → owner_lives env t db ≡ (ok true, db')
    → OwnerLives t db × (db' ≡ db)
unfolding owner_lives user_by_id_including_deactivated query
owner_lives_sound env t db db' h = elim (Option-cases t.user_id) [
  | inl nobody ↦ (inl nobody, ground arith)
  | inr (id, owned) ↦ elim (Option-cases (find_row (has_id id) db.users)) [
    | inl missing ↦ absurd (ground arith)
    | inr (u, found) ↦ (inr (id, u, owned, found, ground arith), ground arith)
  ]
]

describe_owner_sound :
    (env : Env) (t : Token) (resp : IntrospectResponse) (db db' : Db)
    → describe_owner env t db ≡ (ok resp, db')
    → resp.active ≡ true
    → OwnerLives t db × (resp ≡ active_response env t) × (db' ≡ db)
unfolding describe_owner
describe_owner_sound env t resp db db' h active =
    let (lives, db1, h1, rest) = bind-ok (owner_lives env t) _ db resp db' h in
    let yes : lives ≡ true = ground arith in
    let (owner, same) = owner_lives_sound env t db db1 (ground (arith, h1, yes)) in
    (owner, ground arith, ground arith)

describe_session_sound :
    (env : Env) (t : Token) (b : Bool) (resp : IntrospectResponse) (db db' : Db)
    → describe_session env t b db ≡ (ok resp, db')
    → resp.active ≡ true
    → (b ≡ true) × OwnerLives t db × (resp ≡ active_response env t) × (db' ≡ db)
unfolding describe_session
describe_session_sound env t true resp db db' h active =
    let (owner, shape, same) = describe_owner_sound env t resp db db' h active in
    (refl, owner, shape, same)
describe_session_sound env t false resp db db' h active = absurd (ground arith)

describe_sound :
    (env : Env) (c : Option Client) (t : Token) (resp : IntrospectResponse) (db db' : Db)
    → describe env c t db ≡ (ok resp, db')
    → resp.active ≡ true
    → (may_handle env c t.access_token ≡ true)
      × SessionLives t db
      × OwnerLives t db
      × (resp ≡ active_response env t)
      × (db' ≡ db)
unfolding describe
describe_sound env c t resp db db' h active = elim (Bool-cases (may_handle env c t.access_token)) [
  | inr refused ↦ absurd (ground arith)
  | inl allowed ↦
      let run : (session_lives env t >>= describe_session env t) db ≡ (ok resp, db') =
        ground arith in
      let (b, db1, h1, rest) =
        bind-ok (session_lives env t) (describe_session env t) db resp db' run in
      let (is_true, owner, shape, last) = describe_session_sound env t b resp db1 db' rest active in
      let (session, same) = session_lives_sound env t db db1 (ground (arith, h1, is_true)) in
      (allowed, session, subst (OwnerLives t) same owner, shape, last ∙ same)
]

introspect_token-ok :
    (env : Env) (token_id : String) (db : Db) (r : Option Token) (db' : Db)
    → optional {F = HttpError} (introspect_token env token_id) db ≡ (ok r, db')
    → db' ≡ db
unfolding introspect_token query
introspect_token-ok env token_id db r db' h = ground arith

introspect_token_sound :
    (env : Env) (token_id : String) (t : Token) (db db' : Db)
    → optional {F = HttpError} (introspect_token env token_id) db ≡ (ok (some t), db')
    → (find_row (has_value token_id) db.tokens ≡ some t)
      × (t.revoked_at ≡ none)
      × (env.now ≤ t.access_token_expires_at)
      × (db' ≡ db)
unfolding introspect_token query
introspect_token_sound env token_id t db db' h =
    (ground arith, ground arith, ground arith, ground arith)

-- If an introspection answers that a token is active, then the first row under the presented value
-- is not revoked and its access token has not expired; the caller is an admin or the client that
-- the token names, or the token names none; a live session stands behind it, unless it was issued
-- to a client; its owner, if it has one, is not deactivated; the answer is the one built from that
-- row; and the database is not changed.
pub introspect-IsActive :
    (env : Env) (c : Option Client) (token_id : String) (resp : IntrospectResponse) (db db' : Db)
    → introspect env c token_id db ≡ (ok resp, db')
    → resp.active ≡ true
    → (t : Token) × IsActive env c token_id db t × (resp ≡ active_response env t) × (db' ≡ db)
unfolding introspect
introspect-IsActive env c token_id resp db db' h active =
    let (found, db1, h1, rest) =
      bind-ok (optional (introspect_token env token_id)) _ db resp db' h in
    elim (Option-cases found) [
      | inl missing ↦ absurd (ground arith)
      | inr (t, is_some) ↦
          let (row, unrevoked, in_time, same) =
            introspect_token_sound env token_id t db db1 (ground (arith, h1, is_some)) in
          let (permitted, session, owner, shape, last) =
            describe_sound env c t resp db1 db' (ground (arith, rest, is_some)) active in
          (
            t,
            record {
              row = row;
              unrevoked = unrevoked;
              in_time = in_time;
              permitted = permitted;
              session = subst (SessionLives t) same session;
              owner = subst (OwnerLives t) same owner;
            },
            shape,
            last ∙ same,
          )
    ]
