-- ===== src/Token/RefreshGrant/Checks.antt =====
-- What a granted refresh has established.
use autentico.Prelude.{◌≡◌, refl, ◌∙◌, ◌≤◌, inl, inr, true, false, none, some, arith, Option-cases}
use autentico.Schema.{User, Session, Token, Db, from_unix}
use autentico.Env.{Env, RefreshClaims, query, exec, select_revoked_at}
use autentico.Exec.{ok, ◌>>◌}
use autentico.Exec.Inversion.{bind-ok}
use autentico.Sql.{find_row}
use autentico.Session.{session_by_id_including_deactivated, has_id}
use autentico.User.{user_by_id, is_active}
use autentico.Token.CodeGrant.{TokenRequest}
use autentico.Token.RefreshGrant.{
  user_by_refresh_token, refresh_user, refresh_owner, check_session, check_revoked, replay,
  check_mfa, decode_refresh_token, read_column, is_revoked, same_client,
}

pub record IsRefreshable (env : Env) (r : TokenRequest) (db : Db) (u : User) : Type 0 where
  pub claims : RefreshClaims
  pub session : Session
  pub parsed : env.parse_refresh r.refresh_token ≡ some claims
  pub in_time : env.now ≤ from_unix claims.expires_at
  pub stored : find_row (has_id claims.session_id) db.sessions ≡ some session
  pub live : session.deactivated_at ≡ none
  pub client : same_client claims r ≡ true
  pub unrevoked : is_revoked (read_column (λ (t : Token). t.revoked_at) r.refresh_token db) ≡ false
  pub owner : find_row (is_active claims.user_id) db.users ≡ some u

record SessionPart (r : TokenRequest) (c : RefreshClaims) (db db' : Db) : Type 0 where
  session : Session
  stored : find_row (has_id c.session_id) db.sessions ≡ some session
  live : session.deactivated_at ≡ none
  client : same_client c r ≡ true
  same : db' ≡ db

check_session-ok :
    (env : Env) (r : TokenRequest) (c : RefreshClaims) (db db' : Db)
    → check_session env r c db ≡ (ok tt, db')
    → SessionPart r c db db'
unfolding check_session session_by_id_including_deactivated query
check_session-ok env r c db db' h =
    elim (Option-cases (find_row (has_id c.session_id) db.sessions)) [
      | inl missing ↦ absurd (ground arith)
      | inr (s, stored) ↦ record {
        session = s;
        stored = stored;
        live = ground arith;
        client = ground arith;
        same = ground arith;
      }
    ]

check_revoked-ok :
    (env : Env) (r : TokenRequest) (c : RefreshClaims) (db db' : Db)
    → env.fails select_revoked_at ≡ false
    → check_revoked env r c db ≡ (ok tt, db')
    → (is_revoked (read_column (λ (t : Token). t.revoked_at) r.refresh_token db) ≡ false)
      × (db' ≡ db)
unfolding check_revoked replay query exec
check_revoked-ok env r c db db' up h = ground (arith, up)

check_mfa-ok :
    (env : Env) (r : TokenRequest) (u : User) (db db' : Db)
    → check_mfa env r u db ≡ (ok tt, db')
    → db' ≡ db
unfolding check_mfa query
check_mfa-ok env r u db db' h = ground arith

refresh_owner-ok :
    (env : Env) (r : TokenRequest) (c : RefreshClaims) (u : User) (db db' : Db)
    → refresh_owner env r c db ≡ (ok u, db')
    → (find_row (is_active c.user_id) db.users ≡ some u) × (db' ≡ db)
unfolding refresh_owner user_by_id check_mfa query
refresh_owner-ok env r c u db db' h = ground arith

module _ (env : Env) (r : TokenRequest) (up : env.fails select_revoked_at ≡ false) where
  refresh_user-ok :
      (c : RefreshClaims) (u : User) (db db' : Db)
      → refresh_user env r c db ≡ (ok u, db')
      → SessionPart r c db db
        × (is_revoked (read_column (λ (t : Token). t.revoked_at) r.refresh_token db) ≡ false)
        × (find_row (is_active c.user_id) db.users ≡ some u)
        × (db' ≡ db)
  unfolding refresh_user
  refresh_user-ok c u db db' h =
      let (_, db1, h1, rest) =
        bind-ok (check_session env r c) (λ _. check_revoked env r c >> refresh_owner env r c) db u
          db' h in
      let p = check_session-ok env r c db db1 h1 in
      let (_, db2, h2, h3) =
        bind-ok (check_revoked env r c) (λ _. refresh_owner env r c) db1 u db' rest in
      let (unrevoked, same) = check_revoked-ok env r c db1 db2 up h2 in
      let (owner, last) = refresh_owner-ok env r c u db2 db' h3 in
      (
        record {
          session = p.session;
          stored = p.stored;
          live = p.live;
          client = p.client;
          same = refl;
        },
        ground (arith, unrevoked, p.same),
        ground (arith, owner, same, p.same),
        last ∙ same ∙ p.same,
      )

  -- If a refresh token yields a user, while the database answers the test of revocation, then the
  -- token parses with the server's secret and has not expired; its session is stored and has not
  -- been deactivated; it is not presented by a client other than the one it was issued to; no
  -- revoked row of the table of tokens comes first under its value; the user is the active user
  -- that it names; and the database has not been changed.
  pub refresh-IsRefreshable :
      (u : User) (db db' : Db)
      → user_by_refresh_token env r db ≡ (ok (some u), db')
      → IsRefreshable env r db u × (db' ≡ db)
  unfolding user_by_refresh_token decode_refresh_token
  refresh-IsRefreshable u db db' h = elim (Option-cases (env.parse_refresh r.refresh_token)) [
    | inl bad ↦ absurd (ground arith)
    | inr (c, parsed) ↦
        let run : refresh_user env r c db ≡ (ok u, db') = ground arith in
        let (p, unrevoked, owner, same) = refresh_user-ok c u db db' run in
        (
          record {
            claims = c;
            session = p.session;
            parsed = parsed;
            in_time = ground arith;
            stored = p.stored;
            live = p.live;
            client = p.client;
            unrevoked = unrevoked;
            owner = owner;
          },
          same,
        )
  ]
