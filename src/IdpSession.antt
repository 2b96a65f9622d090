-- ===== src/IdpSession.antt =====
-- pkg/idpsession: single sign-on sessions and the cascade that signs a browser out
-- (create.go, read.go, update.go, cascade.go), and the sweep of pkg/cleanup that runs it.
pub mod Cascade
use autentico.Prelude.{
  ℕ, ◌+◌, String, Bool, true, false, not, Option, none, some, List, [], ◌∷◌, ◌==◌, ◌&&◌, map,
  filter, is_empty, is_none, some_is, ltb, member, length, if◌then◌else◌,
}
use autentico.Schema.{IdpSession, Session, Token, Db}
use autentico.Env.{
  Env, query, exec, exec_if, select_idp_session, insert_idp_session, set_last_activity,
  deactivate_idp, deactivate_idp_user, begin_cascade, cascade_idp, cascade_sessions, cascade_tokens,
  commit_cascade, select_idle, select_max_age,
}
use autentico.Exec.{
  Exec, Result, GoError, message, ok, err, pure, raise, require, optional, ◌>>=◌, ◌>>◌,
}
use autentico.Sql.{find_row, update_rows, any_row}
use autentico.AuthCode.{has_user}
use autentico.Web.{Request}

abbrev pub has_id : String → IdpSession → Bool
has_id id s = s.id == id

abbrev pub is_active : String → IdpSession → Bool
is_active id s = s.id == id && is_none s.deactivated_at

unfoldable pub create_idp_session : Env → IdpSession → Exec GoError (Unit {0})
create_idp_session env session =
    let row = record session {
      last_activity_at = env.now;
      created_at = env.now;
      deactivated_at = none;
    } in
    exec_if env insert_idp_session
      (λ db. has_user db session.user_id && not (any_row (has_id session.id) db.idp_sessions))
      (λ db. record db { idp_sessions = row ∷ db.idp_sessions })

abbrev created_or : String → Option (Unit {0}) → String
created_or id none = ""
created_or id (some _) = id

-- FinalizeLogin: a new session and its identifier, "" without one. The cookie is set by the caller
-- to the identifier.
unfoldable pub finalize_login : {E : Type 0} → Env → Request → String → Exec E String
unfolding create_idp_session
finalize_login env req user_id = elim (env.secure_code 0) [
  | none ↦ pure ""
  | some id ↦ (do
    made ← optional (
        create_idp_session env (record {
          id = id;
          user_id = user_id;
          user_agent = req.user_agent;
          ip_address = req.client_ip;
          last_activity_at = 0;
          created_at = 0;
          deactivated_at = none;
        }))
    pure (created_or id made))
]

unfoldable pub idp_session_by_id : Env → String → Exec GoError IdpSession
idp_session_by_id env id =
    query env select_idp_session (λ db. find_row (is_active id) db.idp_sessions)

abbrev pub touch : Env → IdpSession → IdpSession
touch env s = record s { last_activity_at = env.now }

unfoldable pub update_last_activity : Env → String → Exec GoError (Unit {0})
update_last_activity env id =
    exec env set_last_activity
      (λ db. record db { idp_sessions = update_rows (is_active id) (touch env) db.idp_sessions })

abbrev pub end_idp : Env → IdpSession → IdpSession
end_idp env s = record s { deactivated_at = some env.now }

abbrev pub end_idp_sessions : Env → (IdpSession → Bool) → Db → Db
end_idp_sessions env p db = record db { idp_sessions = update_rows p (end_idp env) db.idp_sessions }

unfoldable pub deactivate_idp_session : Env → String → Exec GoError (Unit {0})
deactivate_idp_session env id = exec env deactivate_idp (end_idp_sessions env (is_active id))

abbrev pub is_active_of : String → IdpSession → Bool
is_active_of user_id s = s.user_id == user_id && is_none s.deactivated_at

unfoldable pub deactivate_all_for_user : Env → String → Exec GoError (Unit {0})
deactivate_all_for_user env user_id =
    exec env deactivate_idp_user (end_idp_sessions env (is_active_of user_id))

abbrev pub is_child : String → Session → Bool
is_child id s = some_is s.idp_session_id id

abbrev pub is_active_child : String → Session → Bool
is_active_child id s = is_child id s && is_none s.deactivated_at

abbrev pub end_session : Env → Session → Session
end_session env s = record s { deactivated_at = some env.now }

abbrev pub end_children : Env → String → Db → Db
end_children env id db = record db {
  sessions = update_rows (is_active_child id) (end_session env) db.sessions;
}

-- `access_token IN (SELECT access_token FROM sessions WHERE idp_session_id = ?)`.
abbrev pub born_from : String → Db → Token → Bool
born_from id db t =
    member t.access_token (map (λ (s : Session). s.access_token) (filter (is_child id) db.sessions))

abbrev pub is_active_token : String → Db → Token → Bool
is_active_token id db t = born_from id db t && is_none t.revoked_at

abbrev pub revoke_token : Env → Token → Token
revoke_token env t = record t { revoked_at = some env.now }

abbrev pub revoke_born : Env → String → Db → Db
revoke_born env id db = record db {
  tokens = update_rows (is_active_token id db) (revoke_token env) db.tokens;
}

-- A transaction: what the body wrote is rolled back where the body fails.
abbrev pub rolled_back : {A : Type 0} → Db → Result GoError A × Db → Result GoError A × Db
rolled_back s (ok a, t) = (ok a, t)
rolled_back s (err e, t) = (err e, s)

abbrev pub transaction : {A : Type 0} → Exec GoError A → Exec GoError A
transaction m s = rolled_back s (m s)

unfoldable pub cascade : Env → String → Exec GoError (Unit {0})
cascade env id = do
  exec env cascade_idp (end_idp_sessions env (is_active id))
  exec env cascade_sessions (end_children env id)
  exec env cascade_tokens (revoke_born env id)
  exec env commit_cascade (λ db. db)

unfoldable pub deactivate_with_cascade : Env → String → Exec GoError (Unit {0})
unfolding cascade
deactivate_with_cascade env id = do
  require (not (is_empty id)) (message "idpsession: empty idp_session_id")
  exec env begin_cascade (λ db. db)
  transaction (cascade env id)

-- The loop over the sessions that a sweep has selected; the first error ends it.
unfoldable pub cascade_each : Env → List String → Exec GoError (Unit {0})
cascade_each env [] = pure tt
cascade_each env (id ∷ ids) =
    let rest = cascade_each env ids in do deactivate_with_cascade env id; rest

abbrev pub ids_of : (IdpSession → Bool) → Db → List String
ids_of p db = map (λ (s : IdpSession). s.id) (filter p db.idp_sessions)

-- `last_activity_at < now - timeout`, written without a subtraction.
abbrev pub is_idle : Env → ℕ → IdpSession → Bool
is_idle env timeout s = is_none s.deactivated_at && ltb (s.last_activity_at + timeout) env.now

unfoldable pub deactivate_idle : Env → ℕ → Exec GoError ℕ
deactivate_idle env timeout = do
  ids ← query env select_idle (λ db. some (ids_of (is_idle env timeout) db))
  cascade_each env ids
  pure (length ids)

abbrev pub is_past_max_age : Env → ℕ → IdpSession → Bool
is_past_max_age env max_age s = is_none s.deactivated_at && ltb (s.created_at + max_age) env.now

unfoldable pub deactivate_expired_max_age : Env → ℕ → Exec GoError ℕ
deactivate_expired_max_age env max_age = do
  ids ← query env select_max_age (λ db. some (ids_of (is_past_max_age env max_age) db))
  cascade_each env ids
  pure (length ids)
