-- ===== src/Session.antt =====
-- pkg/session: the table of OAuth sessions (create.go, read.go).
use autentico.Prelude.{String, Bool, not, none, some, ◌∷◌, ◌==◌, ◌&&◌, is_none, if◌then◌else◌, ltb}
use autentico.Schema.{Session}
use autentico.Env.{Env, query, exec, exec_if, select_session, insert_session, deactivate_session}
use autentico.Exec.{Exec, GoError, message, pure, raise, ◌>>◌}
use autentico.Sql.{find_row, update_rows, any_row}
use autentico.AuthCode.{has_user, null_if_empty}

abbrev pub has_id : String → Session → Bool
has_id session_id s = s.id == session_id

-- `WHERE access_token = ? AND deactivated_at IS NULL`.
abbrev pub is_live : String → Session → Bool
is_live access_token s = s.access_token == access_token && is_none s.deactivated_at

-- Columns that the insert leaves out take their defaults.
unfoldable pub create_session : Env → Session → Exec GoError (Unit {0})
create_session env session =
    let row = record session {
      created_at = env.now;
      deactivated_at = none;
      idp_session_id = null_if_empty session.idp_session_id;
    } in
    exec_if env insert_session
      (λ db. has_user db session.user_id && not (any_row (has_id session.id) db.sessions))
      (λ db. record db { sessions = row ∷ db.sessions })

unfoldable pub session_by_id_including_deactivated : Env → String → Exec GoError Session
session_by_id_including_deactivated env session_id =
    query env select_session (λ db. find_row (has_id session_id) db.sessions)

unfoldable pub session_by_access_token : Env → String → Exec GoError Session
session_by_access_token env access_token =
    query env select_session (λ db. find_row (is_live access_token) db.sessions)

-- The update has no guard: a deactivated session gets the later time.
unfoldable pub deactivate_session_by_id : Env → String → Exec GoError (Unit {0})
deactivate_session_by_id env session_id db =
    let found = any_row (has_id session_id) db.sessions in
    let set : Session → Session = λ s. record s { deactivated_at = some env.now } in
    (do
      exec env deactivate_session
          (λ d. record d { sessions = update_rows (has_id session_id) set d.sessions })
      if found then pure tt else raise (message "session not found"))
      db

-- `ToResponse`: the status shown for a session.
unfoldable pub status : Env → Session → String
status env s =
    if not (is_none s.deactivated_at)
    then "deactivated"
    else if ltb s.expires_at env.now
    then "expired"
    else "active"
