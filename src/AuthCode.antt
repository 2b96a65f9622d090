-- ===== src/AuthCode.antt =====
-- pkg/auth_code: the table of authorization codes.
use autentico.Prelude.{
  String, Bool, true, not, Option, none, some, ◌∷◌, ◌==◌, ◌&&◌, ltb, nat_eq, is_empty,
  if◌then◌else◌,
}
use autentico.Schema.{AuthCode, Db, User}
use autentico.Env.{Env, query, exec, exec_if, select_auth_code, insert_auth_code, mark_auth_code}
use autentico.Exec.{Exec, GoError}
use autentico.Sql.{find_row, update_rows, any_row}

abbrev pub has_code : String → AuthCode → Bool
has_code code c = c.code == code

-- Foreign key and primary key of the table.
abbrev pub has_user : Db → String → Bool
has_user db user_id = any_row (λ (u : User). u.id == user_id) db.users

-- The empty text is stored as NULL in the column that the cascade reads.
abbrev pub null_if_empty : Option String → Option String
null_if_empty none = none
null_if_empty (some s) = if is_empty s then none else some s

abbrev pub stored_row : Env → AuthCode → AuthCode
stored_row env code = record code {
  created_at = if nat_eq code.created_at 0 then env.now else code.created_at;
  idp_session_id = null_if_empty code.idp_session_id;
}

unfoldable pub create_auth_code : Env → AuthCode → Exec GoError (Unit {0})
create_auth_code env code =
    exec_if env insert_auth_code
      (λ db. has_user db code.user_id && not (any_row (has_code code.code) db.auth_codes))
      (λ db. record db { auth_codes = stored_row env code ∷ db.auth_codes })

abbrev pub is_live : Env → String → AuthCode → Bool
is_live env code c = c.code == code && not c.used && ltb env.now c.expires_at

unfoldable pub auth_code_by_code : Env → String → Exec GoError AuthCode
auth_code_by_code env code =
    query env select_auth_code (λ db. find_row (is_live env code) db.auth_codes)

unfoldable pub auth_code_by_code_including_used : Env → String → Exec GoError AuthCode
auth_code_by_code_including_used env code =
    query env select_auth_code (λ db. find_row (has_code code) db.auth_codes)

abbrev pub set_used : AuthCode → AuthCode
set_used c = record c { used = true }

abbrev pub mark_code : String → Db → Db
mark_code code db = record db { auth_codes = update_rows (has_code code) set_used db.auth_codes }

unfoldable pub mark_auth_code_as_used : Env → String → Exec GoError (Unit {0})
mark_auth_code_as_used env code = exec env mark_auth_code (mark_code code)
