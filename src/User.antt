-- ===== src/User.antt =====
-- pkg/user: reading users, and signing in with a password under the lockout policy
-- (read.go, authenticate.go).
pub mod Lockout
pub mod Update
use autentico.Prelude.{
  ℕ, ◌+◌, String, Bool, true, false, not, Option, none, some, ◌==◌, ◌&&◌, ltb, leb, is_empty,
  is_none, or_empty, some_is, if◌then◌else◌,
}
use autentico.Schema.{User, Db}
use autentico.Env.{
  Env, query, exec, select_user, select_login, lock_user, count_failure, reset_failures,
  set_last_login, save_totp, select_user_named, select_user_by_email,
}
use autentico.Exec.{
  Exec, GoError, message, account_locked, no_rows, ok, err, Result, pure, raise, require, attempt,
  on_error, map_error, ◌>>=◌, ◌>>◌, continue,
}
use autentico.Sql.{find_row, update_rows}

abbrev pub has_id : String → User → Bool
has_id user_id u = u.id == user_id

-- `WHERE id = ? AND deactivated_at IS NULL`.
abbrev pub is_active : String → User → Bool
is_active user_id u = u.id == user_id && is_none u.deactivated_at

unfoldable pub user_by_id : Env → String → Exec GoError User
user_by_id env user_id = query env select_user (λ db. find_row (is_active user_id) db.users)

unfoldable pub user_by_id_including_deactivated : Env → String → Exec GoError User
user_by_id_including_deactivated env user_id =
    query env select_user (λ db. find_row (has_id user_id) db.users)

-- `WHERE username = ? AND deactivated_at IS NULL`.
abbrev pub has_login : String → User → Bool
has_login username u = u.username == username && is_none u.deactivated_at

-- UserByUsername and UserByEmail; their errors are told apart by no caller.
unfoldable pub user_by_username : Env → String → Exec GoError User
user_by_username env username =
    query env select_user_named (λ db. find_row (has_login username) db.users)

-- `WHERE email = ? AND deactivated_at IS NULL AND is_email_verified = TRUE`.
abbrev pub has_verified_email : String → User → Bool
has_verified_email email u =
    some_is u.email email && is_none u.deactivated_at && u.is_email_verified

unfoldable pub user_by_email : Env → String → Exec GoError User
user_by_email env email =
    query env select_user_by_email
      (λ db. find_row (has_verified_email (env.to_lower email)) db.users)

abbrev pub update_user : String → (User → User) → Db → Db
update_user user_id f db = record db { users = update_rows (has_id user_id) f db.users }

abbrev later_than : Option ℕ → ℕ → Bool
later_than none now = false
later_than (some t) now = ltb now t

-- `maxAttempts > 0 && usr.LockedUntil != nil && usr.LockedUntil.After(time.Now())`.
abbrev pub is_locked : Env → User → Bool
is_locked env u = ltb 0 env.config.lockout_max_attempts && later_than u.locked_until env.now

abbrev pub lock : ℕ → ℕ → User → User
lock attempts until u = record u { failed_login_attempts = attempts; locked_until = some until }

abbrev pub count : ℕ → User → User
count attempts u = record u { failed_login_attempts = attempts }

abbrev pub reset : User → User
reset u = record u { failed_login_attempts = 0; locked_until = none }

-- The updates after a wrong password; their errors are only logged.
unfoldable pub record_failure : Env → User → Exec GoError (Unit {0})
record_failure env usr =
    let attempts = usr.failed_login_attempts + 1 in
    if ltb 0 env.config.lockout_max_attempts
    then if leb env.config.lockout_max_attempts attempts
      then attempt (
          exec env lock_user
            (update_user usr.id (lock attempts (env.now + env.config.lockout_duration))))
      else attempt (exec env count_failure (update_user usr.id (count attempts)))
    else pure tt

unfoldable pub record_success : Env → User → Exec GoError (Unit {0})
record_success env usr =
    if ltb 0 env.config.lockout_max_attempts && ltb 0 usr.failed_login_attempts
    then attempt (exec env reset_failures (update_user usr.id reset))
    else pure tt

-- The hash of `usr` is the stored one: callers have refused an empty password column.
unfoldable pub verify_password_with_lockout : Env → User → String → Exec GoError (Unit {0})
unfolding record_failure record_success
verify_password_with_lockout env usr password = do
  require (not (is_locked env usr)) account_locked
  if env.compare_hash (or_empty usr.password) password
      then record_success env usr
      else do record_failure env usr; raise (message "invalid password")

abbrev pub enrolled : String → User → User
enrolled secret u = record u { totp_secret = secret; totp_verified = true }

-- SaveTotpSecret; the column two_factor_enabled is left out.
unfoldable pub save_totp_secret : Env → String → String → Exec GoError (Unit {0})
save_totp_secret env user_id secret = exec env save_totp (update_user user_id (enrolled secret))

-- The login query reads no profile columns: they are empty in the user that it returns.
abbrev pub login_columns : User → User
login_columns u = record u { given_name = ""; family_name = ""; last_login = none }

abbrev wrong_login : GoError
wrong_login = message "invalid username or password"

-- `errors.Is(err, ErrAccountLocked)` keeps its error, any other becomes a wrong login.
abbrev mask : GoError → GoError
mask account_locked = account_locked
mask _ = wrong_login

-- The errors of the login query.
abbrev login_error : GoError → GoError
login_error no_rows = wrong_login
login_error _ = message "failed to retrieve user"

unfoldable pub authenticate_user : Env → String → String → Exec GoError User
unfolding verify_password_with_lockout
authenticate_user env username password = do
  row ←
      map_error login_error (query env select_login (λ db. find_row (has_login username) db.users))
  require (not (is_empty (or_empty row.password))) wrong_login
  map_error mask (verify_password_with_lockout env row password)
  attempt
      (exec env set_last_login (update_user row.id (λ u. record u { last_login = some env.now })))
  pure (login_columns row)

unfoldable pub verify_password : Env → String → String → Exec GoError (Unit {0})
unfolding user_by_id verify_password_with_lockout
verify_password env user_id password = do
  usr ← on_error (message "invalid password") (user_by_id env user_id)
  require (not (is_empty (or_empty usr.password))) (message "invalid password")
  verify_password_with_lockout env usr password
