-- ===== src/User/Update.antt =====
-- pkg/user/update.go: UpdateUser, on the columns that `User` keeps.
use autentico.Prelude.{
  String, Bool, not, Option, none, some, ◌==◌, ◌&&◌, ◌||◌, is_empty, or_empty, some_is,
  if◌then◌else◌,
}
use autentico.Schema.{User}
use autentico.Env.{Env, exec_if, update_columns}
use autentico.Exec.{Exec, GoError, message, pure, raise, ◌>>=◌}
use autentico.Sql.{any_row}
use autentico.User.{user_by_id, update_user}

-- An empty text or an absent flag keeps the value of the row.
pub record UserUpdateRequest : Type 0 where
  pub username : String
  pub password : String
  pub email : String
  pub role : String
  pub is_email_verified : Option Bool
  pub totp_verified : Option Bool
  pub given_name : String
  pub family_name : String
  pub require_password_change : Option Bool

abbrev pub chosen : String → String → String
chosen old new = if is_empty new then old else new

abbrev pub chosen_flag : Bool → Option Bool → Bool
chosen_flag old none = old
chosen_flag old (some new) = new

abbrev pub null_if_empty : String → Option String
null_if_empty s = if is_empty s then none else some s

unfoldable pub new_password : Env → User → String → Exec GoError String
new_password env usr password =
    if is_empty password then pure (or_empty usr.password) else elim (env.hash_password password) [
      | none ↦ raise (message "failed to hash password")
      | some hashed ↦ pure hashed
    ]

-- The columns that the statement sets, from the user that was read.
abbrev pub set_columns : User → UserUpdateRequest → String → User → User
set_columns usr r password u = record u {
  username = chosen usr.username r.username;
  email = null_if_empty (chosen (or_empty usr.email) r.email);
  role = chosen usr.role r.role;
  password = some password;
  is_email_verified = chosen_flag usr.is_email_verified r.is_email_verified;
  totp_verified = chosen_flag usr.totp_verified r.totp_verified;
  given_name = chosen usr.given_name r.given_name;
  family_name = chosen usr.family_name r.family_name;
  require_password_change = chosen_flag usr.require_password_change r.require_password_change;
}

-- Another user has the name or the address.
abbrev pub clashes_with : String → String → String → User → Bool
clashes_with id username email u =
    not (u.id == id) && (u.username == username || (not (is_empty email) && some_is u.email email))

unfoldable pub update_user_by_id : Env → String → UserUpdateRequest → Exec GoError (Unit {0})
unfolding new_password
update_user_by_id env id r = do
  usr ← user_by_id env id
  hashed ← new_password env usr r.password
  exec_if env update_columns
      (λ db. not (
        any_row
          (clashes_with id (chosen usr.username r.username) (chosen (or_empty usr.email) r.email))
          db.users))
      (update_user id (set_columns usr r hashed))
