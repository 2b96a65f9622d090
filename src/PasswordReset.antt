-- ===== src/PasswordReset.antt =====
-- pkg/passwordreset: the links that set a new password (store.go, handler.go).
pub mod Effect
pub mod Reset
pub mod Once
pub mod Ended
pub mod Sent
pub mod Quiet
pub mod Forgot
pub mod Link
use Prim.Native.String.{len}
use autentico.Prelude.{
  ℕ, ◌+◌, String, Bool, true, false, not, Option, none, some, List, [], ◌∷◌, ◌==◌, ◌&&◌, is_empty,
  is_none, or_empty, ltb, if◌then◌else◌,
}
use autentico.Schema.{PasswordResetToken, User, Session, Db}
use autentico.Env.{
  Env, query, exec, exec_if, select_reset, insert_reset, mark_reset, invalidate_resets,
  end_user_sessions,
}
use autentico.Exec.{
  Exec, GoError, no_rows, pure, raise, recover, require, attempt, optional, on_error, map_error,
  ◌>>=◌, ◌>>◌,
}
use autentico.Sql.{find_row, update_rows, any_row}
use autentico.Text.{append}
use autentico.Web.{Request}
use autentico.AuthCode.{has_user}
use autentico.IdpSession.{end_session, deactivate_all_for_user}
use autentico.User.{user_by_username, user_by_email}
use autentico.User.Update.{UserUpdateRequest, update_user_by_id}

-- The parameters that bring the user back to the login page.
pub record OauthParams : Type 0 where
  pub redirect_uri : String
  pub state : String
  pub client_id : String
  pub scope : String
  pub nonce : String
  pub code_challenge : String
  pub code_challenge_method : String

abbrev pub params_from_request : (String → String) → OauthParams
params_from_request getter = record {
  redirect_uri = getter "redirect_uri";
  state = getter "state";
  client_id = getter "client_id";
  scope = getter "scope";
  nonce = getter "nonce";
  code_challenge = getter "code_challenge";
  code_challenge_method = getter "code_challenge_method";
}

-- The error that a page shows; the last one is "Password must be at least %d characters.".
pub data Notice : Type 0 where
  words : String → Notice
  min_length : ℕ → Notice

-- A page with its mode, the token of the form, the parameters and the error.
pub data ResetPage : Type 0 where
  refused : ℕ → ResetPage
  forgot_page : String → OauthParams → Notice → ResetPage
  reset_page : String → String → OauthParams → Notice → ResetPage

abbrev pub has_hash : String → PasswordResetToken → Bool
has_hash token_hash t = t.token_hash == token_hash

-- A new row clashes with one that has its identifier or its hash.
abbrev pub is_row_free : String → String → Db → Bool
is_row_free id token_hash db =
    not (any_row (λ (t : PasswordResetToken). t.id == id) db.password_reset_tokens)
    && not (any_row (has_hash token_hash) db.password_reset_tokens)

abbrev pub reset_row : Env → String → String → ℕ → PasswordResetToken
reset_row env user_id token_hash expires_at = record {
  id = env.fresh_id 0;
  user_id = user_id;
  token_hash = token_hash;
  expires_at = expires_at;
  used_at = none;
  created_at = env.now;
}

unfoldable pub create_reset_token : Env → String → String → ℕ → Exec GoError (Unit {0})
create_reset_token env user_id token_hash expires_at =
    exec_if env insert_reset
      (λ db. has_user db user_id && is_row_free (env.fresh_id 0) token_hash db)
      (λ db. record db {
        password_reset_tokens =
            reset_row env user_id token_hash expires_at ∷ db.password_reset_tokens;
      })

unfoldable pub get_reset_token_info : Env → String → Exec GoError PasswordResetToken
get_reset_token_info env token_hash =
    query env select_reset (λ db. find_row (has_hash token_hash) db.password_reset_tokens)

abbrev pub used_now : Env → PasswordResetToken → PasswordResetToken
used_now env t = record t { used_at = some env.now }

abbrev pub use_tokens : Env → (PasswordResetToken → Bool) → Db → Db
use_tokens env p db = record db {
  password_reset_tokens = update_rows p (used_now env) db.password_reset_tokens;
}

unfoldable pub mark_token_used : Env → String → Exec GoError (Unit {0})
mark_token_used env token_hash = exec env mark_reset (use_tokens env (has_hash token_hash))

abbrev pub is_unused_of : String → PasswordResetToken → Bool
is_unused_of user_id t = t.user_id == user_id && is_none t.used_at

unfoldable pub invalidate_previous_tokens : Env → String → Exec GoError (Unit {0})
invalidate_previous_tokens env user_id =
    exec env invalidate_resets (use_tokens env (is_unused_of user_id))

abbrev pub is_live_of : String → Session → Bool
is_live_of user_id s = s.user_id == user_id && is_none s.deactivated_at

abbrev pub end_sessions_of : Env → String → Db → Db
end_sessions_of env user_id db = record db {
  sessions = update_rows (is_live_of user_id) (end_session env) db.sessions;
}

unfoldable pub deactivate_user_sessions : Env → String → Exec GoError (Unit {0})
deactivate_user_sessions env user_id = exec env end_user_sessions (end_sessions_of env user_id)

abbrev optional_param : String → String → List (String × String) → List (String × String)
optional_param name value rest = if is_empty value then rest else (name, value) ∷ rest

-- The query as names and values, in the order in which they are set.
abbrev pub build_reset_url : Env → String → OauthParams → String × List (String × String)
build_reset_url env raw p = (
  append env.app_url (append env.oauth_path "/reset-password?"),
  ("token", raw)
      ∷ ("redirect_uri", p.redirect_uri)
      ∷ ("state", p.state)
      ∷ ("client_id", p.client_id)
      ∷ ("scope", p.scope)
      ∷ optional_param "nonce" p.nonce (
          if is_empty p.code_challenge
          then []
          else (("code_challenge", p.code_challenge)
              ∷ ("code_challenge_method", p.code_challenge_method)
              ∷ [])),
)

-- A message that is put on its way: its recipient and the link.
pub record Mail : Type 0 where
  pub to : String
  pub link : String × List (String × String)

abbrev pub is_reachable : Option User → Bool
is_reachable none = false
is_reachable (some u) = not (is_empty (or_empty u.email)) && u.is_email_verified

-- By name first, then by a verified address.
unfoldable pub find_account : {E : Type 0} → Env → String → Exec E (Option User)
unfolding user_by_username user_by_email
find_account env identifier =
    optional
      (recover {F = GoError} (user_by_username env identifier) (λ _. user_by_email env identifier))

abbrev pub mail_if : Env → OauthParams → User → String → Option (Unit {0}) → Option Mail
mail_if env p usr raw none = none
mail_if env p usr raw (some _) =
    some (record { to = or_empty usr.email; link = build_reset_url env raw p })

-- generateToken draws like `GenerateSecureCode`, and keeps the hash.
unfoldable pub send_new : {E : Type 0} → Env → OauthParams → User → Exec E (Option Mail)
unfolding create_reset_token
send_new env p usr = elim (env.secure_code 0) [
  | none ↦ pure none
  | some raw ↦ (do
    made ← optional (
        create_reset_token env usr.id (env.hash_sha256 raw)
          (env.now + env.config.password_reset_expiration))
    pure (mail_if env p usr raw made))
]

unfoldable pub send_link : {E : Type 0} → Env → OauthParams → User → Exec E (Option Mail)
unfolding invalidate_previous_tokens send_new
send_link env p usr = do attempt (invalidate_previous_tokens env usr.id); send_new env p usr

abbrev pub link_for : {E : Type 0} → Env → OauthParams → Option User → Exec E (Option Mail)
link_for env p none = pure none
link_for env p (some usr) =
    let sent = send_link env p usr in if is_reachable (some usr) then sent else pure none

-- POST. The random delay is left out.
unfoldable pub request_link : Env → Request → Exec ResetPage (OauthParams × Option Mail)
unfolding find_account send_link
request_link env req = do
  require req.parses (refused 400)
  require (not (is_empty (req.form "identifier"))) (
      forgot_page "form" (params_from_request req.form)
        (words "Please enter your username or email."))
  usr ← find_account env (req.form "identifier")
  mail ← link_for env (params_from_request req.form) usr
  pure (params_from_request req.form, mail)

-- HandleForgotPassword. It ends with the page "sent" for the parameters and perhaps a message;
-- every other page is an early return.
unfoldable pub handle_forgot_password : Env → Request → Exec ResetPage (OauthParams × Option Mail)
unfolding request_link
handle_forgot_password env req =
    let link = request_link env req in
    if req.method == "GET"
    then raise (forgot_page "form" (params_from_request req.query) (words ""))
    else link

abbrev pub is_usable : Env → PasswordResetToken → Bool
is_usable env t = is_none t.used_at && not (ltb t.expires_at env.now)

abbrev expired_link : OauthParams → String → ResetPage
expired_link p error = reset_page "expired" "" p (words error)

-- GET: the form, if the link is still good.
unfoldable pub show_reset : Env → Request → Exec ResetPage OauthParams
unfolding get_reset_token_info
show_reset env req =
    let p = params_from_request req.query in
    let raw = req.query "token" in
    let gone = expired_link p "This password reset link has expired or has already been used." in
    (do
      require (not (is_empty raw)) (expired_link p "Invalid or missing reset link.")
      t ← on_error gone (get_reset_token_info env (env.hash_sha256 raw))
      require (is_usable env t) gone
      raise (reset_page "form" raw p (words "")))

abbrev lookup_page : OauthParams → GoError → ResetPage
lookup_page p no_rows =
    expired_link p "This password reset link is invalid or has already been used."
lookup_page p _ = expired_link p "Something went wrong. Please request a new reset link."

abbrev pub only_password : String → UserUpdateRequest
only_password password = record {
  username = "";
  password = password;
  email = "";
  role = "";
  is_email_verified = none;
  totp_verified = none;
  given_name = "";
  family_name = "";
  require_password_change = none;
}

-- The tests on the two passwords.
unfoldable pub check_passwords :
    Env → OauthParams → String → String → String → Exec ResetPage (Unit {0})
check_passwords env p raw password confirm = do
  require (password == confirm) (reset_page "form" raw p (words "Passwords do not match."))
  require (not (ltb (len password) env.config.validation_min_password_length))
      (reset_page "form" raw p (min_length env.config.validation_min_password_length))
  require (not (ltb env.config.validation_max_password_length (len password)))
      (reset_page "form" raw p (words "Password is too long."))

unfoldable pub find_token : Env → OauthParams → String → Exec ResetPage PasswordResetToken
unfolding get_reset_token_info
find_token env p token_hash = do
  t ← map_error (lookup_page p) (get_reset_token_info env token_hash)
  require (is_none t.used_at) (expired_link p "This password reset link has already been used.")
  require (not (ltb t.expires_at env.now)) (expired_link p "This password reset link has expired.")
  pure t

-- What follows the new password; the errors are only logged.
unfoldable pub sign_out : {E : Type 0} → Env → String → String → Exec E (Unit {0})
unfolding mark_token_used deactivate_user_sessions
sign_out env token_hash user_id = do
  attempt (mark_token_used env token_hash)
  attempt (deactivate_user_sessions env user_id)
  attempt (deactivate_all_for_user env user_id)

-- POST.
unfoldable pub set_password : Env → Request → Exec ResetPage OauthParams
unfolding check_passwords find_token sign_out
set_password env req =
    let p = params_from_request req.form in
    let raw = req.form "token" in
    let password = req.form "password" in
    (do
      require req.parses (refused 400)
      require (not (is_empty raw)) (expired_link p "Invalid or missing reset token.")
      check_passwords env p raw password (req.form "confirm_password")
      t ← find_token env p (env.hash_sha256 raw)
      on_error (reset_page "form" raw p (words "Failed to update password. Please try again."))
          (update_user_by_id env t.user_id (only_password password))
      sign_out env (env.hash_sha256 raw) t.user_id
      pure p)

-- HandleResetPassword. It ends with the page "success" for the parameters.
unfoldable pub handle_reset_password : Env → Request → Exec ResetPage OauthParams
unfolding show_reset set_password
handle_reset_password env req =
    let form = show_reset env req in
    let set = set_password env req in if req.method == "GET" then form else set
