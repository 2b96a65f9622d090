-- ===== src/Mfa/Get.antt =====
-- The page for the second factor: handleMfaGet, handleMethodSwitch and HandleMfa of
-- pkg/mfa/handler.go.
pub mod Switch
use autentico.Prelude.{
  ℕ, ◌+◌, ◌*◌, String, Bool, true, false, not, Option, none, some, List, [], ◌∷◌, ◌==◌, ◌&&◌, ◌||◌,
  is_empty, is_none, ltb, if◌then◌else◌,
}
use autentico.Schema.{MfaChallenge, User, Db, second}
use autentico.Env.{Env}
use autentico.Exec.{Exec, pure, raise, require, on_error, attempt, ◌>>=◌, ◌>>◌}
use autentico.Text.{append}
use autentico.Web.{Request}
use autentico.Browser.{Answer, http_error, redirect, Granted}
use autentico.User.{user_by_id}
use autentico.Mfa.{
  mfa_challenge_by_id_including_expired, mark_challenge_used, create_mfa_challenge,
  update_challenge_code, generate_email_otp, redirect_to_login_with_error, render_verify_page,
  render_enroll_page,
}
use autentico.Mfa.Post.{to_login, handle_mfa_post}

abbrev pub mfa_page : Env → String → Answer
mfa_page env id = redirect (append env.oauth_path "/mfa") (("challenge_id", id) ∷ [])

-- Whether the user may go on with the other method.
unfoldable pub may_switch : Env → String → MfaChallenge → Exec Answer Bool
may_switch env method c =
    if method == "totp" && not (c.method == "totp")
    then (do
      usr ← on_error (to_login env (some c)) (user_by_id env c.user_id)
      pure usr.totp_verified)
    else pure (method == "email" && not (c.method == "email"))

abbrev pub switched_challenge : String → String → MfaChallenge → MfaChallenge
switched_challenge id method c = record {
  id = id;
  user_id = c.user_id;
  method = method;
  code = "";
  login_state = c.login_state;
  created_at = 0;
  expires_at = c.expires_at;
  used = false;
  failed_attempts = 0;
  otp_sent_at = none;
}

-- The challenge is closed, and one for the other method is opened.
unfoldable pub switch_to : Env → String → MfaChallenge → Exec Answer (Unit {0})
unfolding mark_challenge_used create_mfa_challenge
switch_to env method c = do
  on_error (to_login env (some c)) (mark_challenge_used env c.id)
  elim (env.secure_code 3) [
    | none ↦ raise (render_verify_page c "Something went wrong. Please try again.")
    | some id ↦ (do
      on_error (to_login env (some c)) (create_mfa_challenge env (switched_challenge id method c))
      raise (mfa_page env id))
  ]

-- `false` of the function is to go on; after `true`, the answer has been given.
unfoldable pub handle_method_switch : Env → Request → MfaChallenge → Exec Answer (Unit {0})
unfolding may_switch switch_to
handle_method_switch env req c =
    let method = req.query "switch_to" in
    if is_empty method || not (env.config.mfa_method == "both") || is_empty env.config.smtp_host
    then pure tt
    else (do
      switched ← may_switch env method c
      if switched then switch_to env method c else pure tt)

-- A user who has no second factor yet is shown the page to enroll.
unfoldable pub require_enrolled : Env → MfaChallenge → Exec Answer (Unit {0})
unfolding render_enroll_page
require_enrolled env c =
    if c.method == "totp"
    then (do
      usr ← on_error (to_login env (some c)) (user_by_id env c.user_id)
      require (usr.totp_verified || env.config.mfa_method == "totp") (to_login env (some c))
      require usr.totp_verified (render_enroll_page env c usr ""))
    else pure tt

-- `challenge.OtpSentAt != nil && time.Since(*challenge.OtpSentAt) < otpCooldown`.
abbrev pub is_cooling : Env → Option ℕ → Bool
is_cooling env none = false
is_cooling env (some t) = ltb env.now (t + 60 * second)

abbrev resent : Option ℕ → String
resent none = ""
resent (some _) = "A new code has been sent to your email"

abbrev deliver : Env → MfaChallenge → User → String → Exec Answer Answer
deliver env c usr otp = do
  attempt (update_challenge_code env c.id (env.hash_sha256 otp))
  require (env.send_email_otp usr.email otp)
      (render_verify_page c "Failed to send verification code. Please try again.")
  pure (render_verify_page c (resent c.otp_sent_at))

unfoldable pub send_code : Env → MfaChallenge → Exec Answer Answer
unfolding update_challenge_code generate_email_otp
send_code env c = do
  usr ← on_error (to_login env (some c)) (user_by_id env c.user_id)
  require (not (is_cooling env c.otp_sent_at))
      (render_verify_page c "Code was already sent. Please check your email.")
  elim (generate_email_otp env) [
    | none ↦ raise (render_verify_page c "Failed to generate verification code. Please try again.")
    | some otp ↦ deliver env c usr otp
  ]

unfoldable pub handle_mfa_get : Env → Request → Exec Answer Answer
unfolding handle_method_switch require_enrolled send_code redirect_to_login_with_error
handle_mfa_get env req = do
  require (not (is_empty (req.query "challenge_id"))) (http_error 400 "invalid_request")
  c ←
      on_error
        (redirect_to_login_with_error env none
          "Verification session not found. Please log in again.")
        (mfa_challenge_by_id_including_expired env (req.query "challenge_id"))
  require (not (c.used || ltb c.expires_at env.now)) (
      redirect_to_login_with_error env (some c)
        "Verification session has expired. Please log in again.")
  handle_method_switch env req c
  require_enrolled env c
  if c.method == "email" then send_code env c else pure (render_verify_page c "")

unfoldable pub handle_mfa : Env → Request → Exec Answer Granted
unfolding handle_mfa_get handle_mfa_post
handle_mfa env req =
    if req.method == "GET"
    then (do page ← handle_mfa_get env req; raise page)
    else if req.method == "POST"
    then handle_mfa_post env req
    else raise (http_error 405 "invalid_request")
