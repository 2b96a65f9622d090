-- ===== src/Mfa/Post.antt =====
-- The code that a user enters: handleMfaPost of pkg/mfa/handler.go.
pub mod Factor
pub mod Passed
pub mod Attempts
pub mod Bounds
use Prim.Native.String.{slice}
use autentico.Prelude.{
  ℕ, ◌+◌, String, Bool, true, false, not, Option, none, some, ◌==◌, ◌&&◌, ◌||◌, is_empty, leb, ltb,
  if◌then◌else◌,
}
use autentico.Schema.{MfaChallenge, User, Client, Db}
use autentico.Env.{Env, FlowParams}
use autentico.Exec.{Exec, pure, raise, require, on_error, attempt, optional, map_error, ◌>>=◌, ◌>>◌}
use autentico.Web.{Request}
use autentico.Browser.{Answer, signed_in, Granted}
use autentico.User.{user_by_id, save_totp_secret}
use autentico.Client.{client_by_client_id}
use autentico.IdpSession.{finalize_login}
use autentico.Consent.{needs_consent, redirect_to_consent, grant_code}
use autentico.TrustedDevice.{create_trusted_device}
use autentico.Mfa.{
  mfa_challenge_by_id_including_expired, mark_challenge_used, increment_failed_attempts,
  redirect_to_login_with_error, render_verify_page, render_enroll_page,
}

abbrev pub to_login : Env → Option MfaChallenge → Answer
to_login env c = redirect_to_login_with_error env c "Something went wrong. Please log in again."

abbrev pub too_many : Env → MfaChallenge → Answer
too_many env c =
    redirect_to_login_with_error env (some c) "Too many failed attempts. Please log in again."

-- The fifth wrong code ends the challenge.
abbrev pub end_or_retry : Env → MfaChallenge → Exec Answer (Unit {0})
end_or_retry env c =
    if leb 5 (c.failed_attempts + 1)
    then (do attempt (mark_challenge_used env c.id); raise (too_many env c))
    else raise (render_verify_page c "Invalid verification code")

-- A wrong code is counted.
unfoldable pub wrong_code : Env → MfaChallenge → Exec Answer (Unit {0})
unfolding increment_failed_attempts mark_challenge_used redirect_to_login_with_error
wrong_code env c = do attempt (increment_failed_attempts env c.id); end_or_retry env c

-- A user without a second factor proves the secret that the page has shown, and keeps it.
unfoldable pub enroll : Env → Request → MfaChallenge → User → Exec Answer (Unit {0})
unfolding render_enroll_page save_totp_secret
enroll env req c usr = do
  require (not (is_empty (req.form "totp_secret")))
      (render_enroll_page env c usr "Missing TOTP secret")
  require (env.validate_totp (req.form "totp_secret") (req.form "code"))
      (render_enroll_page env c usr "Invalid verification code")
  on_error (render_enroll_page env c usr "Failed to save authenticator. Please try again.")
      (save_totp_secret env usr.id (req.form "totp_secret"))

-- Whether the code fits what the challenge asks of an enrolled user.
abbrev pub fits : Env → MfaChallenge → User → String → Bool
fits env c usr code =
    if c.method == "totp"
    then env.validate_totp usr.totp_secret code
    else env.hash_sha256 code == c.code

unfoldable pub check_factor : Env → Request → MfaChallenge → User → Exec Answer (Unit {0})
unfolding wrong_code enroll redirect_to_login_with_error
check_factor env req c usr =
    if c.method == "totp" && not usr.totp_verified
    then enroll env req c usr
    else if c.method == "totp" || c.method == "email"
    then if fits env c usr (req.form "code") then pure tt else wrong_code env c
    else raise (
        redirect_to_login_with_error env (some c)
          "Unknown authentication method. Please log in again.")

abbrev made : String → Option (Unit {0}) → Option String
made id none = none
made id (some _) = some id

-- The user agent is cut to 200 bytes; a character that does not fit whole is left out, where the
-- code keeps some of its bytes. The result is the cookie that is set.
unfoldable pub trust_device : {E : Type 0} → Env → Request → User → Exec E (Option String)
unfolding create_trusted_device
trust_device env req usr =
    if env.config.trust_device_enabled && req.form "trust_device" == "on"
    then (elim (env.secure_code 4) [
      | none ↦ pure none
      | some id ↦ (do
        done ← optional (
            create_trusted_device env (record {
              id = id;
              user_id = usr.id;
              device_name = slice req.user_agent 0 200;
              created_at = 0;
              last_used_at = 0;
              expires_at = env.now + env.config.trust_device_expiration;
            }))
        pure (made id done))
    ])
    else pure none

abbrev pub with_cookie : String → Answer → Answer
with_cookie id a = if is_empty id then a else signed_in id a

abbrev pub non_empty : String → Option String
non_empty s = if is_empty s then none else some s

-- `clientErr == nil && consent.NeedsConsent(...)`.
unfoldable pub asks_consent : {E : Type 0} → Env → Option Client → String → FlowParams → Exec E Bool
asks_consent env none user_id p = pure false
asks_consent env (some c) user_id p =
    needs_consent env c.consent_required user_id p.client_id p.scope p.prompt

-- The consent of the user, and the code.
unfoldable pub finish :
    Env → Answer → FlowParams → Option Client → String → String → Exec Answer Granted
unfolding asks_consent
finish env failed p client user_id idp = do
  asks ← asks_consent env client user_id p
  require (not asks) (redirect_to_consent env p)
  grant_code env failed p user_id 0 idp

-- The redirect is written with `fmt.Sprintf`, not encoded.
unfoldable pub complete :
    Env → Request → MfaChallenge → User → Option String → FlowParams → Exec Answer Granted
unfolding finish
complete env req c usr device p = do
  idp ← finalize_login env req usr.id
  client ← optional (client_by_client_id env p.client_id)
  g ← map_error (with_cookie idp) (finish env (to_login env (some c)) p client usr.id idp)
  pure (record g { encoded = false; sso_cookie = non_empty idp; device_cookie = device })

abbrev pub restored : Env → Request → MfaChallenge → User → Option String → Exec Answer Granted
restored env req c usr device = elim (env.parse_login_state c.login_state) [
  | none ↦ raise (redirect_to_login_with_error env (some c) "Session expired. Please log in again.")
  | some p ↦ complete env req c usr device p
]

-- The part of the handler behind the factor and the mark.
abbrev pub go_on : Env → Request → MfaChallenge → User → Exec Answer Granted
go_on env req c usr = do device ← trust_device env req usr; restored env req c usr device

-- The part of the handler behind the factor.
unfoldable pub pass : Env → Request → MfaChallenge → User → Exec Answer Granted
unfolding trust_device complete redirect_to_login_with_error
pass env req c usr = do attempt (mark_challenge_used env c.id); go_on env req c usr

-- The challenge that a request answers, and its user.
unfoldable pub open_challenge : Env → Request → Exec Answer (MfaChallenge × User)
unfolding redirect_to_login_with_error
open_challenge env req = do
  require req.parses (redirect_to_login_with_error env none "Invalid request. Please log in again.")
  require (not (is_empty (req.form "challenge_id") || is_empty (req.form "code")))
      (redirect_to_login_with_error env none "Invalid request. Please log in again.")
  c ←
      on_error
        (redirect_to_login_with_error env none
          "Verification session not found. Please log in again.")
        (mfa_challenge_by_id_including_expired env (req.form "challenge_id"))
  require (not (c.used || ltb c.expires_at env.now)) (
      redirect_to_login_with_error env (some c)
        "Verification session has expired. Please log in again.")
  usr ← on_error (to_login env (some c)) (user_by_id env c.user_id)
  pure (c, usr)

-- The handler behind the challenge.
abbrev pub answer : Env → Request → MfaChallenge × User → Exec Answer Granted
answer env req (c, usr) = do check_factor env req c usr; pass env req c usr

unfoldable pub handle_mfa_post : Env → Request → Exec Answer Granted
unfolding open_challenge check_factor pass
handle_mfa_post env req = do o ← open_challenge env req; answer env req o
