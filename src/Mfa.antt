-- ===== src/Mfa.antt =====
-- pkg/mfa: the challenges for a second factor and what the handlers share
-- (create.go, read.go, update.go, otp.go, handler.go).
pub mod Post
pub mod Get
pub mod Codes
use Prim.Native.Nat.{◌%◌}
use autentico.Prelude.{
  ℕ, ◌+◌, ◌/◌, String, Bool, true, false, not, Option, none, some, List, [], ◌∷◌, ◌++◌, ◌==◌, ◌&&◌,
  is_empty, if◌then◌else◌, zero, suc,
}
use autentico.Schema.{MfaChallenge, User, Db}
use autentico.Env.{
  Env, FlowParams, query, exec, exec_if, select_challenge, insert_challenge, mark_challenge,
  set_challenge_code, increment_failed,
}
use autentico.Exec.{Exec, GoError}
use autentico.Sql.{find_row, update_rows, any_row}
use autentico.Text.{append}
use autentico.Browser.{Answer, redirect, verify_page, enroll_page}
use autentico.AuthCode.{has_user}
use autentico.DeviceCode.Authorize.{pick}

abbrev pub has_id : String → MfaChallenge → Bool
has_id id c = c.id == id

-- Columns that the insert leaves out take their defaults.
unfoldable pub create_mfa_challenge : Env → MfaChallenge → Exec GoError (Unit {0})
create_mfa_challenge env challenge =
    let row = record challenge { created_at = env.now; failed_attempts = 0; otp_sent_at = none } in
    exec_if env insert_challenge
      (λ db. has_user db challenge.user_id && not (any_row (has_id challenge.id) db.mfa_challenges))
      (λ db. record db { mfa_challenges = row ∷ db.mfa_challenges })

unfoldable pub mfa_challenge_by_id_including_expired : Env → String → Exec GoError MfaChallenge
mfa_challenge_by_id_including_expired env id =
    query env select_challenge (λ db. find_row (has_id id) db.mfa_challenges)

abbrev pub update_challenge : String → (MfaChallenge → MfaChallenge) → Db → Db
update_challenge id f db = record db {
  mfa_challenges = update_rows (has_id id) f db.mfa_challenges;
}

abbrev pub used : MfaChallenge → MfaChallenge
used c = record c { used = true }

abbrev pub failed_again : MfaChallenge → MfaChallenge
failed_again c = record c { failed_attempts = c.failed_attempts + 1 }

abbrev pub sent : ℕ → String → MfaChallenge → MfaChallenge
sent now code c = record c { code = code; otp_sent_at = some now }

unfoldable pub mark_challenge_used : Env → String → Exec GoError (Unit {0})
mark_challenge_used env id = exec env mark_challenge (update_challenge id used)

unfoldable pub update_challenge_code : Env → String → String → Exec GoError (Unit {0})
update_challenge_code env id code =
    exec env set_challenge_code (update_challenge id (sent env.now code))

unfoldable pub increment_failed_attempts : Env → String → Exec GoError (Unit {0})
increment_failed_attempts env id = exec env increment_failed (update_challenge id failed_again)

-- `fmt.Sprintf("%06d", n)` for a number below a million: that many last digits of it.
unfoldable pub last_digits : ℕ → ℕ → String → String
unfolding pick
last_digits zero n rest = rest
last_digits (suc k) n rest = last_digits k (n / 10) (pick "0123456789" (n % 10) rest)

unfoldable pub generate_email_otp : Env → Option String
unfolding last_digits
generate_email_otp env = elim (env.random_below 1000000) [
  | none ↦ none
  | some n ↦ some (last_digits 6 n "")
]

abbrev nonce_param : String → List (String × String)
nonce_param s = if is_empty s then [] else ("nonce", s) ∷ []

abbrev challenge_params : FlowParams → List (String × String)
challenge_params p =
    if is_empty p.code_challenge
    then []
    else ("code_challenge", p.code_challenge)
      ∷ ("code_challenge_method", p.code_challenge_method)
      ∷ []

abbrev pub flow_params : FlowParams → List (String × String)
flow_params p =
    (("client_id", p.client_id)
      ∷ ("redirect_uri", p.redirect_uri)
      ∷ ("state", p.state)
      ∷ ("scope", p.scope)
      ∷ [])
    ++ (nonce_param p.nonce ++ challenge_params p)

-- The request that a challenge remembers.
abbrev remembered : Option FlowParams → List (String × String)
remembered none = []
remembered (some p) = flow_params p

abbrev state_of : Env → Option MfaChallenge → Option FlowParams
state_of env none = none
state_of env (some c) = env.parse_login_state c.login_state

-- Back to the login page of the request, with an error.
unfoldable pub redirect_to_login_with_error : Env → Option MfaChallenge → String → Answer
redirect_to_login_with_error env challenge error =
    redirect (append env.oauth_path "/authorize")
      (("response_type", "code") ∷ ("error", error) ∷ remembered (state_of env challenge))

-- The page for the code, with an error or a message.
abbrev pub render_verify_page : MfaChallenge → String → Answer
render_verify_page c text = verify_page c.id c.method text

-- The page with a new TOTP secret and its QR code.
unfoldable pub render_enroll_page : Env → MfaChallenge → User → String → Answer
unfolding redirect_to_login_with_error
render_enroll_page env c usr error = elim (env.generate_totp usr.username) [
  | none ↦ redirect_to_login_with_error env (some c) "Something went wrong. Please log in again."
  | some (secret, url) ↦
      if env.qr_encodes url
      then enroll_page c.id secret error
      else redirect_to_login_with_error env (some c) "Something went wrong. Please log in again."
]
