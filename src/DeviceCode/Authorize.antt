-- ===== src/DeviceCode/Authorize.antt =====
-- The device authorization endpoint: HandleDeviceAuthorization of pkg/devicecode/handler.go and
-- the codes of pkg/devicecode/service.go.
use autentico.Prelude.{
  ℕ, ◌+◌, ◌/◌, zero, suc, String, not, Option, none, some, List, [], ◌∷◌, ◌==◌, is_empty, nat_eq,
  if◌then◌else◌,
}
use autentico.Schema.{DeviceCode, Client, second}
use autentico.Env.{Env}
use autentico.Exec.{
  Exec, HttpError, http, Result, ok, err, pure, lift, require, on_error, ◌>>=◌, ◌>>◌,
}
use autentico.Text.{append}
use autentico.Web.{Request}
use autentico.Client.{client_by_client_id, is_grant_type_allowed, validate_scopes}
use autentico.DeviceCode.{create_device_code}

abbrev user_code_alphabet : String
user_code_alphabet = "BCDFGHJKLMNPQRSTVWXZ"

-- The character at a position, in front of a text; a position of the alphabet is below 20.
unfoldable pub pick : String → ℕ → String → String
pick String.[] n rest = rest
pick (String.◌∷◌ c s) zero rest = String.◌∷◌ c rest
pick (String.◌∷◌ c s) (suc n) rest = pick s n rest

-- The loop of GenerateUserCode over the eight random positions.
unfoldable pub spell : List ℕ → String
unfolding pick
spell [] = ""
spell (n ∷ ns) = pick user_code_alphabet n (spell ns)

abbrev spelled : Option (List ℕ) → Option String
spelled none = none
spelled (some ns) = some (spell ns)

unfoldable pub generate_user_code : Env → Option String
unfolding spell
generate_user_code env = spelled env.random_positions

unfoldable pub size : String → ℕ
size String.[] = 0
size (String.◌∷◌ c s) = suc (size s)

unfoldable pub take_text : ℕ → String → String
take_text zero s = ""
take_text (suc n) String.[] = ""
take_text (suc n) (String.◌∷◌ c s) = String.◌∷◌ c (take_text n s)

unfoldable pub drop_text : ℕ → String → String
drop_text zero s = s
drop_text (suc n) String.[] = ""
drop_text (suc n) (String.◌∷◌ c s) = drop_text n s

-- The codes are ASCII, so that their bytes are their characters.
unfoldable pub format_user_code : String → String
unfolding size take_text drop_text
format_user_code code =
    if nat_eq (size code) 8 then append (take_text 4 code) (append "-" (drop_text 4 code)) else code

pub record DeviceAuthorizationResponse : Type 0 where
  pub device_code : String
  pub user_code : String
  pub verification_uri : String
  pub verification_uri_complete : String
  pub expires_in : ℕ
  pub interval : ℕ

abbrev pub device_code_grant_type : String
device_code_grant_type = "urn:ietf:params:oauth:grant-type:device_code"

abbrev pub drawn : Option String → Result HttpError String
drawn none = err (http 500 "server_error")
drawn (some code) = ok code

abbrev pub effective_scope : Client → String → String
effective_scope c scope = if is_empty scope then c.scopes else scope

abbrev pub pending_code : Env → String → String → String → String → DeviceCode
pending_code env device_code user_code client_id scope = record {
  code = device_code;
  user_code = user_code;
  client_id = client_id;
  scope = scope;
  expires_at = env.now + env.config.device_code_expiration;
  interval_seconds = env.config.device_code_polling_interval;
  user_id = none;
  status = "pending";
  last_polled_at = none;
  created_at = env.now;
}

abbrev verification_uri : Env → String
verification_uri env = append env.app_url "/account/device"

abbrev pub authorization_response : Env → String → String → DeviceAuthorizationResponse
authorization_response env device_code user_code = record {
  device_code = device_code;
  user_code = format_user_code user_code;
  verification_uri = verification_uri env;
  verification_uri_complete =
      append (verification_uri env) (append "/" (format_user_code user_code));
  expires_in = env.config.device_code_expiration / second;
  interval = env.config.device_code_polling_interval;
}

-- The codes and the row, for a client that may ask for them.
unfoldable pub issue_device_code :
    Env → String → String → Exec HttpError DeviceAuthorizationResponse
unfolding generate_user_code format_user_code
issue_device_code env client_id scope = do
  device_code ← lift (drawn env.random_device_code)
  user_code ← lift (drawn (generate_user_code env))
  on_error (http 500 "server_error")
      (create_device_code env (pending_code env device_code user_code client_id scope))
  pure (authorization_response env device_code user_code)

unfoldable pub handle_device_authorization :
    Env → Request → Exec HttpError DeviceAuthorizationResponse
unfolding issue_device_code
handle_device_authorization env req = do
  require (req.method == "POST") (http 405 "invalid_request")
  require req.parses (http 400 "invalid_request")
  require (not (is_empty (req.form "client_id"))) (http 400 "invalid_request")
  c ← on_error (http 400 "invalid_client") (client_by_client_id env (req.form "client_id"))
  require (is_grant_type_allowed env (some c) device_code_grant_type)
      (http 400 "unauthorized_client")
  require (validate_scopes (some c) (req.form "scope")) (http 400 "invalid_scope")
  issue_device_code env (req.form "client_id") (effective_scope c (req.form "scope"))
