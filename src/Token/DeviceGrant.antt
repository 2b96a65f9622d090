-- ===== src/Token/DeviceGrant.antt =====
-- The device code grant: handleDeviceCodeGrant of pkg/token/device_code.go.
pub mod Operations
pub mod Polling
use autentico.Prelude.{
  ℕ, ◌+◌, ◌*◌, String, Bool, true, false, not, Option, none, some, ◌==◌, ◌&&◌, is_empty, ltb,
  or_empty, is_none, if◌then◌else◌,
}
use autentico.Schema.{User, DeviceCode, Db, second}
use autentico.Env.{Env}
use autentico.Exec.{
  Exec, HttpError, http, ok, err, pure, raise, require, attempt, on_error, ◌>>=◌, ◌>>◌,
}
use autentico.DeviceCode.{
  device_code_by_code, update_last_polled_at, increment_polling_interval, consume_device_code,
}
use autentico.User.{user_by_id}
use autentico.Token.CodeGrant.{TokenRequest, invalid_grant}

-- `elapsed < interval`: a poll before the interval since the last one has passed.
unfoldable pub is_too_soon : ℕ → DeviceCode → Bool
is_too_soon now dc = elim dc.last_polled_at [
  | none ↦ false
  | some t ↦ ltb now (t + dc.interval_seconds * second)
]

-- The switch on the status of the code as it was read.
unfoldable pub answer : Env → DeviceCode → Exec HttpError (User × String)
answer env dc =
    if dc.status == "pending"
    then raise (http 400 "authorization_pending")
    else if dc.status == "denied"
    then raise (http 400 "access_denied")
    else if dc.status == "authorized"
    then (do
      require (not (is_none dc.user_id)) (http 500 "server_error")
      usr ← on_error invalid_grant (user_by_id env (or_empty dc.user_id))
      attempt (consume_device_code env dc.code)
      pure (usr, dc.scope))
    else raise invalid_grant

-- The part of the function from the test of the interval on.
unfoldable pub poll_code : Env → DeviceCode → Exec HttpError (User × String)
poll_code env dc =
    if is_too_soon env.now dc
    then (do
      attempt (update_last_polled_at env dc.code env.now)
      attempt (increment_polling_interval env dc.code)
      raise (http 400 "slow_down"))
    else do attempt (update_last_polled_at env dc.code env.now); answer env dc

-- The part of the function before the test of the interval.
unfoldable pub find_device : Env → TokenRequest → Exec HttpError DeviceCode
find_device env r = do
  require (not (is_empty r.device_code)) (http 400 "invalid_request")
  dc ← on_error invalid_grant (device_code_by_code env r.device_code)
  require (dc.client_id == r.client_id) invalid_grant
  require (not (ltb dc.expires_at env.now)) (http 400 "expired_token")
  pure dc

unfoldable pub handle_device_code_grant : Env → TokenRequest → Exec HttpError (User × String)
handle_device_code_grant env r = do dc ← find_device env r; poll_code env dc
