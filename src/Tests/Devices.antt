-- ===== src/Tests/Devices.antt =====
-- The device grant at the concrete server.
use autentico.Prelude.{◌≡◌, ◌≢◌, refl, String, List, ◌∷◌, [], ◌==◌, if◌then◌else◌}
use autentico.Schema.{Db}
use autentico.Exec.{ok}
use autentico.Token.CodeGrant.{TokenRequest}
use autentico.DeviceCode.{update_codes, has_code, polled_at, is_authorized, consumed}
use autentico.DeviceCode.States.{Lives}
use autentico.DeviceCode.Authorize.{
  DeviceAuthorizationResponse, handle_device_authorization, pending_code, authorization_response,
}
use autentico.Token.DeviceGrant.{handle_device_code_grant}
use autentico.Token.DeviceGrant.Operations.{DeviceOp, run_ops, run_ops-Lives, poll, approve}
use autentico.Token.DeviceGrant.Polling.{IsGranted, poll-IsGranted, poll_once}
use autentico.Tests.World.{env, minute_later, start}
use autentico.Tests.Rows.{db, user, blank, web}

abbrev request : TokenRequest
request = record blank { device_code = "dc1" }

abbrev polled_db : Db
polled_db =
    update_codes (is_authorized "dc1") consumed (update_codes (has_code "dc1") (polled_at start) db)

granted : handle_device_code_grant env request db ≡ (ok (user, "openid"), polled_db)
unfolding handle_device_code_grant autentico.Token.DeviceGrant.find_device
    autentico.DeviceCode.device_code_by_code autentico.Env.query autentico.Sql.find_row
    autentico.Token.DeviceGrant.poll_code autentico.Token.DeviceGrant.is_too_soon
    autentico.Token.DeviceGrant.answer autentico.User.user_by_id
    autentico.DeviceCode.update_last_polled_at autentico.Env.exec
    autentico.DeviceCode.consume_device_code
granted = refl

poll-IsGranted_example : IsGranted env request user "openid" db
poll-IsGranted_example = poll-IsGranted env request user "openid" db polled_db granted

abbrev ops : List DeviceOp
ops = approve env "BCDFGHJK" "u1" ∷ poll minute_later request ∷ []

run_ops-Lives_example : Lives db (run_ops ops db)
run_ops-Lives_example = run_ops-Lives ops db

poll_once_example :
    (handle_device_code_grant minute_later request (run_ops ops polled_db)).0 ≢ ok (user, "openid")
poll_once_example =
    poll_once env minute_later request request user user "openid" "openid" db polled_db ops refl
      granted refl

abbrev form : String → String
form name = if name == "client_id" then "app" else ""

abbrev answer : DeviceAuthorizationResponse
answer = authorization_response env "dev1" "BCDFGHJK"

abbrev fresh_db : Db
fresh_db = record db { device_codes = [] }

abbrev requested_db : Db
requested_db = record db {
  device_codes = pending_code env "dev1" "BCDFGHJK" "app" "openid email" ∷ [];
}

requested : handle_device_authorization env (web form) fresh_db ≡ (ok answer, requested_db)
unfolding handle_device_authorization autentico.Client.client_by_client_id
    autentico.Client.is_grant_type_allowed autentico.Text.split autentico.Client.validate_scopes
    autentico.DeviceCode.create_device_code autentico.Env.exec_if autentico.Sql.any_row
requested = refl
