-- ===== src/DeviceCode.antt =====
-- pkg/devicecode: the table of device codes, user codes, and the device authorization endpoint.
pub mod States
pub mod Authorize
pub mod Requested
use Prim.Native.Char.{Char, code}
use autentico.Prelude.{
  ℕ, ◌+◌, ◌*◌, String, Bool, true, false, not, Option, none, some, ◌∷◌, ◌==◌, ◌&&◌, ◌||◌, is_empty,
  if◌then◌else◌,
}
use autentico.Schema.{DeviceCode, Db}
use autentico.Env.{
  Env, query, exec, exec_if, select_device_code, insert_device_code, authorize_device, deny_device,
  consume_device, increment_interval, set_last_polled,
}
use autentico.Exec.{Exec, GoError}
use autentico.AuthCode.{has_user}
use autentico.Sql.{find_row, update_rows, any_row}

abbrev pub has_code : String → DeviceCode → Bool
has_code code d = d.code == code

abbrev pub has_user_code : String → DeviceCode → Bool
has_user_code user_code d = d.user_code == user_code

-- The insert names no user and no time of a poll: those columns are NULL.
unfoldable pub create_device_code : Env → DeviceCode → Exec GoError (Unit {0})
create_device_code env dc =
    let row = record dc { user_id = none; last_polled_at = none; created_at = env.now } in
    exec_if env insert_device_code
      (λ db.
        not (any_row (λ d. has_code dc.code d || has_user_code dc.user_code d) db.device_codes))
      (λ db. record db { device_codes = row ∷ db.device_codes })

unfoldable pub device_code_by_code : Env → String → Exec GoError DeviceCode
device_code_by_code env code =
    query env select_device_code (λ db. find_row (has_code code) db.device_codes)

unfoldable pub device_code_by_user_code : Env → String → Exec GoError DeviceCode
device_code_by_user_code env user_code =
    query env select_device_code (λ db. find_row (has_user_code user_code) db.device_codes)

abbrev pub update_codes : (DeviceCode → Bool) → (DeviceCode → DeviceCode) → Db → Db
update_codes p f db = record db { device_codes = update_rows p f db.device_codes }

abbrev pub is_pending : String → DeviceCode → Bool
is_pending user_code d = d.user_code == user_code && d.status == "pending"

abbrev pub authorized_by : String → DeviceCode → DeviceCode
authorized_by user_id d = record d { status = "authorized"; user_id = some user_id }

-- The column user_id refers to a user, which is tested if the update changes a row.
unfoldable pub authorize_device_code : Env → String → String → Exec GoError (Unit {0})
authorize_device_code env user_code user_id =
    exec_if env authorize_device
      (λ db. has_user db user_id || not (any_row (is_pending user_code) db.device_codes))
      (update_codes (is_pending user_code) (authorized_by user_id))

abbrev pub denied : DeviceCode → DeviceCode
denied d = record d { status = "denied" }

unfoldable pub deny_device_code : Env → String → Exec GoError (Unit {0})
deny_device_code env user_code = exec env deny_device (update_codes (is_pending user_code) denied)

abbrev pub is_authorized : String → DeviceCode → Bool
is_authorized code d = d.code == code && d.status == "authorized"

abbrev pub consumed : DeviceCode → DeviceCode
consumed d = record d { status = "consumed" }

unfoldable pub consume_device_code : Env → String → Exec GoError (Unit {0})
consume_device_code env code = exec env consume_device (update_codes (is_authorized code) consumed)

abbrev pub slower : DeviceCode → DeviceCode
slower d = record d { interval_seconds = d.interval_seconds + 5 }

unfoldable pub increment_polling_interval : Env → String → Exec GoError (Unit {0})
increment_polling_interval env code =
    exec env increment_interval (update_codes (has_code code) slower)

abbrev pub polled_at : ℕ → DeviceCode → DeviceCode
polled_at t d = record d { last_polled_at = some t }

unfoldable pub update_last_polled_at : Env → String → ℕ → Exec GoError (Unit {0})
update_last_polled_at env code t =
    exec env set_last_polled (update_codes (has_code code) (polled_at t))
