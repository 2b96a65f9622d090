-- ===== src/TrustedDevice.antt =====
-- pkg/trusteddevice: browsers that need no second factor
-- (create.go, read.go, update.go, delete.go, service.go).
pub mod Trust
use autentico.Prelude.{
  ℕ, String, Bool, true, false, not, Option, none, some, List, ◌∷◌, ◌==◌, ◌&&◌, filter, is_empty,
  ltb, if◌then◌else◌,
}
use autentico.Schema.{TrustedDevice, Db}
use autentico.Env.{
  Env, query, exec, exec_if, select_trusted, insert_trusted, set_last_used, delete_trusted,
}
use autentico.Exec.{Exec, GoError, message, no_rows, pure, raise, attempt, optional, ◌>>=◌, ◌>>◌}
use autentico.Sql.{find_row, update_rows, any_row}
use autentico.AuthCode.{has_user}

abbrev pub has_id : String → TrustedDevice → Bool
has_id id d = d.id == id

-- Columns that the insert leaves out take the time as their default.
unfoldable pub create_trusted_device : Env → TrustedDevice → Exec GoError (Unit {0})
create_trusted_device env device =
    let row = record device { created_at = env.now; last_used_at = env.now } in
    exec_if env insert_trusted
      (λ db. has_user db device.user_id && not (any_row (has_id device.id) db.trusted_devices))
      (λ db. record db { trusted_devices = row ∷ db.trusted_devices })

unfoldable pub trusted_devices_by_user_id : Env → String → Exec GoError (List TrustedDevice)
trusted_devices_by_user_id env user_id =
    query env select_trusted (λ db. some (filter (λ d. d.user_id == user_id) db.trusted_devices))

unfoldable pub trusted_device_by_id_including_expired : Env → String → Exec GoError TrustedDevice
trusted_device_by_id_including_expired env id =
    query env select_trusted (λ db. find_row (has_id id) db.trusted_devices)

abbrev pub used_at : ℕ → TrustedDevice → TrustedDevice
used_at now d = record d { last_used_at = now }

unfoldable pub update_last_used : Env → String → Exec GoError (Unit {0})
update_last_used env id = exec env set_last_used (λ db. record db {
  trusted_devices = update_rows (has_id id) (used_at env.now) db.trusted_devices;
})

unfoldable pub delete_trusted_device : Env → String → Exec GoError (Unit {0})
delete_trusted_device env id db =
    let found = any_row (has_id id) db.trusted_devices in
    (do
      exec env delete_trusted
          (λ d. record d { trusted_devices = filter (λ t. not (t.id == id)) d.trusted_devices })
      if found then pure tt else raise (message "trusted device not found"))
      db

-- The tests on the device that the cookie names.
abbrev pub is_trusted_for : Env → String → Option TrustedDevice → Bool
is_trusted_for env user_id none = false
is_trusted_for env user_id (some d) = d.user_id == user_id && not (ltb d.expires_at env.now)

-- `cookie` is the value of the cookie, "" without one.
unfoldable pub is_device_trusted : {E : Type 0} → Env → String → String → Exec E Bool
unfolding trusted_device_by_id_including_expired update_last_used
is_device_trusted env user_id cookie = if is_empty cookie then pure false else (do
  d ← optional (trusted_device_by_id_including_expired env cookie)
  if is_trusted_for env user_id d
      then (do attempt (update_last_used env cookie); pure true)
      else pure false)
