-- ===== src/TrustedDevice/Trust.antt =====
-- Which browsers a trusted device excuses from the second factor.
use autentico.Prelude.{
  String, ◌≡◌, refl, ap, ◌∙◌, true, false, not, some, ◌∷◌, ◌==◌, ◌&&◌, arith, ltb, is_empty,
  Bool-cases, inl, inr, eq_refl, if◌then◌else◌,
}
use autentico.Schema.{TrustedDevice, Db}
use autentico.Env.{Env, exec, exec_if, select_trusted, insert_trusted}
use autentico.Exec.{ok, optional, as_option, attempt, pure, ◌>>◌}
use autentico.Exec.Forward.{bind_of_ok, query_of_some}
use autentico.Sql.{find_row, any_row}
use autentico.Sql.Laws.{first_row}
use autentico.Browser.{Answer}
use autentico.AuthCode.{has_user}
use autentico.TrustedDevice.{
  create_trusted_device, is_device_trusted, trusted_device_by_id_including_expired, has_id,
  is_trusted_for, update_last_used,
}

-- The stored row of a device.
abbrev pub row_of : Env → TrustedDevice → TrustedDevice
row_of env d = record d { created_at = env.now; last_used_at = env.now }

create-listed :
    (env : Env) (d : TrustedDevice) (db db' : Db)
    → create_trusted_device env d db ≡ (ok tt, db')
    → find_row (has_id d.id) db'.trusted_devices ≡ some (row_of env d)
unfolding create_trusted_device exec_if
create-listed env d db db' h = elim (Bool-cases (env.fails insert_trusted)) [
  | inl refused ↦ absurd (ground arith)
  | inr up ↦
      elim (Bool-cases (has_user db d.user_id && not (any_row (has_id d.id) db.trusted_devices))) [
        | inr clash ↦ absurd (ground arith)
        | inl fits ↦
            let written : db' ≡ record db { trusted_devices = row_of env d ∷ db.trusted_devices } =
              ground arith in
            ap (λ k. find_row (has_id d.id) k.trusted_devices) written
            ∙ first_row (has_id d.id) (row_of env d) db.trusted_devices (eq_refl d.id)
      ]
]

-- The update of the last use changes no answer.
settled :
    (env : Env) (user_id : String) (d : TrustedDevice) (db : Db)
    → ((if is_trusted_for env user_id (some d)
          then (do attempt {F = Answer} (update_last_used env d.id); pure true)
          else pure false)
        db).0
      ≡ ok (is_trusted_for env user_id (some d))
unfolding update_last_used exec
settled env user_id d db = elim (Bool-cases (is_trusted_for env user_id (some d))) [
  | inl trusted ↦ rw trusted refl
  | inr foreign ↦ rw foreign refl
]

-- The answer of the test, once the device has been found.
trusted_answer :
    (env : Env) (user_id : String) (d : TrustedDevice) (db : Db)
    → env.fails select_trusted ≡ false
    → is_empty d.id ≡ false
    → find_row (has_id d.id) db.trusted_devices ≡ some d
    → (is_device_trusted {E = Answer} env user_id d.id db).0
      ≡ ok (is_trusted_for env user_id (some d))
unfolding is_device_trusted trusted_device_by_id_including_expired
trusted_answer env user_id d db up cookie listed =
    let read = ap as_option (
      query_of_some env select_trusted (λ k. find_row (has_id d.id) k.trusted_devices) db d up
        listed) in
    let found =
      bind_of_ok (optional {F = Answer} (trusted_device_by_id_including_expired env d.id))
        (λ o.
          if is_trusted_for env user_id o
          then (do attempt (update_last_used env d.id); pure true)
          else pure false)
        db (some d) db read in
    rw (cookie, is_device_trusted) (ap (λ r. r.0) found ∙ settled env user_id d db)

-- A browser that has just been trusted is trusted for its user, until the device expires, and for
-- no other user: for a device with an identifier, and a database that refuses no query of devices.
pub create-trusted :
    (env later : Env) (d : TrustedDevice) (user_id : String) (db db' : Db)
    → create_trusted_device env d db ≡ (ok tt, db')
    → later.fails select_trusted ≡ false
    → is_empty d.id ≡ false
    → (is_device_trusted {E = Answer} later user_id d.id db').0
      ≡ ok (d.user_id == user_id && not (ltb d.expires_at later.now))
create-trusted env later d user_id db db' h up cookie =
    trusted_answer later user_id (row_of env d) db' up cookie (create-listed env d db db' h)
