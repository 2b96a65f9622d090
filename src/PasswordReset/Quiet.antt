-- ===== src/PasswordReset/Quiet.antt =====
-- A link is sent or not without an answer that tells which.
use autentico.Prelude.{◌≡◌, refl, ◌∙◌, Option, none, some, ◌+◌, Option-cases, Bool-cases, inl, inr}
use autentico.Schema.{User, Db}
use autentico.Env.{Env}
use autentico.Exec.{ok, err, Result, pure, settle, as_option, optional, attempt}
use autentico.Exec.Forward.{bind_of_ok}
use autentico.PasswordReset.{
  OauthParams, ResetPage, link_for, send_link, send_new, mail_if, is_reachable, create_reset_token,
  invalidate_previous_tokens,
}

-- What is read or tried never fails.
abbrev pub Succeeds : {A : Type 0} → Result ResetPage A × Db → Type 0
Succeeds {A = A} r = (a : A) × (s : Db) × (r ≡ (ok a, s))

pub as_option-Succeeds : {E A : Type 0} (r : Result E A × Db) → Succeeds (as_option r)
as_option-Succeeds (ok a, s) = (some a, s, refl)
as_option-Succeeds (err e, s) = (none, s, refl)

settle-Succeeds : {E A : Type 0} (r : Result E A × Db) → Succeeds (settle r)
settle-Succeeds (ok a, s) = (tt, s, refl)
settle-Succeeds (err e, s) = (tt, s, refl)

send_new-Succeeds :
    (env : Env) (p : OauthParams) (usr : User) (db : Db) → Succeeds (send_new env p usr db)
unfolding send_new
send_new-Succeeds env p usr db = elim (Option-cases (env.secure_code 0)) [
  | inl broken ↦ (none, db, rw (send_new, broken) refl)
  | inr (raw, drawn) ↦
      let create =
        create_reset_token env usr.id (env.hash_sha256 raw)
          (env.now + env.config.password_reset_expiration) in
      let (made, db1, h1) = as_option-Succeeds (create db) in
      (
        mail_if env p usr raw made,
        db1,
        rw (send_new, drawn)
            (bind_of_ok (optional create) (λ m. pure (mail_if env p usr raw m)) db made db1 h1),
      )
]

pub link_for-Succeeds :
    (env : Env) (p : OauthParams) (usr : Option User) (db : Db) → Succeeds (link_for env p usr db)
unfolding send_link
link_for-Succeeds env p none db = (none, db, refl)
link_for-Succeeds env p (some u) db = elim (Bool-cases (is_reachable (some u))) [
  | inr unreachable ↦ (none, db, rw unreachable refl)
  | inl reachable ↦
      let invalidate = invalidate_previous_tokens env u.id in
      let (_, db1, h1) = settle-Succeeds (invalidate db) in
      let (mail, db2, h2) = send_new-Succeeds env p u db1 in
      (
        mail,
        db2,
        rw reachable (bind_of_ok (attempt invalidate) (λ _. send_new env p u) db tt db1 h1 ∙ h2),
      )
]
