-- ===== src/PasswordReset/Link.antt =====
-- A link that has been sent and is followed.
use mathlib.Core.Option.{some_inj}
use Prim.Native.String.{len}
use autentico.Prelude.{
  ◌≡◌, refl, ap, sym, ◌∙◌, ◌+◌, String, true, false, some, none, ◌==◌, is_empty, or_empty, ltb,
  arith, eq_iff,
}
use autentico.Schema.{PasswordResetToken, User, Db}
use autentico.Env.{Env, Healthy, query, exec_if, select_user, select_reset, update_columns}
use autentico.Exec.{ok, pure, on_error}
use autentico.Exec.Forward.{bind_of_ok, on_error_of_ok}
use autentico.Sql.{find_row, any_row}
use autentico.Sql.Laws.{first_row, find_row-update, find_row_sound}
use autentico.Web.{Request}
use autentico.User.{user_by_id, update_user, is_active, has_id}
use autentico.User.Update.{update_user_by_id, new_password, set_columns, clashes_with}
use autentico.PasswordReset.{
  OauthParams, ResetPage, Mail, handle_forgot_password, handle_reset_password, set_password,
  check_passwords, find_token, get_reset_token_info, sign_out, has_hash, params_from_request,
  only_password,
}
use autentico.PasswordReset.Effect.{signed_out}
use autentico.PasswordReset.Sent.{query_value}
use autentico.PasswordReset.Reset.{sign_out-run}
use autentico.PasswordReset.Forgot.{account, handle_forgot_password-IsMailed}

-- The passwords that the page accepts.
pub record IsChoice (env : Env) (req : Request) (hashed : String) : Type 0 where
  pub posted : (req.method == "GET") ≡ false
  pub parses : req.parses ≡ true
  pub present : is_empty (req.form "token") ≡ false
  pub matches : (req.form "password" == req.form "confirm_password") ≡ true
  pub filled : is_empty (req.form "password") ≡ false
  pub long_enough :
      ltb (len (req.form "password")) env.config.validation_min_password_length ≡ false
  pub short_enough :
      ltb env.config.validation_max_password_length (len (req.form "password")) ≡ false
  pub drawn : env.hash_password (req.form "password") ≡ some hashed

check_passwords-run :
    (env : Env) (p : OauthParams) (req : Request) (hashed : String) (db : Db)
    → IsChoice env req hashed
    → check_passwords env p
        (req.form "token")
        (req.form "password")
        (req.form "confirm_password")
        db
      ≡ (ok tt, db)
unfolding check_passwords
check_passwords-run env p req hashed db c = rw (c.matches, c.long_enough, c.short_enough) refl

find_token-run :
    (env : Env) (p : OauthParams) (token_hash : String) (t : PasswordResetToken) (db : Db)
    → Healthy env
    → find_row (has_hash token_hash) db.password_reset_tokens ≡ some t
    → t.used_at ≡ none
    → ltb t.expires_at env.now ≡ false
    → find_token env p token_hash db ≡ (ok t, db)
unfolding find_token get_reset_token_info query
find_token-run env p token_hash t db healthy found unused in_time =
    rw (healthy select_reset, found) (rw (unused, in_time) refl)

update_user_by_id-run :
    (env : Env) (u : User) (password hashed : String) (db : Db)
    → Healthy env
    → find_row (is_active u.id) db.users ≡ some u
    → is_empty password ≡ false
    → env.hash_password password ≡ some hashed
    → any_row (clashes_with u.id u.username (or_empty u.email)) db.users ≡ false
    → update_user_by_id env u.id (only_password password) db
      ≡ (ok tt, update_user u.id (set_columns u (only_password password) hashed) db)
unfolding update_user_by_id user_by_id new_password exec_if query
update_user_by_id-run env u password hashed db healthy found filled drawn alone =
    rw (healthy select_user, found) (rw (filled, drawn) (rw (healthy update_columns, alone) refl))

set_password-run :
    (env : Env) (req : Request) (hashed : String) (t : PasswordResetToken) (u : User) (db : Db)
    → Healthy env
    → IsChoice env req hashed
    → find_row (has_hash (env.hash_sha256 (req.form "token"))) db.password_reset_tokens ≡ some t
    → t.used_at ≡ none
    → ltb t.expires_at env.now ≡ false
    → t.user_id ≡ u.id
    → find_row (is_active u.id) db.users ≡ some u
    → any_row (clashes_with u.id u.username (or_empty u.email)) db.users ≡ false
    → set_password env req db ≡ (
      ok (params_from_request req.form),
      signed_out env
          (env.hash_sha256 (req.form "token"))
          u.id
          (update_user u.id (set_columns u (only_password (req.form "password")) hashed) db),
    )
unfolding set_password
set_password-run env req hashed t u db healthy c found unused in_time owner active alone =
    let p = params_from_request req.form in
    let raw = req.form "token" in
    let password = req.form "password" in
    let token_hash = env.hash_sha256 raw in
    let updated = update_user u.id (set_columns u (only_password password) hashed) db in
    rw (c.parses, c.present)
      (bind_of_ok (check_passwords env p raw password (req.form "confirm_password")) _ db tt db
          (check_passwords-run env p req hashed db c)
        ∙ bind_of_ok (find_token env p token_hash) _ db t db
            (find_token-run env p token_hash t db healthy found unused in_time)
        ∙ bind_of_ok (on_error _ (update_user_by_id env t.user_id (only_password password))) _ db tt
            updated
            (on_error_of_ok _ (update_user_by_id env t.user_id (only_password password)) db tt
              updated
              (ap (λ i. update_user_by_id env i (only_password password) db) owner
                ∙ update_user_by_id-run env u password hashed db healthy active c.filled c.drawn
                    alone))
        ∙ bind_of_ok (sign_out {E = ResetPage} env token_hash t.user_id) (λ _. pure p) updated tt
            (signed_out env token_hash u.id updated)
            (ap (λ i. sign_out {E = ResetPage} env token_hash i updated) owner
              ∙ sign_out-run env token_hash u.id updated healthy))

-- Whenever a request for a link has sent one, and the database accepts every statement, then a
-- request to /reset-password that carries the token of that link before it expires, with two equal
-- passwords that are not empty and whose length is within the bounds, sets the password: if the
-- user has not been deactivated, the hash can be made and no other user has the name or the
-- address, the answer is the page "success", and the user's password is the hash of the new one.
pub mailed-reset :
    (env later : Env) (ask req : Request) (q : OauthParams) (m : Mail) (u : User) (hashed : String)
    (db db1 : Db)
    → Healthy env
    → Healthy later
    → handle_forgot_password env ask db ≡ (ok (q, some m), db1)
    → query_value "token" m.link.1 ≡ req.form "token"
    → later.hash_sha256 (req.form "token") ≡ env.hash_sha256 (req.form "token")
    → ltb (env.now + env.config.password_reset_expiration) later.now ≡ false
    → IsChoice later req hashed
    → account env (ask.form "identifier") db ≡ some u
    → find_row (is_active u.id) db.users ≡ some u
    → any_row (clashes_with u.id u.username (or_empty u.email)) db.users ≡ false
    → (db2 : Db) × (handle_reset_password later req db1 ≡ (ok (params_from_request req.form), db2))
      × ((v : User) × (find_row (is_active u.id) db2.users ≡ some v) × (v.password ≡ some hashed))
unfolding handle_reset_password
mailed-reset env later ask req q m u hashed db db1 up up_later sent token same in_time c named
      active alone =
    let i = handle_forgot_password-IsMailed env ask q m db db1 up sent in
    let raw = req.form "token" in
    let token_hash = later.hash_sha256 raw in
    let who : i.user ≡ u = some_inj.0 (sym i.found ∙ named) in
    let code : i.raw ≡ raw = sym i.link.token ∙ token in
    let hash : i.row.token_hash ≡ token_hash = i.new.hash ∙ ap env.hash_sha256 code ∙ sym same in
    let listed : find_row (has_hash token_hash) db1.password_reset_tokens ≡ some i.row =
      ap (λ d. find_row (has_hash token_hash) d.password_reset_tokens) i.written
      ∙ first_row (has_hash token_hash) i.row i.rest
          ((eq_iff i.row.token_hash token_hash).1 hash) in
    let users : db1.users ≡ db.users = ap (λ d. d.users) i.written in
    let known = ap (find_row (is_active u.id)) users ∙ active in
    let in_use : ltb i.row.expires_at later.now ≡ false =
      ap (λ t. ltb t later.now) i.new.expires_at ∙ in_time in
    let run =
      set_password-run later req hashed i.row u db1 up_later c listed i.new.unused in_use
        (i.new.owner ∙ ap (λ (x : User). x.id) who) known
        (ap (any_row (clashes_with u.id u.username (or_empty u.email))) users ∙ alone) in
    let set = set_columns u (only_password (req.form "password")) hashed in
    let here = find_row_sound (is_active u.id) db1.users known in
    (
      signed_out later token_hash u.id (update_user u.id set db1),
      rw c.posted run,
      (
        set u,
        find_row-update (is_active u.id) (has_id u.id) set db1.users (λ y. refl) known
            ∙ ground (arith, here),
        refl,
      ),
    )
