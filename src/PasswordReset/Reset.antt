-- ===== src/PasswordReset/Reset.antt =====
-- A password that is set through a link.
use mathlib.Core.Path.{subst}
use Prim.Native.String.{len}
use autentico.Prelude.{
  ◌≡◌, refl, ap, sym, ◌∙◌, String, true, false, not, none, some, ◌==◌, arith, eq_iff, is_empty, ltb,
  Option-cases, Bool-cases, inl, inr,
}
use autentico.Schema.{PasswordResetToken, User, Db}
use autentico.Env.{
  Env, Healthy, query, exec, exec_if, select_user, mark_reset, end_user_sessions,
  deactivate_idp_user,
}
use autentico.Exec.{ok, pure, require, on_error}
use autentico.Exec.Inversion.{bind-ok, require-ok, on_error-ok, query-ok}
use autentico.Sql.{find_row}
use autentico.Sql.Laws.{find_row_sound}
use autentico.Web.{Request}
use autentico.IdpSession.{deactivate_all_for_user}
use autentico.User.{user_by_id, update_user, is_active}
use autentico.User.Update.{UserUpdateRequest, update_user_by_id, new_password, set_columns}
use autentico.PasswordReset.Effect.{signed_out, IsEffect, signed_out-IsEffect}
use autentico.PasswordReset.{
  OauthParams, ResetPage, handle_reset_password, show_reset, set_password, check_passwords,
  find_token, sign_out, get_reset_token_info, mark_token_used, deactivate_user_sessions,
  params_from_request, only_password, has_hash,
}

-- The row of the user after an update of its columns.
record Updated (env : Env) (id : String) (r : UserUpdateRequest) (db db' : Db) : Type 0 where
  user : User
  hashed : String
  active : find_row (is_active id) db.users ≡ some user
  drawn : new_password env user r.password db ≡ (ok hashed, db)
  written : db' ≡ update_user id (set_columns user r hashed) db

update_user_by_id-Updated :
    (env : Env) (id : String) (r : UserUpdateRequest) (db db' : Db)
    → update_user_by_id env id r db ≡ (ok tt, db')
    → Updated env id r db db'
unfolding update_user_by_id user_by_id new_password exec_if
update_user_by_id-Updated env id r db db' h =
    let (u, db1, h1, rest1) = bind-ok (user_by_id env id) _ db tt db' h in
    let (active, same1) =
      query-ok env select_user (λ d. find_row (is_active id) d.users) db u db1 h1 in
    let (hashed, db2, h2, rest2) = bind-ok (new_password env u r.password) _ db1 tt db' rest1 in
    let same2 : db2 ≡ db1 = ground arith in
    let same : db2 ≡ db = same2 ∙ same1 in
    let last : db' ≡ update_user id (set_columns u r hashed) db2 = ground arith in
    record {
      user = u;
      hashed = hashed;
      active = active;
      drawn =
          subst (λ d. new_password env u r.password d ≡ (ok hashed, d)) same1
            (h2 ∙ ap (λ d. (ok hashed, d)) same2);
      written = last ∙ ap (update_user id (set_columns u r hashed)) same;
    }

pub sign_out-run :
    {E : Type 0} (env : Env) (token_hash user_id : String) (db : Db)
    → Healthy env
    → sign_out {E = E} env token_hash user_id db ≡ (ok tt, signed_out env token_hash user_id db)
unfolding sign_out mark_token_used deactivate_user_sessions deactivate_all_for_user exec
sign_out-run env token_hash user_id db healthy =
    rw (healthy mark_reset, healthy end_user_sessions, healthy deactivate_idp_user) refl

record Found (env : Env) (token_hash : String) (t : PasswordResetToken) (db db' : Db) : Type 0 where
  listed : find_row (has_hash token_hash) db.password_reset_tokens ≡ some t
  unused : t.used_at ≡ none
  in_time : ltb t.expires_at env.now ≡ false
  same : db' ≡ db

find_token-Found :
    (env : Env) (p : OauthParams) (token_hash : String) (t : PasswordResetToken) (db db' : Db)
    → find_token env p token_hash db ≡ (ok t, db')
    → Found env token_hash t db db'
unfolding find_token get_reset_token_info query
find_token-Found env p token_hash t db db' h =
    elim (Option-cases (find_row (has_hash token_hash) db.password_reset_tokens)) [
      | inl missing ↦ absurd (ground arith)
      | inr (x, found) ↦
          let same : x ≡ t = ground arith in
          record {
            listed = found ∙ ap some same;
            unused = ground arith;
            in_time = ground arith;
            same = ground arith;
          }
    ]

record Checked (env : Env) (password confirm : String) (db db' : Db) : Type 0 where
  matches : password ≡ confirm
  long_enough : ltb (len password) env.config.validation_min_password_length ≡ false
  short_enough : ltb env.config.validation_max_password_length (len password) ≡ false
  same : db' ≡ db

check_passwords-Checked :
    (env : Env) (p : OauthParams) (raw password confirm : String) (db db' : Db)
    → check_passwords env p raw password confirm db ≡ (ok tt, db')
    → Checked env password confirm db db'
unfolding check_passwords
check_passwords-Checked env p raw password confirm db db' h = record {
  matches = (eq_iff password confirm).0 (ground arith);
  long_enough = ground arith;
  short_enough = ground arith;
  same = ground arith;
}

pub record IsReset (env : Env) (req : Request) (p : OauthParams) (db db' : Db) : Type 0 where
  pub token : PasswordResetToken
  pub user : User
  pub hashed : String
  pub page : p ≡ params_from_request req.form
  pub matches : req.form "password" ≡ req.form "confirm_password"
  pub long_enough :
      ltb (len (req.form "password")) env.config.validation_min_password_length ≡ false
  pub short_enough :
      ltb env.config.validation_max_password_length (len (req.form "password")) ≡ false
  pub listed :
      find_row (has_hash (env.hash_sha256 (req.form "token"))) db.password_reset_tokens ≡ some token
  pub unused : token.used_at ≡ none
  pub in_time : ltb token.expires_at env.now ≡ false
  pub active : find_row (is_active token.user_id) db.users ≡ some user
  pub written :
      db'
      ≡ signed_out env (env.hash_sha256 (req.form "token")) token.user_id (
          update_user token.user_id
            (set_columns user (only_password (req.form "password")) hashed)
            db)
  pub owner : user.id ≡ token.user_id
  pub effect : IsEffect env (env.hash_sha256 (req.form "token")) (req.form "password") user db db'

reset-written :
    (env : Env) (token_hash id : String) (set : User → User) (db db4 db5 db6 db' : Db)
    → Healthy env
    → db4 ≡ db
    → db5 ≡ update_user id set db4
    → sign_out {E = ResetPage} env token_hash id db5 ≡ (ok tt, db6)
    → db' ≡ db6
    → db' ≡ signed_out env token_hash id (update_user id set db)
reset-written env token_hash id set db db4 db5 db6 db' healthy before update out last =
    last
    ∙ ap (λ r. r.1) (sym out ∙ sign_out-run env token_hash id db5 healthy)
    ∙ ap (signed_out env token_hash id) (update ∙ ap (update_user id set) before)

active_owner : (id : String) (u : User) → is_active id u ≡ true → u.id ≡ id
active_owner id u h = (eq_iff u.id id).0 (ground arith)

set_password-IsReset :
    (env : Env) (req : Request) (p : OauthParams) (db db' : Db)
    → Healthy env
    → set_password env req db ≡ (ok p, db')
    → IsReset env req p db db'
unfolding set_password
set_password-IsReset env req p db db' healthy h =
    let q = params_from_request req.form in
    let raw = req.form "token" in
    let password = req.form "password" in
    let token_hash = env.hash_sha256 raw in
    let (_, db1, h1, rest1) = bind-ok (require req.parses _) _ db p db' h in
    let (_, same1) = require-ok req.parses _ db db1 h1 in
    let (_, db2, h2, rest2) = bind-ok (require (not (is_empty raw)) _) _ db1 p db' rest1 in
    let (_, same2) = require-ok (not (is_empty raw)) _ db1 db2 h2 in
    let (_, db3, h3, rest3) =
      bind-ok (check_passwords env q raw password (req.form "confirm_password")) _ db2 p db'
        rest2 in
    let c = check_passwords-Checked env q raw password (req.form "confirm_password") db2 db3 h3 in
    let (t, db4, h4, rest4) = bind-ok (find_token env q token_hash) _ db3 p db' rest3 in
    let f = find_token-Found env q token_hash t db3 db4 h4 in
    let update = update_user_by_id env t.user_id (only_password password) in
    let (_, db5, h5, rest5) = bind-ok (on_error _ update) _ db4 p db' rest4 in
    let u =
      update_user_by_id-Updated env t.user_id (only_password password) db4 db5
        (on_error-ok _ update db4 tt db5 h5) in
    let (_, db6, h6, rest6) =
      bind-ok (sign_out {E = ResetPage} env token_hash t.user_id) (λ _. pure q) db5 p db' rest5 in
    let before : db4 ≡ db = f.same ∙ c.same ∙ same2 ∙ same1 in
    let last : db' ≡ db6 = ground arith in
    let set = set_columns u.user (only_password password) u.hashed in
    let written =
      reset-written env token_hash t.user_id set db db4 db5 db6 db' healthy before u.written h6
        last in
    let active : find_row (is_active t.user_id) db.users ≡ some u.user =
      ap (λ d. find_row (is_active t.user_id) d.users) (sym before) ∙ u.active in
    let drawn = subst (λ d. new_password env u.user password d ≡ (ok u.hashed, d)) before u.drawn in
    let owner : u.user.id ≡ t.user_id =
      active_owner t.user_id u.user (find_row_sound (is_active t.user_id) db.users active) in
    record {
      token = t;
      user = u.user;
      hashed = u.hashed;
      page = ground arith;
      matches = c.matches;
      long_enough = c.long_enough;
      short_enough = c.short_enough;
      listed =
          ap (λ d. find_row (has_hash token_hash) d.password_reset_tokens)
            (sym (c.same ∙ same2 ∙ same1))
          ∙ f.listed;
      unused = f.unused;
      in_time = f.in_time;
      active = active;
      written = written;
      owner = owner;
      effect =
          signed_out-IsEffect env token_hash password u.hashed u.user db db'
            (ap (λ i. find_row (is_active i) db.users) owner ∙ active) drawn
            (written ∙ ap (λ i. signed_out env token_hash i (update_user i set db)) (sym owner));
    }

-- Whenever the handler of /reset-password answers with the page "success", and the database has
-- accepted every statement, then the two passwords are equal and have a length within the
-- configured bounds; the token's hash is that of an unused row that has not expired, whose user is
-- not deactivated; and the database is the one before with these changes and no others: the user's
-- password is the hash of the new one (an empty one, which only a minimal length of 0 lets
-- through, keeps the old hash), every row with the token's hash has the present time as its use,
-- and all sessions and all single sign-on sessions of the user that were live end now.
pub handle_reset_password-IsReset :
    (env : Env) (req : Request) (p : OauthParams) (db db' : Db)
    → Healthy env
    → handle_reset_password env req db ≡ (ok p, db')
    → IsReset env req p db db'
unfolding handle_reset_password show_reset get_reset_token_info
handle_reset_password-IsReset env req p db db' healthy h = elim (Bool-cases (req.method == "GET")) [
  | inr posted ↦
      let run : set_password env req db ≡ (ok p, db') = ground arith in
      set_password-IsReset env req p db db' healthy run
  | inl get ↦ absurd (ground arith)
]
