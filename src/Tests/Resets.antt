-- ===== src/Tests/Resets.antt =====
-- Password resets at the concrete server.
use autentico.Prelude.{◌≡◌, ◌≢◌, ◌+◌, ◌*◌, refl, none, some, ◌==◌, [], ◌∷◌, Option, if◌then◌else◌}
use autentico.User.{is_active}
use autentico.Schema.{User, Db, PasswordResetToken, Session, second}
use autentico.Exec.{ok}
use autentico.Env.{Env}
use autentico.Web.{Request}
use autentico.Sql.{find_row}
use autentico.Token.RefreshGrant.{user_by_refresh_token}
use autentico.PasswordReset.{
  OauthParams, Mail, params_from_request, handle_reset_password, handle_forgot_password,
  build_reset_url,
}
use autentico.PasswordReset.Reset.{IsReset, handle_reset_password-IsReset}
use autentico.PasswordReset.Once.{reset-reset}
use autentico.PasswordReset.Ended.{reset-refresh}
use autentico.PasswordReset.Forgot.{
  IsMailed, handle_forgot_password-IsMailed, handle_forgot_password-sent,
}
use autentico.PasswordReset.Link.{IsChoice, mailed-reset}
use autentico.Tests.World.{env, env_at, env_at-Healthy, start, old_claims}
use autentico.Tests.Rows.{db, user, session, web, refresh_request}

abbrev link : PasswordResetToken
link = record {
  id = "r1";
  user_id = "u1";
  token_hash = "tok";
  expires_at = start + 3600 * second;
  used_at = none;
  created_at = start;
}

abbrev linked : Db
linked = record db { password_reset_tokens = link ∷ [] }

abbrev choosing : Request
choosing = web (λ name.
    if name == "token"
    then "tok"
    else if name == "password"
    then "new"
    else if name == "confirm_password"
    then "new"
    else "")

abbrev params : OauthParams
params = params_from_request choosing.form

reset :
    handle_reset_password env choosing linked
    ≡ (ok params, (handle_reset_password env choosing linked).1)
unfolding handle_reset_password autentico.Env.query find_row autentico.User.Update.update_user_by_id
    autentico.User.user_by_id autentico.Env.exec_if autentico.Sql.any_row
reset = refl

handle_reset_password-IsReset_example :
    IsReset env choosing params linked (handle_reset_password env choosing linked).1
handle_reset_password-IsReset_example =
    handle_reset_password-IsReset env choosing params linked
      (handle_reset_password env choosing linked).1 (env_at-Healthy start) reset

abbrev later : Env
later = env_at (start + 60 * second)

reset-reset_example :
    handle_reset_password later choosing (handle_reset_password env choosing linked).1
    ≢ (ok params, linked)
reset-reset_example =
    reset-reset env later choosing choosing params params linked
      (handle_reset_password env choosing linked).1 linked (env_at-Healthy start)
      (env_at-Healthy (start + 60 * second)) reset refl

abbrev ended : Session
ended = record session { deactivated_at = some start }

reset-refresh_example :
    user_by_refresh_token later refresh_request (handle_reset_password env choosing linked).1
    ≢ (ok (some user), linked)
unfolding find_row handle_reset_password autentico.Env.query autentico.User.Update.update_user_by_id
    autentico.User.user_by_id autentico.Env.exec_if autentico.Sql.any_row
    autentico.IdpSession.deactivate_all_for_user autentico.Env.exec autentico.Sql.update_rows
reset-refresh_example =
    reset-refresh env later choosing params link refresh_request old_claims ended user linked
      (handle_reset_password env choosing linked).1 linked (env_at-Healthy start) refl reset refl
      refl refl refl

abbrev asking : Request
asking = web (λ name. if name == "identifier" then "ann" else "")

abbrev mail : Mail
mail = record { to = "ann@id"; link = build_reset_url env "idp1" (params_from_request asking.form) }

mailed :
    handle_forgot_password env asking db
    ≡ (ok (params_from_request asking.form, some mail), (handle_forgot_password env asking db).1)
unfolding handle_forgot_password autentico.Env.query find_row autentico.Env.exec_if
    autentico.Sql.any_row autentico.Env.exec autentico.Sql.update_rows
mailed = refl

handle_forgot_password-IsMailed_example :
    IsMailed env asking mail db (handle_forgot_password env asking db).1
handle_forgot_password-IsMailed_example =
    handle_forgot_password-IsMailed env asking (params_from_request asking.form) mail db
      (handle_forgot_password env asking db).1 (env_at-Healthy start) mailed

abbrev unknown : Request
unknown = web (λ name. if name == "identifier" then "bob" else "")

handle_forgot_password-sent_example :
    (m : Option Mail) × ((handle_forgot_password env unknown db).0
      ≡ ok (params_from_request unknown.form, m))
handle_forgot_password-sent_example = handle_forgot_password-sent env unknown db refl refl refl

-- The link of the message, followed a minute later.
abbrev following : Request
following = web (λ name.
    if name == "token"
    then "idp1"
    else if name == "password"
    then "new"
    else if name == "confirm_password"
    then "new"
    else "")

choice : IsChoice later following "new"
choice = record {
  posted = refl;
  parses = refl;
  present = refl;
  matches = refl;
  filled = refl;
  long_enough = refl;
  short_enough = refl;
  drawn = refl;
}

mailed-reset_example :
    (db2 : Db) × (handle_reset_password later following (handle_forgot_password env asking db).1
      ≡ (ok (params_from_request following.form), db2))
    × ((v : User) × (find_row (is_active "u1") db2.users ≡ some v) × (v.password ≡ some "new"))
unfolding find_row autentico.Sql.any_row
mailed-reset_example =
    mailed-reset env later asking following (params_from_request asking.form) mail user "new" db
      (handle_forgot_password env asking db).1 (env_at-Healthy start)
      (env_at-Healthy (start + 60 * second)) mailed refl refl refl choice refl refl refl
