-- ===== src/Tests/Sessions.antt =====
-- Signing out, bearer tokens, the sweep and the lockout at the concrete server.
use autentico.Prelude.{◌≡◌, ◌+◌, ◌*◌, refl, ◌∷◌, [], arith}
use autentico.Schema.{second}
use autentico.Exec.{ok, err, account_locked}
use autentico.Env.{Env, Stmt, cascade_tokens}
use autentico.IdpSession.{deactivate_with_cascade}
use autentico.IdpSession.Cascade.{cascaded, IsCascaded, cascade-IsCascaded}
use autentico.Bearer.{Validated, validate_bearer_token}
use autentico.Bearer.Checks.{Refused, cascade-bearer}
use autentico.User.{authenticate_user}
use autentico.User.Lockout.{sign_ins, lockout-after_max_attempts}
use autentico.Tests.World.{env, minute_later, env_at-Healthy, start, access}
use autentico.Tests.Rows.{db, user, session}

ended : deactivate_with_cascade env "idp0" db ≡ (ok tt, cascaded env "idp0" db)
unfolding deactivate_with_cascade autentico.Env.exec
ended = refl

cascade-IsCascaded_example : IsCascaded "idp0" db (cascaded env "idp0" db)
cascade-IsCascaded_example = cascade-IsCascaded env "idp0" db (cascaded env "idp0" db) ended

abbrev validated : Validated
validated = record { token = "at0"; claims = access; session = session }

accepted : validate_bearer_token env "at0" db ≡ (ok validated, db)
unfolding validate_bearer_token autentico.Session.session_by_access_token autentico.Env.query
    autentico.Sql.find_row autentico.Token.token_by_access_token
accepted = refl

cascade-bearer_example : Refused "at0" minute_later (cascaded env "idp0" db)
cascade-bearer_example =
    cascade-bearer env minute_later "idp0" "at0" db (cascaded env "idp0" db) ended refl

lockout-after_max_attempts_example :
    authenticate_user minute_later "ann" "pw" (sign_ins env "ann" ("x" ∷ "y" ∷ []) db)
    ≡ (err account_locked, sign_ins env "ann" ("x" ∷ "y" ∷ []) db)
unfolding autentico.Sql.find_row
lockout-after_max_attempts_example =
    lockout-after_max_attempts env minute_later "ann" "pw" "pw" ("x" ∷ "y" ∷ []) user db
      (env_at-Healthy start) (env_at-Healthy (start + 60 * second)) refl refl refl refl refl
      (refl, (refl, tt)) refl (omega arith) (omega arith) (omega arith)
