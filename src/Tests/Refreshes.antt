-- ===== src/Tests/Refreshes.antt =====
-- The refresh grant at the concrete server.
use autentico.Prelude.{◌≡◌, ◌+◌, ◌*◌, refl, false, some, is_none}
use autentico.Schema.{Db, Token, second}
use autentico.Exec.{ok, err, http}
use autentico.Sql.{find_row}
use autentico.Text.{fields}
use autentico.Token.{update_tokens, revoke}
use autentico.Token.CodeGrant.{TokenRequest, invalid_grant}
use autentico.Token.Scopes.{is_scope_subset}
use autentico.Token.RefreshGrant.{
  user_by_refresh_token, rotate_grant, is_token_of, has_refresh, Carried, is_rotated,
}
use autentico.Token.RefreshGrant.Checks.{IsRefreshable, refresh-IsRefreshable}
use autentico.Token.RefreshGrant.Replay.{rotate-replay, refused_scope_rotates}
use autentico.Cleanup.{delete_expired_transient_rows}
use autentico.Cleanup.Sweep.{sweep-refresh}
use autentico.Tests.World.{env, env_at, minute_later, env_at-Healthy, start, old_claims}
use autentico.Tests.Rows.{db, user, session, token, refresh_request}

refreshed : user_by_refresh_token env refresh_request db ≡ (ok (some user), db)
unfolding user_by_refresh_token autentico.Token.CodeGrant.validate_token_request_refresh
    autentico.Session.session_by_id_including_deactivated autentico.Env.query find_row
    autentico.User.user_by_id
refreshed = refl

refresh-IsRefreshable_example : IsRefreshable env refresh_request db user × (db ≡ db)
refresh-IsRefreshable_example = refresh-IsRefreshable env refresh_request refl user db db refreshed

rotate-replay_example :
    user_by_refresh_token minute_later refresh_request (rotate_grant env refresh_request db).1 ≡ (
      err invalid_grant,
      update_tokens
          (is_token_of "u1")
          (revoke minute_later)
          (rotate_grant env refresh_request db).1,
    )
unfolding rotate_grant find_row autentico.Token.CodeGrant.validate_token_request_refresh
rotate-replay_example =
    rotate-replay env minute_later refresh_request refresh_request old_claims session token db
      (env_at-Healthy start) (env_at-Healthy (start + 60 * second)) refl refl refl refl refl refl
      refl refl

abbrev wide_request : TokenRequest
wide_request = record refresh_request { scope = "openid admin" }

refused_scope_rotates_example :
    ((rotate_grant env wide_request db).0 ≡ err (http 400 "invalid_scope"))
    × ((t' : Token) × (find_row (has_refresh "rt0") (rotate_grant env wide_request db).1.tokens
          ≡ some t')
        × (is_none t'.revoked_at ≡ false))
unfolding is_scope_subset find_row fields autentico.Text.push autentico.Text.words
    autentico.Text.is_space
refused_scope_rotates_example =
    refused_scope_rotates env wide_request token db (env_at-Healthy start) refl refl refl

abbrev narrow_request : TokenRequest
narrow_request = record refresh_request { scope = "openid" }

abbrev narrow : Carried
narrow = record { scope = "openid"; auth_time = start; idp_session_id = "idp0" }

abbrev rotated : Db
rotated = record (update_tokens (is_rotated "rt0") (revoke env) db) {
  idp_sessions = db.idp_sessions;
}

narrowed : rotate_grant env narrow_request db ≡ (ok narrow, rotated)
unfolding rotate_grant autentico.Env.query find_row autentico.Env.exec autentico.Sql.update_rows
    autentico.IdpSession.update_last_activity is_scope_subset fields autentico.Text.push
    autentico.Text.words autentico.Text.is_space
narrowed = refl

-- A day after the access token has expired, with a retention of a day.
sweep-refresh_example :
    (db' : Db) × (delete_expired_transient_rows
        (env_at (start + 90000 * second))
        (86400 * second)
        db
      ≡ (ok tt, db'))
    × (user_by_refresh_token (env_at (start + 90000 * second)) refresh_request db'
        ≡ (err invalid_grant, db'))
unfolding autentico.Token.CodeGrant.validate_token_request_refresh
sweep-refresh_example =
    sweep-refresh (env_at (start + 90000 * second)) (env_at (start + 90000 * second))
      (86400 * second) refresh_request old_claims db (env_at-Healthy (start + 90000 * second)) refl
      refl refl refl
