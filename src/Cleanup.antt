-- ===== src/Cleanup.antt =====
-- The sweep of pkg/cleanup/service.go, on the tables that the development models.
pub mod Sweep
use autentico.Prelude.{
  ℕ, ◌+◌, Bool, not, none, some, Option, true, false, ◌&&◌, ltb, filter, List, if◌then◌else◌,
}
use autentico.Schema.{
  AuthCode, Token, Session, IdpSession, DeviceCode, MfaChallenge, TrustedDevice, PasswordResetToken,
  Db,
}
use autentico.Env.{
  Env, exec, delete_auth_codes, delete_tokens, delete_sessions, delete_idp_sessions,
  delete_device_codes, delete_mfa_challenges, delete_trusted_devices, delete_password_reset_tokens,
}
use autentico.Exec.{Exec, GoError, pure, attempt, ◌>>=◌, ◌>>◌}
use autentico.IdpSession.{deactivate_idle, deactivate_expired_max_age}

unfoldable pub deactivate_idle_idp_sessions : Env → Exec GoError (Unit {0})
deactivate_idle_idp_sessions env =
    if ltb 0 env.config.sso_session_idle_timeout
    then attempt (deactivate_idle env env.config.sso_session_idle_timeout)
    else pure tt

unfoldable pub deactivate_expired_max_age_idp_sessions : Env → Exec GoError (Unit {0})
deactivate_expired_max_age_idp_sessions env =
    if ltb 0 env.config.sso_session_max_age
    then attempt (deactivate_expired_max_age env env.config.sso_session_max_age)
    else pure tt

-- `expires_at < now - retention`, written without a subtraction.
abbrev pub is_old : Env → ℕ → ℕ → Bool
is_old env retention expires_at = ltb (expires_at + retention) env.now

abbrev pub ended_before : Env → ℕ → Option ℕ → Bool
ended_before env retention none = false
ended_before env retention (some t) = is_old env retention t

module _ (env : Env) (retention : ℕ) where
  abbrev pub without_old_auth_codes : Db → Db
  without_old_auth_codes db = record db {
    auth_codes = filter (λ (c : AuthCode). not (is_old env retention c.expires_at)) db.auth_codes;
  }

  abbrev pub without_old_tokens : Db → Db
  without_old_tokens db = record db {
    tokens =
        filter (λ (t : Token). not (is_old env retention t.refresh_token_expires_at)) db.tokens;
  }

  abbrev pub without_old_sessions : Db → Db
  without_old_sessions db = record db {
    sessions = filter (λ (s : Session). not (is_old env retention s.expires_at)) db.sessions;
  }

  abbrev pub without_old_idp_sessions : Db → Db
  without_old_idp_sessions db = record db {
    idp_sessions =
        filter (λ (s : IdpSession). not (ended_before env retention s.deactivated_at))
          db.idp_sessions;
  }

  abbrev pub without_old_device_codes : Db → Db
  without_old_device_codes db = record db {
    device_codes =
        filter (λ (d : DeviceCode). not (is_old env retention d.expires_at)) db.device_codes;
  }

  abbrev pub without_old_mfa_challenges : Db → Db
  without_old_mfa_challenges db = record db {
    mfa_challenges =
        filter (λ (x : MfaChallenge). not (is_old env retention x.expires_at)) db.mfa_challenges;
  }

  abbrev pub without_old_trusted_devices : Db → Db
  without_old_trusted_devices db = record db {
    trusted_devices =
        filter (λ (x : TrustedDevice). not (is_old env retention x.expires_at)) db.trusted_devices;
  }

  abbrev pub without_old_password_reset_tokens : Db → Db
  without_old_password_reset_tokens db = record db {
    password_reset_tokens =
        filter (λ (x : PasswordResetToken). not (is_old env retention x.expires_at))
          db.password_reset_tokens;
  }

  -- A table that cannot be cleaned does not keep the others from being cleaned.
  unfoldable pub delete_expired_transient_rows : Exec GoError (Unit {0})
  delete_expired_transient_rows = do
    attempt (exec env delete_auth_codes without_old_auth_codes)
    attempt (exec env delete_mfa_challenges without_old_mfa_challenges)
    attempt (exec env delete_trusted_devices without_old_trusted_devices)
    attempt (exec env delete_tokens without_old_tokens)
    attempt (exec env delete_sessions without_old_sessions)
    attempt (exec env delete_idp_sessions without_old_idp_sessions)
    attempt (exec env delete_password_reset_tokens without_old_password_reset_tokens)
    attempt (exec env delete_device_codes without_old_device_codes)

  unfoldable pub run : Exec GoError (Unit {0})
  unfolding deactivate_idle_idp_sessions deactivate_expired_max_age_idp_sessions
      delete_expired_transient_rows
  run = do
    deactivate_idle_idp_sessions env
    deactivate_expired_max_age_idp_sessions env
    delete_expired_transient_rows
