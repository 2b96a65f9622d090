-- ===== src/Cleanup/Sweep.antt =====
-- What the sweep ends, what it deletes, and what it takes with it.
use autentico.Prelude.{
  ℕ, String, Bool, ◌≡◌, refl, ap, ◌∙◌, true, false, not, none, some, List, [], ◌∷◌, arith, eq_iff,
  is_empty, filter, all, map, member, length, ◌||◌, ◌==◌, all-filter, filter_of_all,
}
use autentico.Schema.{
  IdpSession, Session, Token, AuthCode, DeviceCode, MfaChallenge, TrustedDevice, PasswordResetToken,
  Db,
}
use autentico.Env.{
  Env, RefreshClaims, Healthy, query, exec, delete_auth_codes, delete_tokens, delete_sessions,
  delete_idp_sessions, delete_device_codes, begin_cascade, cascade_idp, cascade_sessions,
  cascade_tokens, commit_cascade, select_idle, delete_mfa_challenges, delete_trusted_devices,
  delete_password_reset_tokens,
}
use autentico.Exec.{ok, err}
use autentico.Sql.{find_row, update_rows}
use autentico.Session.{has_id, session_by_id_including_deactivated}
use autentico.IdpSession.{
  deactivate_idle, deactivate_with_cascade, cascade, cascade_each, is_idle, ids_of, is_active,
  end_idp,
}
use autentico.IdpSession.Cascade.{cascaded}
use autentico.Token.CodeGrant.{TokenRequest, invalid_grant, validate_token_request_refresh}
use autentico.Token.RefreshGrant.{
  user_by_refresh_token, refresh_user, check_session, decode_refresh_token, expired,
}
use autentico.Cleanup.{
  delete_expired_transient_rows, is_old, without_old_auth_codes, without_old_tokens,
  without_old_sessions, without_old_idp_sessions, without_old_device_codes,
  without_old_mfa_challenges, without_old_trusted_devices, without_old_password_reset_tokens,
}

filter_idem {ℓ} : {A : Type ℓ} (p : A → Bool) (xs : List A) → filter p (filter p xs) ≡ filter p xs
filter_idem p xs = filter_of_all p (filter p xs) (all-filter p xs)

-- The tables without their old rows.
abbrev pub swept : Env → ℕ → Db → Db
swept env retention db =
    let logins =
      without_old_trusted_devices env retention
        (without_old_mfa_challenges env retention (without_old_auth_codes env retention db)) in
    let sessions =
      without_old_idp_sessions env retention
        (without_old_sessions env retention (without_old_tokens env retention logins)) in
    without_old_device_codes env retention
      (without_old_password_reset_tokens env retention sessions)

delete-swept :
    (env : Env) (retention : ℕ) (db : Db)
    → Healthy env
    → delete_expired_transient_rows env retention db ≡ (ok tt, swept env retention db)
unfolding delete_expired_transient_rows exec
delete-swept env retention db healthy = ground (
  arith,
  healthy delete_auth_codes,
  healthy delete_tokens,
  healthy delete_sessions,
  healthy delete_idp_sessions,
  healthy delete_device_codes,
  healthy delete_mfa_challenges,
  healthy delete_trusted_devices,
  healthy delete_password_reset_tokens,
)

swept_idem :
    (env : Env) (retention : ℕ) (db : Db)
    → swept env retention (swept env retention db) ≡ swept env retention db
swept_idem env retention db = ground (
  arith,
  filter_idem (λ (c : AuthCode). not (is_old env retention c.expires_at)) db.auth_codes,
  filter_idem (λ (t : Token). not (is_old env retention t.refresh_token_expires_at)) db.tokens,
  filter_idem (λ (s : Session). not (is_old env retention s.expires_at)) db.sessions,
  filter_idem
      (λ (s : IdpSession). not (autentico.Cleanup.ended_before env retention s.deactivated_at))
      db.idp_sessions,
  filter_idem (λ (d : DeviceCode). not (is_old env retention d.expires_at)) db.device_codes,
  filter_idem (λ (x : MfaChallenge). not (is_old env retention x.expires_at)) db.mfa_challenges,
  filter_idem (λ (x : TrustedDevice). not (is_old env retention x.expires_at)) db.trusted_devices,
  filter_idem (λ (x : PasswordResetToken). not (is_old env retention x.expires_at))
      db.password_reset_tokens,
)

-- With a database that refuses no statement, the deletion succeeds, and a second one at the same
-- time succeeds too and changes nothing.
pub delete_idem :
    (env : Env) (retention : ℕ) (db : Db)
    → Healthy env
    → (db' : Db) × (delete_expired_transient_rows env retention db ≡ (ok tt, db'))
      × (delete_expired_transient_rows env retention db' ≡ (ok tt, db'))
delete_idem env retention db healthy = (
  swept env retention db,
  delete-swept env retention db healthy,
  delete-swept env retention (swept env retention db) healthy
      ∙ ap (λ d. (ok tt, d)) (swept_idem env retention db),
)

abbrev all_old : Env → ℕ → String → List Session → Bool
all_old env retention id xs = all (λ s. not (s.id == id) || is_old env retention s.expires_at) xs

session_gone :
    (env : Env) (retention : ℕ) (id : String) (xs : List Session)
    → all_old env retention id xs ≡ true
    → find_row (has_id id) (filter (λ (s : Session). not (is_old env retention s.expires_at)) xs)
      ≡ none
unfolding find_row
session_gone env retention id [] h = refl
session_gone env retention id (x ∷ xs) h = ground (arith, session_gone env retention id xs)

-- A session is deleted by the expiry of its access token. From then on its refresh token is
-- refused, also where the refresh token itself has neither expired nor been revoked.
pub sweep-refresh :
    (env later : Env) (retention : ℕ) (r : TokenRequest) (k : RefreshClaims) (db : Db)
    → Healthy env
    → validate_token_request_refresh r ≡ true
    → later.parse_refresh r.refresh_token ≡ some k
    → expired later k ≡ false
    → all_old env retention k.session_id db.sessions ≡ true
    → (db' : Db) × (delete_expired_transient_rows env retention db ≡ (ok tt, db'))
      × (user_by_refresh_token later r db' ≡ (err invalid_grant, db'))
unfolding user_by_refresh_token refresh_user check_session decode_refresh_token
    session_by_id_including_deactivated query
sweep-refresh env later retention r k db healthy valid parsed alive old = (
  swept env retention db,
  delete-swept env retention db healthy,
  ground (arith, session_gone env retention k.session_id db.sessions old),
)

abbrev covered : Env → ℕ → List String → List IdpSession → Bool
covered env timeout ids xs = all (λ s. not (is_idle env timeout s) || member s.id ids) xs

cover_step :
    (env : Env) (timeout : ℕ) (id : String) (ids : List String) (xs : List IdpSession)
    → covered env timeout (id ∷ ids) xs ≡ true
    → covered env timeout ids (update_rows (is_active id) (end_idp env) xs) ≡ true
unfolding update_rows
cover_step env timeout id ids [] h = refl
cover_step env timeout id ids (x ∷ xs) h =
    ground (arith, cover_step env timeout id ids xs, eq_iff id x.id, eq_iff x.id id)

pub cascade-runs :
    (env : Env) (id : String) (db : Db)
    → Healthy env
    → is_empty id ≡ false
    → deactivate_with_cascade env id db ≡ (ok tt, cascaded env id db)
unfolding deactivate_with_cascade cascade exec
cascade-runs env id db healthy named = ground (
  arith,
  named,
  healthy begin_cascade,
  healthy cascade_idp,
  healthy cascade_sessions,
  healthy cascade_tokens,
  healthy commit_cascade,
)

cascade_each-covers :
    (env : Env) (timeout : ℕ) (ids : List String) (db : Db)
    → Healthy env
    → all (λ id. not (is_empty id)) ids ≡ true
    → covered env timeout ids db.idp_sessions ≡ true
    → (db' : Db) × (cascade_each env ids db ≡ (ok tt, db'))
      × (covered env timeout [] db'.idp_sessions ≡ true)
unfolding cascade_each
cascade_each-covers env timeout [] db healthy named h = (db, refl, h)
cascade_each-covers env timeout (id ∷ ids) db healthy named h =
    let (db', run, done) =
      cascade_each-covers env timeout ids (cascaded env id db) healthy (ground arith)
        (cover_step env timeout id ids db.idp_sessions h) in
    (db', ground (arith, cascade-runs env id db healthy, run), done)

ids-cover :
    (env : Env) (timeout : ℕ) (ids : List String) (xs : List IdpSession)
    → ((s : String)
        → member s (map (λ (x : IdpSession). x.id) (filter (is_idle env timeout) xs)) ≡ true
        → member s ids ≡ true)
    → covered env timeout ids xs ≡ true
ids-cover env timeout ids [] inside = refl
ids-cover env timeout ids (x ∷ xs) inside = ground (
  arith,
  inside x.id,
  ids-cover env timeout ids xs (λ s m. inside s (ground (arith, m))),
  eq_iff x.id x.id,
)

uncover :
    (env : Env) (timeout : ℕ) (xs : List IdpSession)
    → covered env timeout [] xs ≡ true
    → all (λ s. not (is_idle env timeout s)) xs ≡ true
uncover env timeout [] h = refl
uncover env timeout (x ∷ xs) h = ground (arith, uncover env timeout xs)

-- With a database that refuses no statement, in which every single sign-on session has an
-- identifier, the idle sweep succeeds, reports the number of sessions that it selected, and leaves
-- no active session that has been idle for longer than the timeout.
pub deactivate_idle_complete :
    (env : Env) (timeout : ℕ) (db : Db)
    → Healthy env
    → all (λ id. not (is_empty id)) (ids_of (is_idle env timeout) db) ≡ true
    → (db' : Db) × (deactivate_idle env timeout db
        ≡ (ok (length (ids_of (is_idle env timeout) db)), db'))
      × (all (λ s. not (is_idle env timeout s)) db'.idp_sessions ≡ true)
unfolding deactivate_idle query
deactivate_idle_complete env timeout db healthy named =
    let ids = ids_of (is_idle env timeout) db in
    let (db', run, done) =
      cascade_each-covers env timeout ids db healthy named
        (ids-cover env timeout ids db.idp_sessions (λ s m. m)) in
    (db', ground (arith, healthy select_idle, run), uncover env timeout db'.idp_sessions done)
