-- ===== src/PasswordReset/Effect.antt =====
-- What a new password changes in the database, table by table.
use mathlib.Core.Path.{subst}
use autentico.Prelude.{
  ◌≡◌, refl, ap, sym, ◌∙◌, ◌⊎◌, inl, inr, String, false, none, some, ◌==◌, arith, eq_iff, is_empty,
  is_none, or_empty, Pairs, Bool-cases, Option-cases,
}
use autentico.Schema.{PasswordResetToken, Session, IdpSession, User, Db}
use autentico.Env.{Env}
use autentico.Exec.{ok}
use autentico.Sql.{find_row, modify}
use autentico.Sql.Laws.{find_row-update, find_row_sound, Pairs-update}
use autentico.IdpSession.{end_session, end_idp, end_idp_sessions, is_active_of}
use autentico.User.{update_user, is_active, has_id}
use autentico.User.Update.{new_password, set_columns, null_if_empty}
use autentico.PasswordReset.{
  only_password, use_tokens, used_now, has_hash, end_sessions_of, is_live_of,
}

-- The database after the link has been used up and the user has been signed out everywhere.
abbrev pub signed_out : Env → String → String → Db → Db
signed_out env token_hash user_id db =
    end_idp_sessions env (is_active_of user_id)
      (end_sessions_of env user_id (use_tokens env (has_hash token_hash) db))

-- The password is the hash of the new one, and nothing else is changed; an empty password, which
-- only a minimal length of 0 lets through, keeps the old hash.
pub record SetsPassword (env : Env) (password : String) (u v : User) : Type 0 where
  pub hashed :
      ((is_empty password ≡ false)
        × ((hashed : String) × (env.hash_password password ≡ some hashed)
            × (v.password ≡ some hashed)))
      ⊎ ((password ≡ "") × (or_empty v.password ≡ or_empty u.password))
  pub id : v.id ≡ u.id
  pub username : v.username ≡ u.username
  pub email : or_empty v.email ≡ or_empty u.email
  pub role : v.role ≡ u.role
  pub is_email_verified : v.is_email_verified ≡ u.is_email_verified
  pub totp_secret : v.totp_secret ≡ u.totp_secret
  pub totp_verified : v.totp_verified ≡ u.totp_verified
  pub given_name : v.given_name ≡ u.given_name
  pub family_name : v.family_name ≡ u.family_name
  pub require_password_change : v.require_password_change ≡ u.require_password_change
  pub failed_login_attempts : v.failed_login_attempts ≡ u.failed_login_attempts
  pub locked_until : v.locked_until ≡ u.locked_until
  pub deactivated_at : v.deactivated_at ≡ u.deactivated_at

-- Row by row, what becomes of a session and of a single sign-on session.
abbrev pub SessionEnds : Env → String → Session → Session → Type 0
SessionEnds env user_id x y =
    ((x.user_id ≡ user_id)
      × (x.deactivated_at ≡ none)
      × (y ≡ record x { deactivated_at = some env.now }))
    ⊎ (((x.user_id == user_id) ≡ false) × (y ≡ x))
    ⊎ ((is_none x.deactivated_at ≡ false) × (y ≡ x))

abbrev pub IdpSessionEnds : Env → String → IdpSession → IdpSession → Type 0
IdpSessionEnds env user_id x y =
    ((x.user_id ≡ user_id)
      × (x.deactivated_at ≡ none)
      × (y ≡ record x { deactivated_at = some env.now }))
    ⊎ (((x.user_id == user_id) ≡ false) × (y ≡ x))
    ⊎ ((is_none x.deactivated_at ≡ false) × (y ≡ x))

abbrev pub LinkEnds : Env → String → PasswordResetToken → PasswordResetToken → Type 0
LinkEnds env token_hash x y =
    ((x.token_hash ≡ token_hash) × (y ≡ record x { used_at = some env.now }))
    ⊎ (((x.token_hash == token_hash) ≡ false) × (y ≡ x))

-- Only rows of the user are changed.
abbrev pub Keeps : String → User → User → Type 0
Keeps id x y = (x.id ≡ id) ⊎ (y ≡ x)

pub record IsEffect (env : Env) (token_hash password : String) (u : User) (db db' : Db)
    : Type 0 where
  pub after : User
  pub stored : find_row (is_active u.id) db'.users ≡ some after
  pub sets : SetsPassword env password u after
  pub users : Pairs (Keeps u.id) db.users db'.users
  pub sessions : Pairs (SessionEnds env u.id) db.sessions db'.sessions
  pub idp_sessions : Pairs (IdpSessionEnds env u.id) db.idp_sessions db'.idp_sessions
  pub password_reset_tokens :
      Pairs (LinkEnds env token_hash) db.password_reset_tokens db'.password_reset_tokens
  pub clients : db'.clients ≡ db.clients
  pub auth_codes : db'.auth_codes ≡ db.auth_codes
  pub tokens : db'.tokens ≡ db.tokens
  pub device_codes : db'.device_codes ≡ db.device_codes
  pub user_consents : db'.user_consents ≡ db.user_consents
  pub mfa_challenges : db'.mfa_challenges ≡ db.mfa_challenges
  pub trusted_devices : db'.trusted_devices ≡ db.trusted_devices

or_empty-null_if_empty : (s : String) → or_empty (null_if_empty s) ≡ s
or_empty-null_if_empty s = elim (Bool-cases (is_empty s)) [
  | inl empty ↦ rw empty (sym ((eq_iff s "").0 empty))
  | inr filled ↦ rw filled refl
]

set_columns-SetsPassword :
    (env : Env) (password hashed : String) (u : User) (db : Db)
    → new_password env u password db ≡ (ok hashed, db)
    → SetsPassword env password u (set_columns u (only_password password) hashed u)
unfolding new_password
set_columns-SetsPassword env password hashed u db drawn = record {
  hashed = elim (Bool-cases (is_empty password)) [
    | inr filled ↦ inl (filled, (hashed, ground (arith, filled), refl))
    | inl empty ↦ inr ((eq_iff password "").0 empty, ground (arith, empty))
  ];
  id = refl;
  username = refl;
  email = or_empty-null_if_empty (or_empty u.email);
  role = refl;
  is_email_verified = refl;
  totp_secret = refl;
  totp_verified = refl;
  given_name = refl;
  family_name = refl;
  require_password_change = refl;
  failed_login_attempts = refl;
  locked_until = refl;
  deactivated_at = refl;
}

end_session-SessionEnds :
    (env : Env) (id : String) (x : Session)
    → SessionEnds env id x (modify (is_live_of id) (end_session env) x)
end_session-SessionEnds env id x = elim (Bool-cases (x.user_id == id)) [
  | inr other ↦ inr (inl (other, rw other refl))
  | inl own ↦ elim (Option-cases x.deactivated_at) [
    | inr (t, ended) ↦ inr (inr (ap is_none ended, ground (arith, ended)))
    | inl live ↦ inl ((eq_iff x.user_id id).0 own, live, rw own (rw live refl))
  ]
]

end_idp-IdpSessionEnds :
    (env : Env) (id : String) (x : IdpSession)
    → IdpSessionEnds env id x (modify (is_active_of id) (end_idp env) x)
end_idp-IdpSessionEnds env id x = elim (Bool-cases (x.user_id == id)) [
  | inr other ↦ inr (inl (other, rw other refl))
  | inl own ↦ elim (Option-cases x.deactivated_at) [
    | inr (t, ended) ↦ inr (inr (ap is_none ended, ground (arith, ended)))
    | inl live ↦ inl ((eq_iff x.user_id id).0 own, live, rw own (rw live refl))
  ]
]

used_now-LinkEnds :
    (env : Env) (token_hash : String) (x : PasswordResetToken)
    → LinkEnds env token_hash x (modify (has_hash token_hash) (used_now env) x)
used_now-LinkEnds env token_hash x = elim (Bool-cases (x.token_hash == token_hash)) [
  | inr other ↦ inr (other, rw other refl)
  | inl own ↦ inl ((eq_iff x.token_hash token_hash).0 own, rw own refl)
]

modify-Keeps : (id : String) (f : User → User) (x : User) → Keeps id x (modify (has_id id) f x)
modify-Keeps id f x = elim (Bool-cases (x.id == id)) [
  | inr other ↦ inr (rw other refl)
  | inl own ↦ inl ((eq_iff x.id id).0 own)
]

pub signed_out-IsEffect :
    (env : Env) (token_hash password hashed : String) (u : User) (db db' : Db)
    → find_row (is_active u.id) db.users ≡ some u
    → new_password env u password db ≡ (ok hashed, db)
    → db'
      ≡ signed_out env token_hash u.id
          (update_user u.id (set_columns u (only_password password) hashed) db)
    → IsEffect env token_hash password u db db'
signed_out-IsEffect env token_hash password hashed u db db' active drawn written =
    let set = set_columns u (only_password password) hashed in
    let here = find_row_sound (is_active u.id) db.users active in
    subst (IsEffect env token_hash password u db) (sym written) (record {
      after = set u;
      stored =
          find_row-update (is_active u.id) (has_id u.id) set db.users (λ y. refl) active
          ∙ ground (arith, here);
      sets = set_columns-SetsPassword env password hashed u db drawn;
      users = Pairs-update (Keeps u.id) (has_id u.id) set db.users (modify-Keeps u.id set);
      sessions =
          Pairs-update (SessionEnds env u.id) (is_live_of u.id) (end_session env) db.sessions
            (end_session-SessionEnds env u.id);
      idp_sessions =
          Pairs-update (IdpSessionEnds env u.id) (is_active_of u.id) (end_idp env) db.idp_sessions
            (end_idp-IdpSessionEnds env u.id);
      password_reset_tokens =
          Pairs-update (LinkEnds env token_hash) (has_hash token_hash) (used_now env)
            db.password_reset_tokens (used_now-LinkEnds env token_hash);
      clients = refl;
      auth_codes = refl;
      tokens = refl;
      device_codes = refl;
      user_consents = refl;
      mfa_challenges = refl;
      trusted_devices = refl;
    })
