-- ===== src/IdpSession/Cascade.antt =====
-- What DeactivateWithCascade does to the three tables, and that it does all of it or nothing.
use mathlib.Core.Path.{subst}
use autentico.Prelude.{
  ℕ, String, ◌≡◌, ◌≢◌, refl, sym, ap, ◌&&◌, Bool, true, false, Option, none, List, [], ◌∷◌, arith,
  is_none, Pairs, map, filter, ◌⊎◌, ◌==◌, member,
}
use autentico.Schema.{IdpSession, Session, Token, Db}
use autentico.Env.{Env, exec}
use autentico.Exec.{GoError, ok, err}
use autentico.Sql.{update_rows, modify}
use autentico.Sql.Laws.{Pairs-update}
use autentico.IdpSession.{
  is_active, end_idp, end_idp_sessions, is_child, is_active_child, end_session, end_children,
  born_from, is_active_token, revoke_token, revoke_born, deactivate_with_cascade,
}

-- One column of a row that marks its end, before and after: a row that the cascade concerns is
-- ended afterwards, at the time that it was ended before if it was; any other row is unchanged.
abbrev pub Ended : Bool → Option ℕ → Option ℕ → Type 0
Ended concerned before after =
    ((concerned ≡ false) ⊎ (after ≢ none)) × ((before ≡ none) ⊎ (after ≡ before))

pub record IdpEnded (id : String) (s t : IdpSession) : Type 0 where
  pub end : Ended (s.id == id) s.deactivated_at t.deactivated_at
  pub others : ((s.id == id) ≡ true) ⊎ (t ≡ s)

pub record ChildEnded (id : String) (s t : Session) : Type 0 where
  pub end : Ended (is_child id s) s.deactivated_at t.deactivated_at
  pub others : (is_child id s ≡ true) ⊎ (t ≡ s)

pub record TokenEnded (id : String) (db : Db) (s t : Token) : Type 0 where
  pub end : Ended (born_from id db s) s.revoked_at t.revoked_at
  pub others : (born_from id db s ≡ true) ⊎ (t ≡ s)

-- The promise of the cascade on the three tables, and that it touches no other one.
pub record IsCascaded (id : String) (db db' : Db) : Type 0 where
  pub idp_sessions : Pairs (IdpEnded id) db.idp_sessions db'.idp_sessions
  pub sessions : Pairs (ChildEnded id) db.sessions db'.sessions
  pub tokens : Pairs (TokenEnded id db) db.tokens db'.tokens
  pub users : db'.users ≡ db.users
  pub clients : db'.clients ≡ db.clients
  pub auth_codes : db'.auth_codes ≡ db.auth_codes
  pub device_codes : db'.device_codes ≡ db.device_codes
  pub user_consents : db'.user_consents ≡ db.user_consents
  pub mfa_challenges : db'.mfa_challenges ≡ db.mfa_challenges
  pub trusted_devices : db'.trusted_devices ≡ db.trusted_devices
  pub password_reset_tokens : db'.password_reset_tokens ≡ db.password_reset_tokens

idp-IdpEnded :
    (env : Env) (id : String) (s : IdpSession)
    → IdpEnded id s (modify (is_active id) (end_idp env) s)
idp-IdpEnded env id s = ground arith

child-ChildEnded :
    (env : Env) (id : String) (s : Session)
    → ChildEnded id s (modify (is_active_child id) (end_session env) s)
child-ChildEnded env id s = ground arith

abbrev access_tokens : String → List Session → List String
access_tokens id xs = map (λ (s : Session). s.access_token) (filter (is_child id) xs)

-- The update of the sessions changes no access token and no parent, so the tokens that the last
-- statement selects are those of the database before.
access_tokens-end :
    (env : Env) (id : String) (xs : List Session)
    → access_tokens id (update_rows (is_active_child id) (end_session env) xs) ≡ access_tokens id xs
unfolding update_rows
access_tokens-end env id [] = refl
access_tokens-end env id (x ∷ xs) = ground (arith, access_tokens-end env id xs)

token-TokenEnded :
    (env : Env) (id : String) (db db2 : Db) (s : Token)
    → born_from id db2 s ≡ born_from id db s
    → TokenEnded id db s (modify (is_active_token id db2) (revoke_token env) s)
token-TokenEnded env id db db2 s same = ground arith

-- The database after the three statements.
abbrev pub cascaded : Env → String → Db → Db
cascaded env id db =
    revoke_born env id (end_children env id (end_idp_sessions env (is_active id) db))

cascaded-IsCascaded : (env : Env) (id : String) (db : Db) → IsCascaded id db (cascaded env id db)
cascaded-IsCascaded env id db = record {
  idp_sessions =
      Pairs-update (IdpEnded id) (is_active id) (end_idp env) db.idp_sessions (idp-IdpEnded env id);
  sessions =
      Pairs-update (ChildEnded id) (is_active_child id) (end_session env) db.sessions
        (child-ChildEnded env id);
  tokens =
      Pairs-update (TokenEnded id db)
        (is_active_token id (end_children env id (end_idp_sessions env (is_active id) db)))
        (revoke_token env) db.tokens
        (λ t.
          token-TokenEnded env id db (end_children env id (end_idp_sessions env (is_active id) db))
            t (ap (member t.access_token) (access_tokens-end env id db.sessions)));
  users = refl;
  clients = refl;
  auth_codes = refl;
  device_codes = refl;
  user_consents = refl;
  mfa_challenges = refl;
  trusted_devices = refl;
  password_reset_tokens = refl;
}

pub cascade-ok :
    (env : Env) (id : String) (db db' : Db)
    → deactivate_with_cascade env id db ≡ (ok tt, db')
    → db' ≡ cascaded env id db
unfolding deactivate_with_cascade exec
cascade-ok env id db db' h = ground arith

-- A cascade that reports success has ended the single sign-on session, every session born from it
-- and every token of those sessions; rows that had ended before keep their time, and no other row
-- and no other table is changed.
pub cascade-IsCascaded :
    (env : Env) (id : String) (db db' : Db)
    → deactivate_with_cascade env id db ≡ (ok tt, db')
    → IsCascaded id db db'
cascade-IsCascaded env id db db' h =
    subst (IsCascaded id db) (sym (cascade-ok env id db db' h)) (cascaded-IsCascaded env id db)

-- A cascade that reports an error has changed nothing, whichever statement failed.
pub cascade_atomic :
    (env : Env) (id : String) (e : GoError) (db db' : Db)
    → deactivate_with_cascade env id db ≡ (err e, db')
    → db' ≡ db
unfolding deactivate_with_cascade exec
cascade_atomic env id e db db' h = ground arith

end_idp_idem :
    (first second : Env) (id : String) (xs : List IdpSession)
    → update_rows (is_active id) (end_idp second) (update_rows (is_active id) (end_idp first) xs)
      ≡ update_rows (is_active id) (end_idp first) xs
unfolding update_rows
end_idp_idem first second id [] = refl
end_idp_idem first second id (x ∷ xs) = ground (arith, end_idp_idem first second id xs)

end_children_idem :
    (first second : Env) (id : String) (xs : List Session)
    → update_rows
        (is_active_child id)
        (end_session second)
        (update_rows (is_active_child id) (end_session first) xs)
      ≡ update_rows (is_active_child id) (end_session first) xs
unfolding update_rows
end_children_idem first second id [] = refl
end_children_idem first second id (x ∷ xs) = ground (arith, end_children_idem first second id xs)

abbrev is_revocable : List String → Token → Bool
is_revocable values t = member t.access_token values && is_none t.revoked_at

revoke_idem :
    (first second : Env) (values : List String) (xs : List Token)
    → update_rows
        (is_revocable values)
        (revoke_token second)
        (update_rows (is_revocable values) (revoke_token first) xs)
      ≡ update_rows (is_revocable values) (revoke_token first) xs
unfolding update_rows
revoke_idem first second values [] = refl
revoke_idem first second values (x ∷ xs) = ground (arith, revoke_idem first second values xs)

-- A second cascade of one session, at any later time, changes nothing.
pub cascade_idem :
    (first second : Env) (id : String) (db : Db)
    → cascaded second id (cascaded first id db) ≡ cascaded first id db
cascade_idem first second id db =
    let sessions = update_rows (is_active_child id) (end_session first) db.sessions in
    let values = access_tokens id sessions in
    ground (
      arith,
      end_idp_idem first second id db.idp_sessions,
      end_children_idem first second id db.sessions,
      revoke_idem first second values db.tokens,
    )
