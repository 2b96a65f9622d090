-- ===== src/User/Lockout.antt =====
-- The lockout policy of pkg/user/authenticate.go.
use autentico.Prelude.{
  ℕ, suc, ◌+◌, ◌<◌, inl, inr, String, ◌≡◌, refl, true, false, Option, none, some, List, [], ◌∷◌,
  arith, eq_refl, All, length, is_empty, or_empty, ltb, Bool-cases, if◌then◌else◌,
}
use autentico.Schema.{User, Db}
use autentico.Env.{
  Env, Healthy, query, exec, lock_user, count_failure, reset_failures, select_login, set_last_login,
}
use autentico.Exec.{account_locked, err, ok}
use autentico.Sql.{find_row}
use autentico.Sql.Laws.{find_row-update}
use autentico.User.{
  has_login, is_locked, lock, count, update_user, authenticate_user, wrong_login, has_id,
  login_columns, reset,
}

abbrev pub login_row : String → Db → Option User
login_row username db = find_row (has_login username) db.users

-- While the lock of an account lasts, no password signs in and nothing is written.
pub authenticate_user-locked :
    (env : Env) (username password : String) (u : User) (db : Db)
    → Healthy env
    → login_row username db ≡ some u
    → is_empty (or_empty u.password) ≡ false
    → is_locked env u ≡ true
    → authenticate_user env username password db ≡ (err account_locked, db)
unfolding authenticate_user query exec
authenticate_user-locked env username password u db healthy found filled locked =
    ground (arith, healthy select_login)

module _ (env : Env) (username : String) (healthy : Healthy env) where
  -- The row of the account, with `n` failures counted and no lock.
  pub record Counted (hash : String) (n : ℕ) (db : Db) : Type 0 where
    pub row : User
    pub found : login_row username db ≡ some row
    pub stored : row.password ≡ some hash
    pub counted : row.failed_login_attempts ≡ n
    pub unlocked : row.locked_until ≡ none

  pub record Locked (hash : String) (until : ℕ) (db : Db) : Type 0 where
    pub row : User
    pub found : login_row username db ≡ some row
    pub stored : row.password ≡ some hash
    pub locked : row.locked_until ≡ some until

  login_row-update :
      (u : User) (f : User → User) (db : Db)
      → ((y : User) → has_login username (f y) ≡ has_login username y)
      → login_row username db ≡ some u
      → login_row username (update_user u.id f db) ≡ some (f u)
  login_row-update u f db keep found =
      rw (find_row-update (has_login username) (has_id u.id) f db.users keep found, eq_refl u.id)

  module _ (hash password : String) (n : ℕ) (db : Db) (c : Counted hash n db)
      (filled : is_empty hash ≡ false) (wrong : env.compare_hash hash password ≡ false) where
    failure_counts :
        suc n < env.config.lockout_max_attempts
        → authenticate_user env username password db
          ≡ (err wrong_login, update_user c.row.id (count (suc n)) db)
    unfolding authenticate_user query exec
    failure_counts room = ground (arith, healthy select_login, healthy count_failure)

    failure_locks :
        suc n ≡ env.config.lockout_max_attempts
        → authenticate_user env username password db ≡ (
          err wrong_login,
          update_user c.row.id (lock (suc n) (env.now + env.config.lockout_duration)) db,
        )
    unfolding authenticate_user query exec
    failure_locks last = ground (arith, healthy select_login, healthy lock_user)

  failure-Counted :
      (hash password : String) (n : ℕ) (db : Db) (c : Counted hash n db)
      → is_empty hash ≡ false
      → env.compare_hash hash password ≡ false
      → suc n < env.config.lockout_max_attempts
      → Counted hash (suc n) (authenticate_user env username password db).1
  failure-Counted hash password n db c filled wrong room =
      rw (failure_counts hash password n db c filled wrong room) (record {
        row = count (suc n) c.row;
        found = login_row-update c.row (count (suc n)) db (λ y. refl) c.found;
        stored = c.stored;
        counted = refl;
        unlocked = c.unlocked;
      })

  failure-Locked :
      (hash password : String) (n : ℕ) (db : Db) (c : Counted hash n db)
      → is_empty hash ≡ false
      → env.compare_hash hash password ≡ false
      → suc n ≡ env.config.lockout_max_attempts
      → Locked hash
          (env.now + env.config.lockout_duration)
          (authenticate_user env username password db).1
  failure-Locked hash password n db c filled wrong last =
      let f = lock (suc n) (env.now + env.config.lockout_duration) in
      rw (failure_locks hash password n db c filled wrong last) (record {
        row = f c.row;
        found = login_row-update c.row f db (λ y. refl) c.found;
        stored = c.stored;
        locked = refl;
      })

-- Signing in once with each password, from left to right.
pub sign_ins : Env → String → List String → Db → Db
sign_ins env username [] db = db
sign_ins env username (p ∷ ps) db = sign_ins env username ps (authenticate_user env username p db).1

abbrev pub AllWrong : Env → String → List String → Type 0
AllWrong env hash ps = All (λ p. env.compare_hash hash p ≡ false) ps

sign_ins-Locked :
    (env : Env) (username hash : String) (healthy : Healthy env) (ps : List String) (n : ℕ)
    (db : Db)
    → is_empty hash ≡ false
    → AllWrong env hash ps
    → 0 < length ps
    → n + length ps ≡ env.config.lockout_max_attempts
    → Counted env username healthy hash n db
    → Locked env username healthy hash
        (env.now + env.config.lockout_duration)
        (sign_ins env username ps db)
unfolding sign_ins
sign_ins-Locked env username hash healthy [] n db filled wrong some_left total c =
    absurd (omega arith)
sign_ins-Locked env username hash healthy (p ∷ []) n db filled wrong some_left total c =
    failure-Locked env username healthy hash p n db c filled wrong.0 (omega arith)
sign_ins-Locked env username hash healthy (p ∷ q ∷ ps) n db filled wrong some_left total c =
    sign_ins-Locked env username hash healthy (q ∷ ps) (suc n) _ filled wrong.1 (omega arith)
      (omega arith)
      (failure-Counted env username healthy hash p n db c filled wrong.0 (omega arith))

-- From an account with no failure counted and no lock, after as many wrong passwords as the policy
-- allows, every password is refused with the lockout error, until the lockout duration has passed:
-- the correct password too. Nothing more is written. The duration is positive, no statement fails,
-- and the clock stands still during the attempts.
pub lockout-after_max_attempts :
    (env later : Env) (username hash password : String) (ps : List String) (u : User) (db : Db)
    → Healthy env
    → Healthy later
    → login_row username db ≡ some u
    → u.password ≡ some hash
    → is_empty hash ≡ false
    → u.failed_login_attempts ≡ 0
    → u.locked_until ≡ none
    → AllWrong env hash ps
    → length ps ≡ env.config.lockout_max_attempts
    → 0 < env.config.lockout_max_attempts
    → 0 < later.config.lockout_max_attempts
    → later.now < env.now + env.config.lockout_duration
    → let db' = sign_ins env username ps db in
      authenticate_user later username password db' ≡ (err account_locked, db')
lockout-after_max_attempts env later username hash password ps u db h h' found stored filled
      zero_count no_lock wrong total on on' soon =
    let l =
      sign_ins-Locked env username hash h ps 0 db filled wrong (omega arith) (omega arith) (record {
        row = u;
        found = found;
        stored = stored;
        counted = zero_count;
        unlocked = no_lock;
      }) in
    authenticate_user-locked later username password l.row (sign_ins env username ps db) h' l.found
      (ground (arith, l.stored)) (ground (arith, l.locked))

-- The row after a sign-in: a count of failures is cleared together with the lock.
abbrev pub signed_in : Env → User → User
signed_in env u = record (if ltb 0 u.failed_login_attempts then reset u else u) {
  last_login = some env.now;
}

abbrev set_login : Env → User → User
set_login env u = record u { last_login = some env.now }

-- A correct password signs in to an account that is not locked: the result is the account's row
-- without the columns that the login query does not read, and the stored row has no counted
-- failure, no lock if a failure had been counted, and the time of the sign-in.
pub authenticate_user-success :
    (env : Env) (username hash password : String) (u : User) (db : Db)
    → Healthy env
    → login_row username db ≡ some u
    → u.password ≡ some hash
    → is_empty hash ≡ false
    → is_locked env u ≡ false
    → env.compare_hash hash password ≡ true
    → 0 < env.config.lockout_max_attempts
    → ((authenticate_user env username password db).0 ≡ ok (login_columns u))
      × (login_row username (authenticate_user env username password db).1 ≡ some (signed_in env u))
unfolding authenticate_user query exec
authenticate_user-success env username hash password u db healthy found stored filled unlocked right
      on =
    elim (Bool-cases (ltb 0 u.failed_login_attempts)) [
      | inl failed ↦
          let once = login_row-update env username healthy u reset db (λ y. refl) found in
          let twice =
            login_row-update env username healthy (reset u) (set_login env)
              (update_user u.id reset db) (λ y. refl) once in
          (
            ground (arith, healthy select_login, healthy reset_failures, healthy set_last_login),
            ground (
              arith,
              healthy select_login,
              healthy reset_failures,
              healthy set_last_login,
              twice,
            ),
          )
      | inr clean ↦
          let once = login_row-update env username healthy u (set_login env) db (λ y. refl) found in
          (
            ground (arith, healthy select_login, healthy set_last_login),
            ground (arith, healthy select_login, healthy set_last_login, once),
          )
    ]
