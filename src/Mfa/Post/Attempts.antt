-- ===== src/Mfa/Post/Attempts.antt =====
-- How often a user may try a code.
use autentico.Prelude.{
  ℕ, ◌+◌, String, ◌≡◌, refl, ap, ◌∙◌, true, false, not, some, ◌==◌, ◌&&◌, ◌||◌, arith, is_empty,
  leb, ltb, Bool-cases, inl, inr, eq_iff, if◌then◌else◌,
}
use autentico.Schema.{MfaChallenge, User, Db}
use autentico.Env.{
  Env, Healthy, exec, select_challenge, select_user, increment_failed, mark_challenge,
}
use autentico.Exec.{ok, err, require, on_error}
use autentico.Exec.Forward.{
  bind_of_ok, bind_of_err, on_error_of_ok, require_of_true, require_of_false, query_of_some,
}
use autentico.Sql.{find_row, update_rows, modify}
use autentico.Sql.Laws.{find_row-update, find_row_sound}
use autentico.Web.{Request}
use autentico.Browser.{Answer}
use autentico.User.{user_by_id, is_active}
use autentico.Mfa.{
  has_id, used, failed_again, mfa_challenge_by_id_including_expired, mark_challenge_used,
  increment_failed_attempts, update_challenge, render_verify_page,
}
use autentico.Mfa.Post.{
  handle_mfa_post, open_challenge, check_factor, answer, wrong_code, fits, pass, too_many,
}

-- A challenge after some wrong codes.
abbrev pub after : ℕ → MfaChallenge → MfaChallenge
after n c = record c { failed_attempts = n; used = leb 5 n }

-- The database after one wrong code.
abbrev pub counted : String → ℕ → Db → Db
counted id n db =
    if leb 5 n
    then update_challenge id used (update_challenge id failed_again db)
    else update_challenge id failed_again db

wrong_code-run :
    (env : Env) (n : ℕ) (c : MfaChallenge) (db : Db)
    → Healthy env
    → (a : Answer) × (wrong_code env (after n c) db ≡ (err a, counted c.id (n + 1) db))
unfolding wrong_code increment_failed_attempts mark_challenge_used exec
wrong_code-run env n c db healthy = elim (Bool-cases (leb 5 (n + 1))) [
  | inl many ↦
      (too_many env (after n c), ground (arith, healthy increment_failed, healthy mark_challenge))
  | inr few ↦ (
    render_verify_page (after n c) "Invalid verification code",
    ground (arith, healthy increment_failed),
  )
]

-- The challenge that is looked up afterwards.
pub counted-lookup :
    (n : ℕ) (c : MfaChallenge) (id : String) (db : Db)
    → leb 5 n ≡ false
    → c.id ≡ id
    → find_row (has_id id) db.mfa_challenges ≡ some (after n c)
    → find_row (has_id id) (counted c.id (n + 1) db).mfa_challenges ≡ some (after (n + 1) c)
counted-lookup n c id db few same row =
    let p = has_id id in
    let hit : p (after n c) ≡ true = find_row_sound p db.mfa_challenges row in
    let q = has_id c.id in
    let self : q (after n c) ≡ true = (eq_iff c.id c.id).1 refl in
    let once = find_row-update p q failed_again db.mfa_challenges (λ y. refl) row in
    let first : modify q failed_again (after n c) ≡ failed_again (after n c) =
      ground (arith, self) in
    elim (Bool-cases (leb 5 (n + 1))) [
      | inr still ↦ rw still (once ∙ ap some first ∙ rw few refl)
      | inl many ↦
          let twice =
            find_row-update p q used (update_rows q failed_again db.mfa_challenges) (λ y. refl)
              (once ∙ ap some first) in
          rw many (twice ∙ ground (arith, self))
    ]

-- A request that answers a challenge of an enrolled user with a wrong code, in time.
pub record Tries (env : Env) (req : Request) (c : MfaChallenge) (u : User) : Type 0 where
  pub healthy : Healthy env
  pub parses : req.parses ≡ true
  pub names : req.form "challenge_id" ≡ c.id
  pub filled : not (is_empty (req.form "challenge_id") || is_empty (req.form "code")) ≡ true
  pub in_time : ltb c.expires_at env.now ≡ false
  pub asked : (c.method == "totp" && not u.totp_verified) ≡ false
  pub known : (c.method == "totp" || c.method == "email") ≡ true
  pub unfit : fits env c u (req.form "code") ≡ false

-- The challenge and its user in the database.
pub record Stands (n : ℕ) (c : MfaChallenge) (u : User) (db : Db) : Type 0 where
  pub listed : find_row (has_id c.id) db.mfa_challenges ≡ some (after n c)
  pub owner : find_row (is_active c.user_id) db.users ≡ some u

read_challenge :
    (env : Env) (req : Request) (n : ℕ) (c : MfaChallenge) (u : User) (e : Answer) (db : Db)
    → Tries env req c u
    → Stands n c u db
    → on_error e (mfa_challenge_by_id_including_expired env (req.form "challenge_id")) db
      ≡ (ok (after n c), db)
unfolding mfa_challenge_by_id_including_expired
read_challenge env req n c u e db t s =
    let id = req.form "challenge_id" in
    on_error_of_ok e (mfa_challenge_by_id_including_expired env id) db (after n c) db (
      query_of_some env select_challenge (λ d. find_row (has_id id) d.mfa_challenges) db (after n c)
        (t.healthy select_challenge)
        (ap (λ k. find_row (has_id k) db.mfa_challenges) t.names ∙ s.listed))

open_challenge-run :
    (env : Env) (req : Request) (n : ℕ) (c : MfaChallenge) (u : User) (db : Db)
    → leb 5 n ≡ false
    → Tries env req c u
    → Stands n c u db
    → open_challenge env req db ≡ (ok (after n c, u), db)
unfolding open_challenge user_by_id
open_challenge-run env req n c u db few t s =
    let id = req.form "challenge_id" in
    let filled = not (is_empty id || is_empty (req.form "code")) in
    let live = not ((after n c).used || ltb c.expires_at env.now) in
    bind_of_ok (require req.parses _) _ db tt db (require_of_true req.parses _ db t.parses)
    ∙ bind_of_ok (require filled _) _ db tt db (require_of_true filled _ db t.filled)
    ∙ bind_of_ok (on_error _ (mfa_challenge_by_id_including_expired env id)) _ db (after n c) db
        (read_challenge env req n c u _ db t s)
    ∙ bind_of_ok (require live _) _ db tt db
        (require_of_true live _ db (ground (arith, few, t.in_time)))
    ∙ bind_of_ok (on_error _ (user_by_id env c.user_id)) _ db u db (
        on_error_of_ok _ (user_by_id env c.user_id) db u db (
          query_of_some env select_user (λ d. find_row (is_active c.user_id) d.users) db u
            (t.healthy select_user) s.owner))

-- A challenge that is used up answers nothing.
pub closed-run :
    (env : Env) (req : Request) (n : ℕ) (c : MfaChallenge) (u : User) (db : Db)
    → leb 5 n ≡ true
    → Tries env req c u
    → Stands n c u db
    → (a : Answer) × (handle_mfa_post env req db ≡ (err a, db))
unfolding handle_mfa_post open_challenge
closed-run env req n c u db many t s =
    let id = req.form "challenge_id" in
    let filled = not (is_empty id || is_empty (req.form "code")) in
    let live = not ((after n c).used || ltb c.expires_at env.now) in
    (
      _,
      bind_of_err (open_challenge env req) _ db _ db (
          bind_of_ok (require req.parses _) _ db tt db (require_of_true req.parses _ db t.parses)
          ∙ bind_of_ok (require filled _) _ db tt db (require_of_true filled _ db t.filled)
          ∙ bind_of_ok (on_error _ (mfa_challenge_by_id_including_expired env id)) _ db (after n c)
              db (read_challenge env req n c u _ db t s)
          ∙ bind_of_err (require live _) _ db _ db
              (require_of_false live _ db (ground (arith, many)))),
    )

-- One wrong code for a challenge that is not used up.
pub wrong-run :
    (env : Env) (req : Request) (n : ℕ) (c : MfaChallenge) (u : User) (db : Db)
    → leb 5 n ≡ false
    → Tries env req c u
    → Stands n c u db
    → (handle_mfa_post env req db).1 ≡ counted c.id (n + 1) db
unfolding handle_mfa_post check_factor
wrong-run env req n c u db few t s =
    let (a, wrong) = wrong_code-run env n c db t.healthy in
    let next = counted c.id (n + 1) db in
    let factor : check_factor env req (after n c) u db ≡ (err a, next) =
      rw (t.asked, check_factor) (rw t.known (rw t.unfit wrong)) in
    ap (λ r. r.1)
      (bind_of_ok (open_challenge env req) (λ o. answer env req o) db (after n c, u) db
          (open_challenge-run env req n c u db few t s)
        ∙ bind_of_err (check_factor env req (after n c) u) (λ _. pass env req (after n c) u) db a
            next factor)
