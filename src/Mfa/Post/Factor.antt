-- ===== src/Mfa/Post/Factor.antt =====
-- What a code has behind it that was granted after a second factor.
use mathlib.Core.Path.{subst}
use autentico.Prelude.{
  ◌≢◌, ◌+◌, leb, ◌≤◌, String, ◌≡◌, ◌⊎◌, sym, ap, ◌∙◌, true, false, not, Option, none, some, ◌==◌,
  ◌||◌, arith, is_empty, ltb, Bool-cases, inl, inr, eq_iff,
}
use autentico.Schema.{MfaChallenge, User, Client, Db}
use autentico.Env.{Env, FlowParams, select_challenge, select_user}
use autentico.Exec.{ok, raise, require, on_error, attempt}
use autentico.Exec.Inversion.{bind-ok, on_error-ok, query-ok, require-ok}
use autentico.Sql.{find_row}
use autentico.Web.{Request}
use autentico.Browser.{Answer, Granted}
use autentico.User.{user_by_id, is_active}
use autentico.Consent.Asked.{Consented, needs_consent-false}
use autentico.Consent.Grants.{IsGranted, grant_code-IsGranted}
use autentico.Mfa.{
  has_id, mfa_challenge_by_id_including_expired, mark_challenge_used, increment_failed_attempts,
}
use autentico.Mfa.Post.{
  open_challenge, check_factor, wrong_code, enroll, fits, finish, asks_consent, end_or_retry,
  too_many,
}

-- The client of a flow, if it could be read, asks for no consent that is missing.
abbrev pub ClientConsented : Option Client → Db → String → FlowParams → Type 0
ClientConsented none db user_id p = Unit
ClientConsented (some c) db user_id p = Consented db.user_consents c user_id p.client_id p.scope

asks_consent-false :
    (env : Env) (client : Option Client) (u : String) (p : FlowParams) (db db' : Db)
    → asks_consent {E = Answer} env client u p db ≡ (ok false, db')
    → ClientConsented client db u p × (db' ≡ db)
unfolding asks_consent
asks_consent-false env none u p db db' h = (tt, ground arith)
asks_consent-false env (some c) u p db db' h =
    needs_consent-false env c u p.client_id p.scope p.prompt db db' h

-- The last part of a flow: consent, and a new code.
pub finish-IsGranted :
    (env : Env) (failed : Answer) (p : FlowParams) (client : Option Client) (u idp : String)
    (g : Granted) (db db' : Db)
    → finish env failed p client u idp db ≡ (ok g, db')
    → ClientConsented client db u p × IsGranted env p u 0 idp g db db'
unfolding finish
finish-IsGranted env failed p client u idp g db db' h =
    let (asks, db1, h1, rest1) = bind-ok (asks_consent env client u p) _ db g db' h in
    let (_, db2, h2, rest2) = bind-ok (require (not asks) _) _ db1 g db' rest1 in
    let (quiet, same2) = require-ok (not asks) _ db1 db2 h2 in
    let (consented, same1) =
      asks_consent-false env client u p db db1
        (h1 ∙ ap (λ b. (ok b, db1)) (ground (arith, quiet))) in
    (
      consented,
      subst (λ d. IsGranted env p u 0 idp g d db') (same2 ∙ same1)
          (grant_code-IsGranted env failed p u 0 idp g db2 db' rest2),
    )

-- An open challenge that a request answers, of an active user.
pub record Opened (env : Env) (req : Request) (c : MfaChallenge) (u : User) (db : Db) : Type 0 where
  pub listed : find_row (has_id (req.form "challenge_id")) db.mfa_challenges ≡ some c
  pub unused : c.used ≡ false
  pub in_time : env.now ≤ c.expires_at
  pub owner : find_row (is_active c.user_id) db.users ≡ some u

pub open_challenge-Opened :
    (env : Env) (req : Request) (c : MfaChallenge) (u : User) (db db' : Db)
    → open_challenge env req db ≡ (ok (c, u), db')
    → Opened env req c u db × (db' ≡ db)
unfolding open_challenge mfa_challenge_by_id_including_expired user_by_id
open_challenge-Opened env req c u db db' h =
    let id = req.form "challenge_id" in
    let filled = not (is_empty id || is_empty (req.form "code")) in
    let (_, db1, h1, rest1) = bind-ok (require req.parses _) _ db (c, u) db' h in
    let (_, same1) = require-ok req.parses _ db db1 h1 in
    let (_, db2, h2, rest2) = bind-ok (require filled _) _ db1 (c, u) db' rest1 in
    let (_, same2) = require-ok filled _ db1 db2 h2 in
    let (x, db3, h3, rest3) =
      bind-ok (on_error _ (mfa_challenge_by_id_including_expired env id)) _ db2 (c, u) db' rest2 in
    let (row, same3) =
      query-ok env select_challenge (λ d. find_row (has_id id) d.mfa_challenges) db2 x db3
        (on_error-ok _ (mfa_challenge_by_id_including_expired env id) db2 x db3 h3) in
    let live = not (x.used || ltb x.expires_at env.now) in
    let (_, db4, h4, rest4) = bind-ok (require live _) _ db3 (c, u) db' rest3 in
    let (still_open, same4) = require-ok live _ db3 db4 h4 in
    let (v, db5, h5, rest5) =
      bind-ok (on_error _ (user_by_id env x.user_id)) _ db4 (c, u) db' rest4 in
    let (user, same5) =
      query-ok env select_user (λ d. find_row (is_active x.user_id) d.users) db4 v db5
        (on_error-ok _ (user_by_id env x.user_id) db4 v db5 h5) in
    let same : x ≡ c = ground arith in
    let same_user : v ≡ u = ground arith in
    let last : db' ≡ db5 = ground arith in
    let kept : db3 ≡ db = same3 ∙ same2 ∙ same1 in
    (
      record {
        listed =
            ap (λ d. find_row (has_id id) d.mfa_challenges) (sym (same2 ∙ same1))
            ∙ row
            ∙ ap some same;
        unused = ap (λ (k : MfaChallenge). k.used) (sym same) ∙ ground (arith, still_open);
        in_time =
            subst (λ (k : MfaChallenge). env.now ≤ k.expires_at) same (ground (arith, still_open));
        owner =
            ap (λ (k : MfaChallenge). find_row (is_active k.user_id) db.users) (sym same)
            ∙ ap (λ d. find_row (is_active x.user_id) d.users) (sym (same4 ∙ kept))
            ∙ user
            ∙ ap some same_user;
      },
      last ∙ same5 ∙ same4 ∙ kept,
    )

-- The user has proved a second factor: the code fits the secret of the account, or the code that
-- was sent; or, for an account that has none yet, the secret that the account then has.
abbrev pub Proven : Env → Request → MfaChallenge → User → Type 0
Proven env req c u =
    ((u.totp_verified ≡ false)
      × (c.method ≡ "totp")
      × (env.validate_totp (req.form "totp_secret") (req.form "code") ≡ true))
    ⊎ ((u.totp_verified ≡ true)
        × (c.method ≡ "totp")
        × (env.validate_totp u.totp_secret (req.form "code") ≡ true))
    ⊎ ((c.method ≡ "email") × (env.hash_sha256 (req.form "code") ≡ c.code))

wrong_code-err : (env : Env) (c : MfaChallenge) (db db' : Db) → wrong_code env c db ≢ (ok tt, db')
unfolding wrong_code
wrong_code-err env c db db' h =
    let (_, db1, _, rest) =
      bind-ok (attempt {F = Answer} (increment_failed_attempts env c.id)) (λ _. end_or_retry env c)
        db tt db' h in
    elim (Bool-cases (leb 5 (c.failed_attempts + 1))) [
      | inr few ↦ ground arith
      | inl many ↦
          let (_, db2, _, last) =
            bind-ok (attempt {F = Answer} (mark_challenge_used env c.id))
              (λ _. raise {A = Unit {0}} (too_many env c)) db1 tt db' (ground arith) in
          ground (arith, last)
    ]

enroll-valid :
    (env : Env) (req : Request) (c : MfaChallenge) (u : User) (db db' : Db)
    → enroll env req c u db ≡ (ok tt, db')
    → env.validate_totp (req.form "totp_secret") (req.form "code") ≡ true
unfolding enroll
enroll-valid env req c u db db' h =
    let given = not (is_empty (req.form "totp_secret")) in
    let valid = env.validate_totp (req.form "totp_secret") (req.form "code") in
    let (_, db1, h1, rest1) = bind-ok (require given _) _ db tt db' h in
    let (_, db2, h2, rest2) = bind-ok (require valid _) _ db1 tt db' rest1 in
    (require-ok valid _ db1 db2 h2).0

pub check_factor-Proven :
    (env : Env) (req : Request) (c : MfaChallenge) (u : User) (db db' : Db)
    → check_factor env req c u db ≡ (ok tt, db')
    → Proven env req c u
unfolding check_factor
check_factor-Proven env req c u db db' h =
    let code = req.form "code" in
    let totp = eq_iff c.method "totp" in
    elim (Bool-cases (c.method == "totp")) [
      | inl is_totp ↦ elim (Bool-cases u.totp_verified) [
        | inr unenrolled ↦
            inl (unenrolled, totp.0 is_totp, enroll-valid env req c u db db' (ground arith))
        | inl enrolled ↦ elim (Bool-cases (fits env c u code)) [
          | inl fit ↦ inr (inl (enrolled, totp.0 is_totp, ground arith))
          | inr unfit ↦ absurd (wrong_code-err env c db db' (ground arith))
        ]
      ]
      | inr not_totp ↦ elim (Bool-cases (c.method == "email")) [
        | inr unknown ↦ absurd (ground arith)
        | inl is_email ↦ elim (Bool-cases (fits env c u code)) [
          | inl fit ↦ inr (
              inr (
                (eq_iff c.method "email").0 is_email,
                (eq_iff (env.hash_sha256 code) c.code).0 (ground arith),
              ))
          | inr unfit ↦ absurd (wrong_code-err env c db db' (ground arith))
        ]
      ]
    ]
