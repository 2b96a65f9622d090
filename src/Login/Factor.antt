-- ===== src/Login/Factor.antt =====
-- What a code has behind it that the login form has granted.
use mathlib.Core.Path.{subst}
use autentico.Prelude.{
  ◌≢◌, ◌≤◌, String, ◌≡◌, ◌⊎◌, ap, ◌∙◌, true, false, not, none, some, ◌==◌, ◌&&◌, arith, is_empty,
  Option-cases, Bool-cases, inl, inr, eq_iff,
}
use autentico.Schema.{User, Client, TrustedDevice, Db}
use autentico.Env.{Env, FlowParams, query, select_trusted}
use autentico.Exec.{ok, pure, raise, require, on_error, map_error}
use autentico.Exec.Inversion.{bind-ok, require-ok, map_error-ok}
use autentico.Sql.{find_row}
use autentico.Web.{Request}
use autentico.Browser.{Answer, Granted}
use autentico.IdpSession.{finalize_login}
use autentico.TrustedDevice.{
  is_device_trusted, trusted_device_by_id_including_expired, has_id, is_trusted_for,
}
use autentico.Consent.Grants.{IsGranted}
use autentico.Mfa.{create_mfa_challenge}
use autentico.Mfa.Get.{mfa_page}
use autentico.Mfa.Post.{finish, with_cookie, non_empty}
use autentico.Mfa.Post.Factor.{finish-IsGranted}
use autentico.Mfa.Post.Passed.{Completed}
use autentico.Login.{
  enter, skips_mfa, wants_mfa, after_device, start_mfa, challenge, complete_login, mfa_method,
  challenge_row, something_wrong,
}

-- The cookie names a trusted device of the user that has not expired.
pub record Trusts (env : Env) (req : Request) (u : User) (db : Db) : Type 0 where
  pub device : TrustedDevice
  pub listed : find_row (has_id req.device_cookie) db.trusted_devices ≡ some device
  pub owner : device.user_id ≡ u.id
  pub in_time : env.now ≤ device.expires_at

trusted-Trusts :
    (env : Env) (u : User) (req : Request) (db db' : Db)
    → is_device_trusted {E = Answer} env u.id req.device_cookie db ≡ (ok true, db')
    → Trusts env req u db
unfolding is_device_trusted trusted_device_by_id_including_expired query
trusted-Trusts env u req db db' h = elim (Bool-cases (is_empty req.device_cookie)) [
  | inl without ↦ absurd (ground arith)
  | inr cookie ↦ elim (Bool-cases (env.fails select_trusted)) [
    | inl refused ↦ absurd (ground arith)
    | inr up ↦ elim (Option-cases (find_row (has_id req.device_cookie) db.trusted_devices)) [
      | inl missing ↦ absurd (ground arith)
      | inr (d, row) ↦ elim (Bool-cases (is_trusted_for env u.id (some d))) [
        | inr foreign ↦ absurd (ground arith)
        | inl trusted ↦ record {
          device = d;
          listed = row;
          owner = (eq_iff d.user_id u.id).0 (ground arith);
          in_time = ground arith;
        }
      ]
    ]
  ]
]

-- The second factor is not wanted, or the browser is trusted.
abbrev pub Excused : Env → Request → User → Db → Type 0
Excused env req u db = (wants_mfa env u ≡ false) ⊎ Trusts env req u db

skips_mfa-Trusts :
    (env : Env) (req : Request) (u : User) (db db' : Db)
    → skips_mfa {E = Answer} env req u db ≡ (ok true, db')
    → Trusts env req u db
unfolding skips_mfa
skips_mfa-Trusts env req u db db' h = elim (Bool-cases env.config.trust_device_enabled) [
  | inr disabled ↦ absurd (ground arith)
  | inl enabled ↦ trusted-Trusts env u req db db' (ground arith)
]

-- A challenge is no code.
challenge-err :
    (env : Env) (p : FlowParams) (u : User) (method : String) (g : Granted) (db db' : Db)
    → challenge env p u method db ≢ (ok g, db')
unfolding challenge
challenge-err env p u method g db db' h = elim (Option-cases (env.secure_code 3)) [
  | inl broken ↦ ground arith
  | inr (id, drawn) ↦
      let (_, db1, _, rest) =
        bind-ok
          (on_error (something_wrong env p)
            (create_mfa_challenge env (challenge_row env p u method id)))
          (λ _. raise {A = Granted} (mfa_page env id)) db g db' (ground arith) in
      ground (arith, rest)
]

start_mfa-err :
    (env : Env) (p : FlowParams) (u : User) (g : Granted) (db db' : Db)
    → start_mfa env p u db ≢ (ok g, db')
unfolding start_mfa
start_mfa-err env p u g db db' h = elim (Option-cases (mfa_method env u)) [
  | inl without ↦ ground arith
  | inr (method, chosen) ↦ challenge-err env p u method g db db' (ground arith)
]

complete_login-Completed :
    (env : Env) (req : Request) (p : FlowParams) (c : Client) (u : User) (g : Granted) (db db' : Db)
    → complete_login env req p c u db ≡ (ok g, db')
    → Completed env p u.id true none g db'
unfolding complete_login
complete_login-Completed env req p c u g db db' h =
    let failed = something_wrong env p in
    let (idp, db1, _, rest1) = bind-ok (finalize_login {E = Answer} env req u.id) _ db g db' h in
    let (plain, db2, h2, rest2) =
      bind-ok (map_error (with_cookie idp) (finish env failed p (some c) u.id idp))
        (λ (k : Granted). pure (record k { sso_cookie = non_empty idp })) db1 g db' rest1 in
    let last : db2 ≡ db' = ground arith in
    let (consented, granted) =
      finish-IsGranted env failed p (some c) u.id idp plain db1 db2
        (map_error-ok (with_cookie idp) (finish env failed p (some c) u.id idp) db1 plain db2 h2) in
    record {
      idp = idp;
      client = some c;
      before = db1;
      plain = plain;
      consented = consented;
      code = subst (λ d. IsGranted env p u.id 0 idp plain db1 d) last granted;
      answer = ground (arith, granted.answer);
    }

-- Behind the password: no gate stands open, no second factor is missing, and the flow is completed.
pub record Entered (env : Env) (req : Request) (p : FlowParams) (u : User) (g : Granted)
    (db db' : Db) : Type 0 where
  pub verified :
      (env.config.require_email_verification && not u.is_email_verified && not (u.role == "admin"))
      ≡ false
  pub password : u.require_password_change ≡ false
  pub excused : Excused env req u db
  pub done : Completed env p u.id true none g db'

pub enter-Entered :
    (env : Env) (req : Request) (p : FlowParams) (c : Client) (u : User) (g : Granted) (db db' : Db)
    → enter env req p c u db ≡ (ok g, db')
    → Entered env req p u g db db'
unfolding enter
enter-Entered env req p c u g db db' h =
    let unverified =
      env.config.require_email_verification && not u.is_email_verified && not (u.role == "admin") in
    let (_, db1, h1, rest1) = bind-ok (require (not unverified) _) _ db g db' h in
    let (verified, same1) = require-ok (not unverified) _ db db1 h1 in
    let (_, db2, h2, rest2) =
      bind-ok (require (not u.require_password_change) _) _ db1 g db' rest1 in
    let (password, same2) = require-ok (not u.require_password_change) _ db1 db2 h2 in
    let (trusted, db3, h3, rest3) =
      bind-ok (skips_mfa {E = Answer} env req u) (λ t. after_device env req p c u t) db2 g db'
        rest2 in
    elim (Bool-cases (wants_mfa env u && not trusted)) [
      | inl wanted ↦ absurd (start_mfa-err env p u g db3 db' (ground arith))
      | inr excused ↦ record {
        verified = ground (arith, verified);
        password = ground (arith, password);
        excused = elim (Bool-cases trusted) [
          | inr untrusted ↦ inl (ground arith)
          | inl is_trusted ↦ inr (
              subst (λ d. Trusts env req u d) (same2 ∙ same1)
                (skips_mfa-Trusts env req u db2 db3 (h3 ∙ ap (λ b. (ok b, db3)) is_trusted)))
        ];
        done = complete_login-Completed env req p c u g db3 db' (ground arith);
      }
    ]
