-- ===== src/Consent/Grants.antt =====
-- The last step of each flow: what is in the database when a code has been granted, and that it is
-- granted where nothing stands against it.
use autentico.Prelude.{
  ℕ, ◌+◌, String, refl, none, ◌⊎◌, nat_eq, is_empty, eq_iff, ◌≡◌, sym, ap, ◌∙◌, true, false, not,
  some, ◌∷◌, ◌&&◌, arith, Option-cases, Bool-cases, inl, inr,
}
use autentico.Schema.{AuthCode, Db}
use autentico.Env.{Env, FlowParams, exec_if, insert_auth_code}
use autentico.Exec.{pure, ok, on_error}
use autentico.Exec.Inversion.{bind-ok, on_error-ok}
use autentico.Sql.{any_row}
use autentico.Browser.{Granted}
use autentico.AuthCode.{create_auth_code, stored_row, has_code, has_user}
use autentico.Consent.{code_row, granted, grant_code}

-- The database after a code is stored.
abbrev pub with_code : Env → AuthCode → Db → Db
with_code env c db = record db { auth_codes = stored_row env c ∷ db.auth_codes }

pub create_auth_code-ok :
    (env : Env) (c : AuthCode) (db db' : Db)
    → create_auth_code env c db ≡ (ok tt, db')
    → (db' ≡ with_code env c db) × (any_row (has_code c.code) db.auth_codes ≡ false)
unfolding create_auth_code exec_if
create_auth_code-ok env c db db' h = elim (Bool-cases (env.fails insert_auth_code)) [
  | inl refused ↦ absurd (ground arith)
  | inr up ↦
      elim (Bool-cases (has_user db c.user_id && not (any_row (has_code c.code) db.auth_codes))) [
        | inl fits ↦ (ground arith, ground arith)
        | inr clash ↦ absurd (ground arith)
      ]
]

-- What the row of a code says: an unused code for the user, with the parameters of the flow, the
-- configured expiry and the single sign-on session. A flow without a time of its login has the time
-- of the code.
pub record IsCodeFor (env : Env) (p : FlowParams) (user_id : String) (created : ℕ) (idp : String)
    (code : String) (c : AuthCode) : Type 0 where
  pub value : c.code ≡ code
  pub owner : c.user_id ≡ user_id
  pub client_id : c.client_id ≡ some p.client_id
  pub redirect_uri : c.redirect_uri ≡ p.redirect_uri
  pub scope : c.scope ≡ p.scope
  pub nonce : c.nonce ≡ p.nonce
  pub code_challenge : c.code_challenge ≡ p.code_challenge
  pub code_challenge_method : c.code_challenge_method ≡ p.code_challenge_method
  pub expires_at : c.expires_at ≡ env.now + env.config.authorization_code_expiration
  pub unused : c.used ≡ false
  pub created_at :
      ((created ≡ 0) × (c.created_at ≡ env.now))
      ⊎ ((nat_eq created 0 ≡ false) × (c.created_at ≡ created))
  pub idp_session_id :
      ((idp ≡ "") × (c.idp_session_id ≡ none))
      ⊎ ((is_empty idp ≡ false) × (c.idp_session_id ≡ some idp))

pub stored_row-IsCodeFor :
    (env : Env) (p : FlowParams) (user_id : String) (created : ℕ) (idp code : String)
    → IsCodeFor env p user_id created idp code
        (stored_row env (code_row env p user_id created idp code))
stored_row-IsCodeFor env p user_id created idp code = record {
  value = refl;
  owner = refl;
  client_id = refl;
  redirect_uri = refl;
  scope = refl;
  nonce = refl;
  code_challenge = refl;
  code_challenge_method = refl;
  expires_at = refl;
  unused = refl;
  created_at = elim (Bool-cases (nat_eq created 0)) [
    | inl unset ↦ inl (ground (arith, unset), rw unset refl)
    | inr set ↦ inr (set, rw set refl)
  ];
  idp_session_id = elim (Bool-cases (is_empty idp)) [
    | inl without ↦ inl ((eq_iff idp "").0 without, rw without refl)
    | inr given ↦ inr (given, rw given refl)
  ];
}

-- The client is sent the code and its own state.
pub record IsAnswerTo (p : FlowParams) (code : String) (g : Granted) : Type 0 where
  pub carried : g.code ≡ code
  pub redirect_uri : g.redirect_uri ≡ p.redirect_uri
  pub state : g.state ≡ p.state

-- A granted code is the one that was drawn, it was not in use, and its row is the one new thing in
-- the database.
pub record IsGranted (env : Env) (p : FlowParams) (user_id : String) (created : ℕ) (idp : String)
    (g : Granted) (db db' : Db) : Type 0 where
  pub drawn : env.secure_code 1 ≡ some g.code
  pub answer : g ≡ granted p g.code
  pub reply : IsAnswerTo p g.code g
  pub row :
      IsCodeFor env p user_id created idp g.code
        (stored_row env (code_row env p user_id created idp g.code))
  pub written : db' ≡ with_code env (code_row env p user_id created idp g.code) db
  pub fresh : any_row (has_code g.code) db.auth_codes ≡ false

pub grant_code-IsGranted :
    {E : Type 0} (env : Env) (failed : E) (p : FlowParams) (user_id : String) (created : ℕ)
    (idp : String) (g : Granted) (db db' : Db)
    → grant_code env failed p user_id created idp db ≡ (ok g, db')
    → IsGranted env p user_id created idp g db db'
unfolding grant_code
grant_code-IsGranted env failed p user_id created idp g db db' h =
    elim (Option-cases (env.secure_code 1)) [
      | inl broken ↦ absurd (ground arith)
      | inr (code, drawn) ↦
          let row = code_row env p user_id created idp code in
          let (_, db1, first, last) =
            bind-ok (on_error failed (create_auth_code env row)) (λ _. pure (granted p code)) db g
              db' (ground arith) in
          let (written, fresh) =
            create_auth_code-ok env row db db1
              (on_error-ok failed (create_auth_code env row) db tt db1 first) in
          let same : g.code ≡ code = ground arith in
          record {
            drawn = ground arith;
            answer = ground arith;
            reply = record { carried = refl; redirect_uri = ground arith; state = ground arith };
            row = stored_row-IsCodeFor env p user_id created idp g.code;
            written =
                (ground arith)
                ∙ written
                ∙ ap (λ k. with_code env (code_row env p user_id created idp k) db) (sym same);
            fresh = ap (λ k. any_row (has_code k) db.auth_codes) same ∙ fresh;
          }
    ]

-- A code is granted if one is drawn that is not in use, for a user of the table.
pub grant_code-total :
    {E : Type 0} (env : Env) (failed : E) (p : FlowParams) (user_id code : String) (created : ℕ)
    (idp : String) (db : Db)
    → env.fails insert_auth_code ≡ false
    → env.secure_code 1 ≡ some code
    → has_user db user_id ≡ true
    → any_row (has_code code) db.auth_codes ≡ false
    → grant_code env failed p user_id created idp db
      ≡ (ok (granted p code), with_code env (code_row env p user_id created idp code) db)
unfolding grant_code create_auth_code exec_if
grant_code-total env failed p user_id code created idp db up drawn owner fresh =
    rw (drawn, grant_code) (ground (arith, up, owner, fresh))
