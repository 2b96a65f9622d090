-- ===== src/Client/Credentials.antt =====
-- Who passes AuthenticateClientFromRequest.
use autentico.Prelude.{
  String, ◌≡◌, ◌⊎◌, true, false, not, none, some, Option, arith, eq_iff, is_empty, or_empty, inl,
  inr, Option-cases, Bool-cases, ◌==◌, ap, sym, ◌∙◌, if◌then◌else◌,
}
use autentico.Schema.{Client, Db}
use autentico.Env.{Env, query, select_client}
use autentico.Exec.{ok, pure, require, on_error, message, ◌>>=◌, ◌>>◌}
use autentico.Exec.Inversion.{bind-ok, on_error-ok, query-ok, require-ok}
use autentico.Sql.{find_row}
use autentico.Web.{Request}
use autentico.Client.{
  client_by_client_id, authenticate_client, authenticate_form, authenticate_secret,
  authenticate_client_from_request, is_registered,
}

-- A registered client, which is public or whose stored hash fits the secret.
abbrev pub Proves : Env → Db → String → String → Client → Type 0
Proves env db client_id secret c =
    (find_row (is_registered client_id) db.clients ≡ some c)
    × ((c.client_type ≡ "public")
        ⊎ ((is_empty secret ≡ false) × (env.compare_hash (or_empty c.client_secret) secret ≡ true)))

pub client_by_client_id-ok :
    (env : Env) (client_id : String) (c : Client) (db db' : Db)
    → client_by_client_id env client_id db ≡ (ok c, db')
    → (find_row (is_registered client_id) db.clients ≡ some c) × (db' ≡ db)
unfolding client_by_client_id
client_by_client_id-ok env client_id c db db' h =
    query-ok env select_client (λ d. find_row (is_registered client_id) d.clients) db c db' h

-- The part of AuthenticateClient behind the tests on the client.
secret-Proves :
    (env : Env) (secret : String) (x c : Client) (db db' : Db)
    → (if x.client_type == "public" then pure x else do
      require (not (is_empty secret)) (message "client secret required for confidential clients")
      require
          (env.compare_hash (or_empty x.client_secret) secret)
          (message "invalid client credentials")
      pure x)
        db
      ≡ (ok c, db')
    → ((c.client_type ≡ "public")
        ⊎ ((is_empty secret ≡ false) × (env.compare_hash (or_empty c.client_secret) secret ≡ true)))
      × (c ≡ x)
      × (db' ≡ db)
secret-Proves env secret x c db db' h = elim (Bool-cases (x.client_type == "public")) [
  | inl public ↦
      let same : c ≡ x = ground arith in
      (
        inl (ap (λ (k : Client). k.client_type) same ∙ (eq_iff x.client_type "public").0 public),
        same,
        ground arith,
      )
  | inr private ↦ elim (Bool-cases (is_empty secret)) [
    | inl missing ↦ absurd (ground arith)
    | inr given ↦ elim (Bool-cases (env.compare_hash (or_empty x.client_secret) secret)) [
      | inl fits ↦
          let same : c ≡ x = ground arith in
          (
            inr (
              given,
              ap (λ (k : Client). env.compare_hash (or_empty k.client_secret) secret) same ∙ fits,
            ),
            same,
            ground arith,
          )
      | inr wrong ↦ absurd (ground arith)
    ]
  ]
]

authenticate_client-Proves :
    (env : Env) (client_id secret : String) (c : Client) (db db' : Db)
    → authenticate_client env client_id secret db ≡ (ok c, db')
    → Proves env db client_id secret c × (db' ≡ db)
unfolding authenticate_client
authenticate_client-Proves env client_id secret c db db' h =
    let (x, db1, h1, rest1) =
      bind-ok (on_error _ (client_by_client_id env client_id)) _ db c db' h in
    let (row, same1) =
      client_by_client_id-ok env client_id x db db1
        (on_error-ok _ (client_by_client_id env client_id) db x db1 h1) in
    let (_, db2, h2, rest2) = bind-ok (require x.is_active _) _ db1 c db' rest1 in
    let (_, same2) = require-ok x.is_active _ db1 db2 h2 in
    let (proof, same, same3) = secret-Proves env secret x c db2 db' rest2 in
    ((row ∙ sym (ap some same), proof), same3 ∙ same2 ∙ same1)

authenticate_secret-Proves :
    (env : Env) (client_id secret : String) (o : Option Client) (db db' : Db)
    → authenticate_secret env client_id secret db ≡ (ok o, db')
    → (c : Client) × (o ≡ some c) × Proves env db client_id secret c × (db' ≡ db)
unfolding authenticate_secret
authenticate_secret-Proves env client_id secret o db db' h =
    let (_, db1, h1, rest1) = bind-ok (require (not (is_empty secret)) _) _ db o db' h in
    let (c, db2, h2, rest2) =
      bind-ok (authenticate_client env client_id secret) _ db1 o db' rest1 in
    let (proof, same) =
      authenticate_client-Proves env client_id secret c db db2 (ground (arith, h1, h2)) in
    (c, ground arith, proof, ground (arith, same))

authenticate_form-Proves :
    (env : Env) (client_id secret : String) (o : Option Client) (db db' : Db)
    → authenticate_form env client_id secret db ≡ (ok o, db')
    → (c : Client) × (o ≡ some c) × Proves env db client_id secret c × (db' ≡ db)
unfolding authenticate_form client_by_client_id query
authenticate_form-Proves env client_id secret o db db' h =
    elim (Option-cases (find_row (is_registered client_id) db.clients)) [
      | inl missing ↦ absurd (ground arith)
      | inr (x, row) ↦ elim (Bool-cases (x.client_type == "public")) [
        | inl public ↦
            (x, ground arith, (row, inl ((eq_iff x.client_type "public").0 public)), ground arith)
        | inr private ↦ authenticate_secret-Proves env client_id secret o db db' (ground arith)
      ]
    ]

abbrev pub presented : Request → String × String
presented req = elim req.basic_auth [
  | some (user, pass) ↦ (user, pass)
  | none ↦ (req.form "client_id", req.form "client_secret")
]

basic-Proves :
    (env : Env) (user pass : String) (o : Option Client) (db db' : Db)
    → (authenticate_client env user pass >>= λ c. pure (some c)) db ≡ (ok o, db')
    → (c : Client) × (o ≡ some c) × Proves env db user pass c × (db' ≡ db)
basic-Proves env user pass o db db' h =
    let (c, db1, h1, rest) = bind-ok (authenticate_client env user pass) _ db o db' h in
    let (proof, same) = authenticate_client-Proves env user pass c db db1 h1 in
    (c, ground arith, proof, ground (arith, same))

-- If the credentials of a request are accepted for a client, then it is the registered and active
-- client of the presented identifier, and it is public or its stored hash fits the presented,
-- non-empty secret. If no client is returned, then the request has neither an Authorization header
-- with basic credentials nor a client_id. The database is not changed.
pub authenticate_request-Proves :
    (env : Env) (req : Request) (o : Option Client) (db db' : Db)
    → authenticate_client_from_request env req db ≡ (ok o, db')
    → (((c : Client) × (o ≡ some c) × Proves env db (presented req).0 (presented req).1 c)
        ⊎ ((o ≡ none) × (req.basic_auth ≡ none) × (req.form "client_id" ≡ "")))
      × (db' ≡ db)
unfolding authenticate_client_from_request
authenticate_request-Proves env req o db db' h = elim (Option-cases req.basic_auth) [
  | inr ((user, pass), basic) ↦
      let (c, found, proof, same) = basic-Proves env user pass o db db' (ground (arith, basic)) in
      (inl (c, found, ground (arith, basic, proof)), same)
  | inl no_basic ↦ elim (Bool-cases (is_empty (req.form "client_id"))) [
    | inl nothing ↦
        (inr (ground arith, no_basic, (eq_iff (req.form "client_id") "").0 nothing), ground arith)
    | inr named ↦
        let (c, found, proof, same) =
          authenticate_form-Proves env (req.form "client_id") (req.form "client_secret") o db db'
            (ground arith) in
        (inl (c, found, ground (arith, no_basic, proof)), same)
  ]
]
