-- ===== src/Token/Handler/Endpoint.antt =====
-- The whole token endpoint: what a successful answer has passed.
use mathlib.Core.Path.{subst}
use autentico.Prelude.{
  ◌≡◌, ◌⊎◌, ap, sym, ◌∙◌, true, none, some, Option, arith, eq_iff, Bool-cases, inl, inr, ◌==◌,
}
use autentico.Schema.{Client, Db}
use autentico.Env.{Env}
use autentico.Exec.{ok, http, require, on_error, ◌>>=◌}
use autentico.Exec.Inversion.{bind-ok, on_error-ok, require-ok}
use autentico.Web.{Request}
use autentico.Client.{authenticate_client_from_request, is_grant_type_allowed}
use autentico.Client.Credentials.{Proves, presented, authenticate_request-Proves}
use autentico.Token.CodeGrant.{validate_token_request}
use autentico.Token.Grants.{Grant, grant}
use autentico.Token.Handler.{
  handle_token, admit, issue, client_credentials, TokenResponse, token_request,
}
use autentico.Token.Handler.Issue.{IsIssued, issue-IsIssued}

-- Who has presented the request: a client that has proved who it is, or nobody by name.
abbrev pub Presented : Env → Request → Option Client → Db → Type 0
Presented env req o db =
    ((c : Client) × (o ≡ some c) × Proves env db (presented req).0 (presented req).1 c)
    ⊎ ((o ≡ none) × (req.basic_auth ≡ none) × (req.form "client_id" ≡ ""))

pub record IsAdmitted (env : Env) (req : Request) (o : Option Client) (db : Db) : Type 0 where
  pub post : req.method ≡ "POST"
  pub parsed : req.parses ≡ true
  pub known : validate_token_request (token_request req) ≡ true
  pub caller : Presented env req o db
  pub allowed : is_grant_type_allowed env o (token_request req).grant_type ≡ true

admit-IsAdmitted :
    (env : Env) (req : Request) (o : Option Client) (db db' : Db)
    → admit env req db ≡ (ok o, db')
    → IsAdmitted env req o db × (db' ≡ db)
unfolding admit
admit-IsAdmitted env req o db db' h =
    let r = token_request req in
    let (_, db1, h1, rest1) =
      bind-ok (require (req.method == "POST") (http 400 "invalid_request")) _ db o db' h in
    let (_, db2, h2, rest2) =
      bind-ok (require req.parses (http 400 "invalid_request")) _ db1 o db' rest1 in
    let (_, db3, h3, rest3) =
      bind-ok (require (validate_token_request r) (http 400 "invalid_request")) _ db2 o db' rest2 in
    let (c, db4, h4, rest4) =
      bind-ok (on_error (http 401 "invalid_client") (authenticate_client_from_request env req)) _
        db3 o db' rest3 in
    let (_, db5, h5, rest5) =
      bind-ok (require (is_grant_type_allowed env c r.grant_type) (http 400 "unauthorized_client"))
        _ db4 o db' rest4 in
    let (post, same1) = require-ok (req.method == "POST") (http 400 "invalid_request") db db1 h1 in
    let (parsed, same2) = require-ok req.parses (http 400 "invalid_request") db1 db2 h2 in
    let (known, same3) =
      require-ok (validate_token_request r) (http 400 "invalid_request") db2 db3 h3 in
    let (who, same4) = authenticate_request-Proves env req c db3 db4 (
      on_error-ok (http 401 "invalid_client") (authenticate_client_from_request env req) db3 c db4
        h4) in
    let (allowed, same5) =
      require-ok (is_grant_type_allowed env c r.grant_type) (http 400 "unauthorized_client") db4 db5
        h5 in
    let before = same3 ∙ same2 ∙ same1 in
    let is_c : o ≡ c = ground arith in
    let last : db' ≡ db5 = ground arith in
    (
      record {
        post = (eq_iff req.method "POST").0 post;
        parsed = parsed;
        known = known;
        caller =
            subst (λ d. Presented env req o d) before
              (subst (λ x. Presented env req x db3) (sym is_c) who);
        allowed = ap (λ x. is_grant_type_allowed env x r.grant_type) is_c ∙ allowed;
      },
      last ∙ same5 ∙ same4 ∙ before,
    )

-- The token comes from client_credentials, or from another grant and the code that issues.
abbrev pub Answered : Env → Request → Option Client → Db → Db → TokenResponse → Type 0
Answered env req o db db' resp =
    (((token_request req).grant_type ≡ "client_credentials")
      × (client_credentials env o (token_request req) db ≡ (ok resp, db')))
    ⊎ ((g : Grant) × (db1 : Db) × (grant env o (token_request req) db ≡ (ok g, db1))
        × IsIssued env req o g db1 db' resp)

-- If the token endpoint answers with a token, then the request is a parsed POST of a known grant
-- type; it comes from a registered client that is public or has proved its secret, or names no
-- client at all; the client may use the grant type; and the token is that of a granted
-- client_credentials, or has been issued for a grant that the grant type's own tests have granted.
pub handle_token-Answered :
    (env : Env) (req : Request) (resp : TokenResponse) (db db' : Db)
    → handle_token env req db ≡ (ok resp, db')
    → (o : Option Client) × IsAdmitted env req o db × Answered env req o db db' resp
unfolding handle_token
handle_token-Answered env req resp db db' h =
    let r = token_request req in
    let (o, db1, h1, rest) = bind-ok (admit env req) _ db resp db' h in
    let (admitted, same) = admit-IsAdmitted env req o db db1 h1 in
    elim (Bool-cases (r.grant_type == "client_credentials")) [
      | inl own ↦ (
        o,
        admitted,
        inl ((eq_iff r.grant_type "client_credentials").0 own, ground (arith, same)),
      )
      | inr shared ↦
          let run : (grant env o r >>= issue env req o) db1 ≡ (ok resp, db') = ground arith in
          let (g, db2, granted, issued) =
            bind-ok (grant env o r) (issue env req o) db1 resp db' run in
          (
            o,
            admitted,
            inr (
              g,
              db2,
              ground (arith, granted, same),
              issue-IsIssued env req o g resp db2 db' issued,
            ),
          )
    ]
