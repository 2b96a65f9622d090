-- ===== src/Authorize/Answers.antt =====
-- What the authorization endpoint answers where it grants no code.
use autentico.Prelude.{
  String, ◌≡◌, ◌⊎◌, refl, true, some, ◌==◌, arith, inl, inr, Bool-cases, Option-cases, eq_iff,
}
use autentico.Schema.{Client, Db}
use autentico.Env.{Env, query, select_client}
use autentico.Exec.{err}
use autentico.Exec.Errors.{
  Errors, Errors-raise, Errors-if, Errors-bind, Errors-recover, errors_rules,
}
use autentico.Exec.Forward.{bind_of_err}
use autentico.Sql.{find_row}
use autentico.Web.{Request}
use autentico.Browser.{Answer, error_page, AuthorizeRequest, is_redirect_uri}
use autentico.Client.{is_registered, client_by_client_id, is_valid_redirect_uri}
use autentico.Consent.{needs_consent, redirect_to_consent}
use autentico.Authorize.{
  handle_authorize, trusted_client, check_request, ask_user, refuse_silently, authorize_request,
  flow_of, redirect_with_error, try_auto_login, AutoLoginResult,
}
use autentico.Authorize.Authorized.{Trusted}

-- The answers to a request that must not show a page: the error page for a redirect URI or a client
-- that cannot be trusted, the way to the consent page, and a redirect to the client with an error.
abbrev pub IsQuiet : Env → AuthorizeRequest → Answer → Type 0
IsQuiet env r a =
    (a ≡ error_page 400)
    ⊎ (a ≡ redirect_to_consent env (flow_of r))
    ⊎ ((e : String) × (a ≡ redirect_with_error r e))

IsQuiet-error :
    (env : Env) (r : AuthorizeRequest) (e : String) → IsQuiet env r (redirect_with_error r e)
IsQuiet-error env r e = inr (inr (e, refl))

trusted_client-Errors :
    (env : Env) (r : AuthorizeRequest) → Errors (IsQuiet env r) (trusted_client env r)
unfolding trusted_client
trusted_client-Errors env r =
    let page : IsQuiet env r (error_page 400) = inl refl in search (errors_rules, page)

check_request-Errors :
    (env : Env) (req : Request) (r : AuthorizeRequest) (c : Client)
    → Errors (IsQuiet env r) (check_request env req r c)
unfolding check_request
check_request-Errors env req r c = search (errors_rules, IsQuiet-error env r) depth 20

needs_consent-Errors :
    (P : Answer → Type 0) (env : Env) (c : Client) (u client_id scope prompt : String)
    → Errors P (needs_consent {E = Answer} env c.consent_required u client_id scope prompt)
unfolding needs_consent
needs_consent-Errors P env c u client_id scope prompt = search (errors_rules)

refuse_silently-Errors :
    (env : Env) (r : AuthorizeRequest) (c : Client) (result : AutoLoginResult)
    → Errors (IsQuiet env r) (refuse_silently env r c result)
unfolding refuse_silently
refuse_silently-Errors env r c result =
    search (errors_rules, IsQuiet-error env r, needs_consent-Errors)

ask_user-Errors :
    (env : Env) (req : Request) (r : AuthorizeRequest) (c : Client) (result : AutoLoginResult)
    → r.prompt == "none" ≡ true
    → Errors (IsQuiet env r) (ask_user env req r c result)
unfolding ask_user
ask_user-Errors env req r c result silent =
    let consent : IsQuiet env r (redirect_to_consent env (flow_of r)) = inr (inl refl) in
    rw (silent, ask_user)
      (Errors-if result.needs_consent _ _
        (Errors-raise (redirect_to_consent env (flow_of r)) consent)
        (refuse_silently-Errors env r c result))

-- With prompt=none, every answer of the authorization endpoint without a code is the error page
-- with status 400, a redirect to the consent page, or a redirect to the client with an error: it
-- never shows the login page or the sign-up page.
pub handle_authorize-IsQuiet :
    (env : Env) (req : Request) (a : Answer) (db db' : Db)
    → (authorize_request req).prompt ≡ "none"
    → handle_authorize env req db ≡ (err a, db')
    → IsQuiet env (authorize_request req) a
unfolding handle_authorize
handle_authorize-IsQuiet env req a db db' silent h =
    let r = authorize_request req in
    let all : Errors (IsQuiet env r) (handle_authorize env req) =
      Errors-bind (trusted_client env r) _ (trusted_client-Errors env r) (λ c.
        Errors-bind (check_request env req r c) _ (check_request-Errors env req r c) (λ _.
          Errors-recover (try_auto_login env req r c) _
            (λ result. ask_user-Errors env req r c result ((eq_iff r.prompt "none").1 silent)))) in
    all.at db a db' h

-- If no registered client allows a redirect URI, then the answer is an error page.
untrusted-error :
    (env : Env) (r : AuthorizeRequest) (db : Db)
    → ((c : Client) → ¬ Trusted env r c db)
    → trusted_client env r db ≡ (err (error_page 400), db)
unfolding trusted_client client_by_client_id query
untrusted-error env r db untrusted = elim (Bool-cases (is_redirect_uri env r.redirect_uri)) [
  | inr malformed ↦ ground arith
  | inl formed ↦ elim (Bool-cases (env.fails select_client)) [
    | inl refused ↦ ground arith
    | inr up ↦ elim (Option-cases (find_row (is_registered r.client_id) db.clients)) [
      | inl unknown ↦ ground arith
      | inr (c, row) ↦ elim (Bool-cases (is_valid_redirect_uri env (some c) r.redirect_uri)) [
        | inl allowed ↦
            absurd (untrusted c (record { is_uri = formed; registered = row; allowed = allowed }))
        | inr foreign ↦ elim (Bool-cases c.is_active) [
          | inl active ↦ ground arith
          | inr inactive ↦ ground arith
        ]
      ]
    ]
  ]
]

-- A request whose redirect URI is no URL with a scheme and a host, whose client is not registered,
-- or whose client does not allow the redirect URI gets the error page with status 400, and changes
-- nothing: there is no redirect to an address that the client has not registered.
pub handle_authorize-untrusted :
    (env : Env) (req : Request) (db : Db)
    → ((c : Client) → ¬ Trusted env (authorize_request req) c db)
    → handle_authorize env req db ≡ (err (error_page 400), db)
unfolding handle_authorize
handle_authorize-untrusted env req db untrusted =
    let r = authorize_request req in
    bind_of_err (trusted_client env r) _ db (error_page 400) db (untrusted-error env r db untrusted)
