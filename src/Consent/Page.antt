-- ===== src/Consent/Page.antt =====
-- From the consent page to the code.
use mathlib.Core.Path.{subst}
use mathlib.Core.Option.{some_inj}
use autentico.Prelude.{
  String, ◌≡◌, refl, sym, ap, ◌∙◌, true, false, not, some, ◌==◌, arith, is_empty, is_none, eq_iff,
  List,
}
use autentico.Schema.{IdpSession, Client, AuthCode, Db}
use autentico.Env.{
  Env, FlowParams, Healthy, exec_if, select_idp_session, select_client, upsert_consent_row,
  insert_auth_code,
}
use autentico.Exec.{ok, require, on_error}
use autentico.Exec.Inversion.{bind-ok}
use autentico.Exec.Forward.{bind_of_ok, on_error_of_ok, require_of_true, query_of_some}
use autentico.Text.{join_lines}
use autentico.Sql.{find_row, any_row}
use autentico.Sql.Laws.{find_row_sound, first_row}
use autentico.Web.{Request}
use autentico.Browser.{Answer, http_error, consent_page, Granted}
use autentico.AuthCode.{has_code, has_user, stored_row}
use autentico.IdpSession.{is_active, idp_session_by_id}
use autentico.Client.{is_registered, client_by_client_id, is_valid_redirect_uri}
use autentico.Consent.{
  validate_session, handle_consent_get, handle_consent_post, decide, params_of, sign_consent,
  verify_consent_signature, upsert_consent, upsert_rows, consent_row, granted, has_id,
  describe_scopes, texts, code_row,
}
use autentico.Consent.Approve.{validate_session-ok}
use autentico.Consent.Table.{view, view-upsert_same}
use autentico.Consent.Grants.{
  grant_code-total, with_code, IsCodeFor, IsAnswerTo, stored_row-IsCodeFor,
}

-- What a granted consent and a granted code need: identifiers are drawn that are not in use, and
-- the user exists.
pub record CanGrant (env : Env) (user_id code id : String) (db : Db) : Type 0 where
  pub drawn_code : env.secure_code 1 ≡ some code
  pub drawn_id : env.secure_code 2 ≡ some id
  pub fresh_code : any_row (has_code code) db.auth_codes ≡ false
  pub fresh_id : any_row (has_id id) db.user_consents ≡ false
  pub owner : has_user db user_id ≡ true

upsert_consent-total :
    (env : Env) (user_id client_id scopes id : String) (db : Db)
    → env.fails upsert_consent_row ≡ false
    → env.secure_code 2 ≡ some id
    → any_row (has_id id) db.user_consents ≡ false
    → upsert_consent env user_id client_id scopes db ≡ (
      ok tt,
      record db {
        user_consents =
            upsert_rows env (consent_row env id user_id client_id scopes) db.user_consents;
      },
    )
unfolding upsert_consent exec_if
upsert_consent-total env user_id client_id scopes id db up drawn fresh =
    rw (drawn, upsert_consent) (ground (arith, up, fresh))

-- The database after a user has agreed.
abbrev decided : Env → FlowParams → IdpSession → String → String → Db → Db
decided env p s code id db = with_code env (code_row env p s.user_id 0 s.id code) (record db {
  user_consents =
      upsert_rows env (consent_row env id s.user_id p.client_id p.scope) db.user_consents;
})

decide-total :
    (env : Env) (req : Request) (p : FlowParams) (s : IdpSession) (code id : String) (db : Db)
    → Healthy env
    → req.form "action" == "deny" ≡ false
    → CanGrant env s.user_id code id db
    → decide env req p s db ≡ (ok (granted p code), decided env p s code id db)
unfolding decide
decide-total env req p s code id db healthy agreed can =
    let fail : Answer = http_error 500 "server_error" in
    let db1 : Db = record db {
      user_consents =
          upsert_rows env (consent_row env id s.user_id p.client_id p.scope) db.user_consents;
    } in
    let stored = on_error_of_ok fail (upsert_consent env s.user_id p.client_id p.scope) db tt db1 (
      upsert_consent-total env s.user_id p.client_id p.scope id db (healthy upsert_consent_row)
        can.drawn_id can.fresh_id) in
    bind_of_ok (require (not (req.form "action" == "deny")) _) _ db tt db
      (require_of_true (not (req.form "action" == "deny")) _ db (ground arith))
    ∙ bind_of_ok (on_error fail (upsert_consent env s.user_id p.client_id p.scope)) _ db tt db1
        stored
    ∙ grant_code-total env fail p s.user_id code 0 s.id db1 (healthy insert_auth_code)
        can.drawn_code can.owner can.fresh_code

validate_session-total :
    (env : Env) (req : Request) (s : IdpSession) (db : Db)
    → env.fails select_idp_session ≡ false
    → is_empty req.sso_cookie ≡ false
    → find_row (is_active req.sso_cookie) db.idp_sessions ≡ some s
    → validate_session env req db ≡ (ok s, db)
unfolding validate_session idp_session_by_id
validate_session-total env req s db up cookie live =
    let active = find_row_sound (is_active req.sso_cookie) db.idp_sessions live in
    let read =
      on_error_of_ok (http_error 401 "login_required") (idp_session_by_id env req.sso_cookie) db s
        db
        (query_of_some env select_idp_session
          (λ d. find_row (is_active req.sso_cookie) d.idp_sessions) db s up live) in
    bind_of_ok (require (not (is_empty req.sso_cookie)) _) _ db tt db
      (require_of_true (not (is_empty req.sso_cookie)) _ db (ground arith))
    ∙ bind_of_ok (on_error _ (idp_session_by_id env req.sso_cookie)) _ db s db read
    ∙ bind_of_ok (require (is_none s.deactivated_at) _) _ db tt db
        (require_of_true (is_none s.deactivated_at) _ db (ground arith))

-- What the page carries: the session's user has signed its parameters.
record IsPage (env : Env) (req : Request) (page : Answer) (db : Db) : Type 0 where
  session : IdpSession
  cookie : is_empty req.sso_cookie ≡ false
  live : find_row (is_active req.sso_cookie) db.idp_sessions ≡ some session
  shown :
      page
      ≡ consent_page
          (params_of req.query)
          (describe_scopes (req.query "scope"))
          (sign_consent env (params_of req.query) session.user_id)

handle_consent_get-IsPage :
    (env : Env) (req : Request) (page : Answer) (db db' : Db)
    → handle_consent_get env req db ≡ (ok page, db')
    → IsPage env req page db
unfolding handle_consent_get
handle_consent_get-IsPage env req page db db' h =
    let p = params_of req.query in
    let (s, db1, h1, rest1) = bind-ok (validate_session env req) _ db page db' h in
    let (cookie, live, same) = validate_session-ok env req s db db1 h1 in
    let (c, db2, h2, rest2) =
      bind-ok (on_error _ (client_by_client_id env p.client_id)) _ db1 page db' rest1 in
    record { session = s; cookie = cookie; live = live; shown = unfold params_of in ground arith }

abbrev page_params : Answer → FlowParams → FlowParams
page_params (consent_page p _ _) q = p
page_params _ q = q

abbrev page_signature : Answer → String
page_signature (consent_page _ _ s) = s
page_signature _ = ""

-- What has been granted: the client is sent a code whose row is for the session's user and has
-- exactly the parameters, and the scopes are recorded as granted.
pub record IsApproved (env : Env) (p : FlowParams) (s : IdpSession) (code : String) (g : Granted)
    (db' : Db) : Type 0 where
  pub answer : IsAnswerTo p code g
  pub row : AuthCode
  pub stored : find_row (has_code code) db'.auth_codes ≡ some row
  pub exact : IsCodeFor env p s.user_id 0 s.id code row
  pub recorded : view db'.user_consents s.user_id p.client_id ≡ some p.scope

decided-IsApproved :
    (env : Env) (p : FlowParams) (s : IdpSession) (code id : String) (db : Db)
    → IsApproved env p s code (granted p code) (decided env p s code id db)
decided-IsApproved env p s code id db =
    let row = stored_row env (code_row env p s.user_id 0 s.id code) in
    record {
      answer = record { carried = refl; redirect_uri = refl; state = refl };
      row = row;
      stored = first_row (has_code code) row db.auth_codes ((eq_iff code code).1 refl);
      exact = stored_row-IsCodeFor env p s.user_id 0 s.id code;
      recorded =
          view-upsert_same env (consent_row env id s.user_id p.client_id p.scope) db.user_consents;
    }

-- A user who agrees to a consent page gets a code for exactly its parameters, and the scopes are
-- recorded as granted: when the form sends back the parameters and the signature of the page, with
-- the cookie of the same session and the same CSRF secret, its client is registered and allows the
-- redirect URI, new identifiers are drawn and the database refuses no statement. Nothing else is
-- asked of the scopes, nor of a code challenge.
pub page-approve :
    (env later : Env) (get post : Request) (p : FlowParams) (shown : List (String × String))
    (signature : String) (c : Client) (s : IdpSession) (code id : String) (db db1 : Db)
    → handle_consent_get env get db ≡ (ok (consent_page p shown signature), db1)
    → params_of post.form ≡ p
    → post.form "consent_sig" ≡ signature
    → post.form "action" == "deny" ≡ false
    → post.parses ≡ true
    → post.sso_cookie ≡ get.sso_cookie
    → Healthy later
    → later.hmac ≡ env.hmac
    → find_row (is_registered p.client_id) db.clients ≡ some c
    → is_valid_redirect_uri later (some c) p.redirect_uri ≡ true
    → find_row (is_active get.sso_cookie) db.idp_sessions ≡ some s
    → CanGrant later s.user_id code id db
    → (g : Granted) × (db' : Db) × (handle_consent_post later post db ≡ (ok g, db'))
      × IsApproved later p s code g db'
unfolding handle_consent_post verify_consent_signature sign_consent client_by_client_id
page-approve env later get post p shown signature c s code id db db1 h sent signed agreed parses
      cookie healthy secret registered allowed signed_in can =
    let q = params_of post.form in
    let page = handle_consent_get-IsPage env get _ db db1 h in
    let same_session : page.session ≡ s = some_inj.0 (sym page.live ∙ signed_in) in
    let asked : params_of get.query ≡ p = ap (λ a. page_params a p) (sym page.shown) in
    let same : q ≡ params_of get.query = sent ∙ sym asked in
    let made : sign_consent env (params_of get.query) s.user_id ≡ signature =
      ap (λ k. sign_consent env (params_of get.query) k.user_id) (sym same_session)
      ∙ ap page_signature (sym page.shown) in
    let genuine : sign_consent later q s.user_id ≡ post.form "consent_sig" =
      ap (λ f. f (join_lines (texts q s.user_id))) secret
      ∙ ap (λ k. sign_consent env k s.user_id) same
      ∙ made
      ∙ sym signed in
    let present : is_empty post.sso_cookie ≡ false = ap is_empty cookie ∙ page.cookie in
    let live : find_row (is_active post.sso_cookie) db.idp_sessions ≡ some s =
      ap (λ k. find_row (is_active k) db.idp_sessions) cookie ∙ signed_in in
    let known : find_row (is_registered q.client_id) db.clients ≡ some c =
      ap (λ k. find_row (is_registered k.client_id) db.clients) sent ∙ registered in
    let allows : is_valid_redirect_uri later (some c) q.redirect_uri ≡ true =
      ap (λ k. is_valid_redirect_uri later (some c) k.redirect_uri) sent ∙ allowed in
    let done = decide-total later post q s code id db healthy agreed can in
    (
      granted q code,
      decided later q s code id db,
      bind_of_ok (require post.parses _) _ db tt db (require_of_true post.parses _ db parses)
          ∙ bind_of_ok (validate_session later post) _ db s db
              (validate_session-total later post s db (healthy select_idp_session) present live)
          ∙ bind_of_ok (require (sign_consent later q s.user_id == post.form "consent_sig") _) _ db
              tt db
              (require_of_true (sign_consent later q s.user_id == post.form "consent_sig") _ db
                ((eq_iff (sign_consent later q s.user_id) (post.form "consent_sig")).1 genuine))
          ∙ bind_of_ok (on_error _ (client_by_client_id later q.client_id)) _ db c db (
              on_error_of_ok (http_error 400 "invalid_client")
                (client_by_client_id later q.client_id) db c db
                (query_of_some later select_client
                  (λ d. find_row (is_registered q.client_id) d.clients) db c (healthy select_client)
                  known))
          ∙ bind_of_ok (require (is_valid_redirect_uri later (some c) q.redirect_uri) _) _ db tt db
              (require_of_true (is_valid_redirect_uri later (some c) q.redirect_uri) _ db allows)
          ∙ done,
      subst (λ k. IsApproved later k s code (granted q code) (decided later q s code id db)) sent
          (decided-IsApproved later q s code id db),
    )
