-- ===== src/DeviceCode/Requested.antt =====
-- What a granted device authorization has checked and stored.
use autentico.Prelude.{
  ◌+◌, ◌≡◌, ◌≤◌, refl, ap, sym, ◌∙◌, arith, String, Bool, true, false, not, none, some, List, ◌∷◌,
  ◌==◌, is_empty, eq_iff,
}
use autentico.Schema.{DeviceCode, Client, Db}
use autentico.Env.{Env, Healthy, query, exec, exec_if, select_device_code, set_last_polled}
use autentico.Exec.{http, ok, err, lift, require, on_error}
use autentico.Exec.Inversion.{bind-ok, require-ok}
use autentico.Sql.{find_row}
use autentico.Web.{Request}
use autentico.Client.{client_by_client_id, is_grant_type_allowed, validate_scopes, is_registered}
use autentico.Token.CodeGrant.{TokenRequest}
use autentico.Token.DeviceGrant.{
  handle_device_code_grant, find_device, poll_code, answer, is_too_soon,
}
use autentico.DeviceCode.{has_code, create_device_code, device_code_by_code, update_last_polled_at}
use autentico.DeviceCode.Authorize.{
  DeviceAuthorizationResponse, handle_device_authorization, issue_device_code, generate_user_code,
  device_code_grant_type, effective_scope, pending_code, authorization_response, format_user_code,
  drawn,
}

pub record IsRequested (env : Env) (req : Request) (resp : DeviceAuthorizationResponse)
    (db db' : Db) : Type 0 where
  pub client : Client
  pub registered : find_row (is_registered (req.form "client_id")) db.clients ≡ some client
  pub permitted : is_grant_type_allowed env (some client) device_code_grant_type ≡ true
  pub scope_valid : validate_scopes (some client) (req.form "scope") ≡ true
  pub user_code : String
  pub shown : resp.user_code ≡ format_user_code user_code
  pub written : db' ≡ record db {
    device_codes =
        pending_code env resp.device_code user_code
          (req.form "client_id")
          (effective_scope client (req.form "scope"))
        ∷ db.device_codes;
  }

record Stored (env : Env) (client_id scope : String) (resp : DeviceAuthorizationResponse)
    (db db' : Db) : Type 0 where
  user_code : String
  shown : resp.user_code ≡ format_user_code user_code
  written : db' ≡ record db {
    device_codes = pending_code env resp.device_code user_code client_id scope ∷ db.device_codes;
  }

create-ok :
    (env : Env) (d u client_id scope : String) (db db' : Db)
    → on_error
        (http 500 "server_error")
        (create_device_code env (pending_code env d u client_id scope))
        db
      ≡ (ok tt, db')
    → db' ≡ record db { device_codes = pending_code env d u client_id scope ∷ db.device_codes }
unfolding create_device_code exec_if
create-ok env d u client_id scope db db' h = ground arith

issue-Stored :
    (env : Env) (client_id scope : String) (resp : DeviceAuthorizationResponse) (db db' : Db)
    → issue_device_code env client_id scope db ≡ (ok resp, db')
    → Stored env client_id scope resp db db'
unfolding issue_device_code
issue-Stored env client_id scope resp db db' h =
    let (d, db1, h1, rest1) = bind-ok (lift (drawn env.random_device_code)) _ db resp db' h in
    let (u, db2, h2, rest2) =
      bind-ok (lift (drawn (generate_user_code env))) _ db1 resp db' rest1 in
    let (_, db3, h3, rest3) =
      bind-ok
        (on_error (http 500 "server_error")
          (create_device_code env (pending_code env d u client_id scope)))
        _ db2 resp db' rest2 in
    let stored = create-ok env d u client_id scope db2 db3 h3 in
    let answer : resp ≡ authorization_response env d u = ground arith in
    record {
      user_code = u;
      shown = ap (λ x. x.user_code) answer;
      written = ground (arith, stored, answer);
    }

client-row :
    (env : Env) (id : String) (c : Client) (db db' : Db)
    → on_error (http 400 "invalid_client") (client_by_client_id env id) db ≡ (ok c, db')
    → (find_row (is_registered id) db.clients ≡ some c) × (db' ≡ db)
unfolding client_by_client_id query
client-row env id c db db' h = (ground arith, ground arith)

first_row :
    {A : Type 0} (p : A → Bool) (x : A) (xs : List A) → p x ≡ true → find_row p (x ∷ xs) ≡ some x
unfolding find_row
first_row p x xs h = ground arith

pending_poll :
    (env : Env) (r : TokenRequest) (d : DeviceCode) (db : Db)
    → Healthy env
    → find_row (has_code r.device_code) db.device_codes ≡ some d
    → is_empty r.device_code ≡ false
    → d.client_id ≡ r.client_id
    → env.now ≤ d.expires_at
    → d.status ≡ "pending"
    → d.last_polled_at ≡ none
    → (handle_device_code_grant env r db).0 ≡ err (http 400 "authorization_pending")
unfolding handle_device_code_grant find_device poll_code answer is_too_soon device_code_by_code
    update_last_polled_at query exec
pending_poll env r d db healthy row named client in_time pending fresh = ground (
  arith,
  healthy select_device_code,
  healthy set_last_polled,
  row,
  client,
  pending,
  eq_iff d.client_id r.client_id,
  eq_iff d.status "pending",
)

-- If a device authorization is granted, then the named client is registered and active and may use
-- the device grant, the requested scope passes the client's validation, and exactly one row has
-- been added: a pending code for that client, with the requested scope or, without one, the
-- client's; the user code that is shown is the stored one in its printed form.
pub authorization-IsRequested :
    (env : Env) (req : Request) (resp : DeviceAuthorizationResponse) (db db' : Db)
    → handle_device_authorization env req db ≡ (ok resp, db')
    → IsRequested env req resp db db'
unfolding handle_device_authorization client_by_client_id
authorization-IsRequested env req resp db db' h =
    let id = req.form "client_id" in
    let scope = req.form "scope" in
    let (_, db1, h1, rest1) =
      bind-ok (require (req.method == "POST") (http 405 "invalid_request")) _ db resp db' h in
    let (_, db2, h2, rest2) =
      bind-ok (require req.parses (http 400 "invalid_request")) _ db1 resp db' rest1 in
    let (_, db3, h3, rest3) =
      bind-ok (require (not (is_empty id)) (http 400 "invalid_request")) _ db2 resp db' rest2 in
    let (c, db4, h4, rest4) =
      bind-ok (on_error (http 400 "invalid_client") (client_by_client_id env id)) _ db3 resp db'
        rest3 in
    let (_, db5, h5, rest5) =
      bind-ok
        (require (is_grant_type_allowed env (some c) device_code_grant_type)
          (http 400 "unauthorized_client"))
        _ db4 resp db' rest4 in
    let (_, db6, h6, rest6) =
      bind-ok (require (validate_scopes (some c) scope) (http 400 "invalid_scope")) _ db5 resp db'
        rest5 in
    let (_, same1) = require-ok (req.method == "POST") (http 405 "invalid_request") db db1 h1 in
    let (_, same2) = require-ok req.parses (http 400 "invalid_request") db1 db2 h2 in
    let (_, same3) = require-ok (not (is_empty id)) (http 400 "invalid_request") db2 db3 h3 in
    let (row, same4) = client-row env id c db3 db4 h4 in
    let (allowed, same5) =
      require-ok (is_grant_type_allowed env (some c) device_code_grant_type)
        (http 400 "unauthorized_client") db4 db5 h5 in
    let (valid, same6) =
      require-ok (validate_scopes (some c) scope) (http 400 "invalid_scope") db5 db6 h6 in
    let before = same3 ∙ same2 ∙ same1 in
    let same : db6 ≡ db = same6 ∙ same5 ∙ same4 ∙ before in
    let s = issue-Stored env id (effective_scope c scope) resp db6 db' rest6 in
    record {
      client = c;
      registered = ap (λ d. find_row (is_registered id) d.clients) (sym before) ∙ row;
      permitted = allowed;
      scope_valid = valid;
      user_code = s.user_code;
      shown = s.shown;
      written = ground (arith, s.written, same);
    }

-- A poll for the code just handed out, by its client and until it expires, is answered with
-- authorization_pending, if the database refuses no statement.
pub authorization-pending :
    (env later : Env) (req : Request) (resp : DeviceAuthorizationResponse) (db db' : Db)
    (r : TokenRequest)
    → handle_device_authorization env req db ≡ (ok resp, db')
    → Healthy later
    → r.device_code ≡ resp.device_code
    → is_empty r.device_code ≡ false
    → r.client_id ≡ req.form "client_id"
    → later.now ≤ env.now + env.config.device_code_expiration
    → (handle_device_code_grant later r db').0 ≡ err (http 400 "authorization_pending")
authorization-pending env later req resp db db' r h healthy same named client in_time =
    let i = authorization-IsRequested env req resp db db' h in
    pending_poll later r
      (pending_code env resp.device_code i.user_code (req.form "client_id")
        (effective_scope i.client (req.form "scope")))
      db' healthy
      (ap (λ d. find_row (has_code r.device_code) d.device_codes) i.written
        ∙ first_row _ _ db.device_codes ((eq_iff resp.device_code r.device_code).1 (sym same)))
      named (sym client) in_time refl refl
