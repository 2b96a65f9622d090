-- ===== src/Login/SignedIn.antt =====
-- Whom the login form gives a code.
use autentico.Prelude.{◌≡◌, true, some}
use autentico.Schema.{User, Client, Db}
use autentico.Env.{Env, FlowParams}
use autentico.Exec.{ok}
use autentico.Sql.{find_row}
use autentico.Web.{Request}
use autentico.Browser.{Granted, is_redirect_uri}
use autentico.Authzsig.{verify}
use autentico.Client.{is_registered, is_valid_redirect_uri, validate_scopes}
use autentico.User.{authenticate_user}
use autentico.Consent.{params_of}
use autentico.Login.{signed_params}
use autentico.Login.Factor.{Entered}

-- The client of the form.
record FormClient (env : Env) (p : FlowParams) (c : Client) (db : Db) : Type 0 where
  registered : find_row (is_registered p.client_id) db.clients ≡ some c
  allowed : is_valid_redirect_uri env (some c) p.redirect_uri ≡ true
  scopes : validate_scopes (some c) p.scope ≡ true

-- A signed request of a registered client, a password, and what follows it.
pub record IsLoggedIn (env : Env) (req : Request) (g : Granted) (db db' : Db) : Type 0 where
  pub signed : verify env (signed_params (params_of req.form)) (req.form "authorize_sig") ≡ true
  pub formed : is_redirect_uri env (req.form "redirect_uri") ≡ true
  pub client : Client
  pub registered : find_row (is_registered (req.form "client_id")) db.clients ≡ some client
  pub allowed : is_valid_redirect_uri env (some client) (req.form "redirect_uri") ≡ true
  pub scopes : validate_scopes (some client) (req.form "scope") ≡ true
  pub user : User
  pub between : Db
  pub password :
      authenticate_user env (req.form "username") (req.form "password") db ≡ (ok user, between)
  pub entered : Entered env req (params_of req.form) user g between db'
