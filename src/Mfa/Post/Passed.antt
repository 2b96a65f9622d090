-- ===== src/Mfa/Post/Passed.antt =====
-- A code that is granted at the page for the second factor.
use autentico.Prelude.{String, ◌≡◌, Bool, false, Option, some}
use autentico.Schema.{MfaChallenge, User, Client, Db}
use autentico.Env.{Env, FlowParams}
use autentico.Web.{Request}
use autentico.Browser.{Granted}
use autentico.Consent.Grants.{IsGranted}
use autentico.Mfa.Post.{answer, non_empty}
use autentico.Mfa.Post.Factor.{Opened, Proven, ClientConsented}

-- The code of a flow, with the cookies that go with it.
pub record Completed (env : Env) (p : FlowParams) (user_id : String) (encoded : Bool)
    (device : Option String) (g : Granted) (db' : Db) : Type 0 where
  pub idp : String
  pub client : Option Client
  pub before : Db
  pub plain : Granted
  pub consented : ClientConsented client before user_id p
  pub code : IsGranted env p user_id 0 idp plain before db'
  pub answer :
      g ≡ record plain { encoded = encoded; sso_cookie = non_empty idp; device_cookie = device }

record Restored (env : Env) (c : MfaChallenge) (u : User) (g : Granted) (db' : Db) : Type 0 where
  flow : FlowParams
  device : Option String
  state : env.parse_login_state c.login_state ≡ some flow
  done : Completed env flow u.id false device g db'

-- An open challenge of an active user, a proved factor, and a code for the remembered request.
pub record IsPassed (env : Env) (req : Request) (g : Granted) (db db' : Db) : Type 0 where
  pub challenge : MfaChallenge
  pub user : User
  pub opened : Opened env req challenge user db
  pub proven : Proven env req challenge user
  pub flow : FlowParams
  pub device : Option String
  pub state : env.parse_login_state challenge.login_state ≡ some flow
  pub done : Completed env flow user.id false device g db'
