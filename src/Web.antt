-- ===== src/Web.antt =====
-- An HTTP request as the handlers read it.
use autentico.Prelude.{String, Bool, Option}

pub record Request : Type 0 where
  pub method : String
  -- r.ParseForm() == nil
  pub parses : Bool
  -- r.BasicAuth()
  pub basic_auth : Option (String × String)
  -- r.FormValue(name), "" if the field is missing
  pub form : String → String
  -- r.URL.Query().Get(name), "" if the parameter is missing
  pub query : String → String
  -- The cookies of the single sign-on session and of the trusted device, "" without one
  pub sso_cookie : String
  pub device_cookie : String
  -- r.Header.Get("Authorization")
  pub authorization : String
  pub user_agent : String
  -- utils.GetClientIP(r)
  pub client_ip : String
  -- r.Body != nil
  pub has_body : Bool
  -- r.Header.Get("Content-Type")
  pub content_type : String
  -- The `token` of a JSON body, `none` if the body does not decode.
  pub json_token : Option String
