-- ===== src/Tests/Logins.antt =====
-- The login form at the concrete server.
use autentico.Prelude.{String, true, none, some, ◌==◌, if◌then◌else◌}
use autentico.Web.{Request}
use autentico.Browser.{Granted}
use autentico.Authzsig.{sign}
use autentico.Consent.{params_of}
use autentico.Login.{signed_params}
use autentico.Tests.World.{env}
use autentico.Tests.Rows.{flow_field, web}

abbrev form : String → String
form name =
    if name == "username"
    then "ann"
    else if name == "password"
    then "pw"
    else if name == "authorize_sig"
    then sign env (signed_params (params_of flow_field))
    else flow_field name

abbrev request : Request
request = web form

abbrev granted : Granted
granted = record {
  redirect_uri = "https://app/cb";
  code = "code2";
  state = "s1";
  encoded = true;
  sso_cookie = some "idp1";
  device_cookie = none;
}
