-- ===== src/Tests/Consents.antt =====
-- The consent page at the concrete server.
use autentico.Prelude.{List, ◌≡◌, refl, some, ◌==◌, [], ◌∷◌, if◌then◌else◌}
use autentico.Schema.{Db}
use autentico.Exec.{ok}
use autentico.Env.{Env, FlowParams}
use autentico.Web.{Request}
use autentico.AuthCode.{has_user}
use autentico.Browser.{consent_page, Granted}
use autentico.Consent.{
  handle_consent_get, handle_consent_post, params_of, describe_scopes, sign_consent, granted,
  needs_consent,
}
use autentico.Consent.Approve.{IsConsented, handle_consent_post-IsConsented}
use autentico.Consent.Page.{CanGrant, IsApproved, page-approve}
use autentico.Consent.Table.{
  Operation, grant, forget_client, perform_all, perform-replay, view, replay,
}
use autentico.Sql.{find_row}
use autentico.Tests.World.{env, minute_later, env_at-Healthy, start}
use autentico.Tests.Rows.{idp_session, db, app, flow_field, browse, web}

abbrev page : Request
page = browse flow_field

abbrev params : FlowParams
params = params_of flow_field

shown :
    handle_consent_get env page db
    ≡ (ok (consent_page params (describe_scopes "openid") (sign_consent env params "u1")), db)
unfolding handle_consent_get autentico.Env.query find_row autentico.Client.client_by_client_id
shown = refl

-- The form of the page, sent back.
abbrev agreed : Request
agreed =
    record (web
      (λ name. if name == "consent_sig" then sign_consent env params "u1" else flow_field name)) {
        sso_cookie = "idp0";
      }

abbrev answer : Granted
answer = granted params "code2"

given : handle_consent_post env agreed db ≡ (ok answer, (handle_consent_post env agreed db).1)
unfolding handle_consent_post autentico.Env.query find_row autentico.Text.join_lines
    autentico.Text.append autentico.Client.client_by_client_id
    autentico.Client.is_valid_redirect_uri autentico.Text.split autentico.Env.exec_if
    autentico.Sql.any_row autentico.AuthCode.create_auth_code
given = refl

handle_consent_post-IsConsented_example :
    IsConsented env agreed answer db (handle_consent_post env agreed db).1
handle_consent_post-IsConsented_example =
    handle_consent_post-IsConsented env agreed answer db (handle_consent_post env agreed db).1 given

can : CanGrant env "u1" "code2" "sec" db
unfolding autentico.Sql.any_row find_row
can = record {
  drawn_code = refl;
  drawn_id = refl;
  fresh_code = refl;
  fresh_id = refl;
  owner = refl;
}

sent : params_of agreed.form ≡ params
unfolding params_of
sent = refl

page-approve_example :
    (g : Granted) × (db' : Db) × (handle_consent_post env agreed db ≡ (ok g, db'))
    × IsApproved env params idp_session "code2" g db'
unfolding sign_consent autentico.Text.join_lines autentico.Text.append find_row params_of
    autentico.Client.is_valid_redirect_uri autentico.Text.split
page-approve_example =
    page-approve env env page agreed params (describe_scopes "openid")
      (sign_consent env params "u1") app idp_session "code2" "sec" db db shown sent refl refl refl
      refl (env_at-Healthy start) refl refl refl refl can

abbrev later : Env
later = record minute_later { secure_code = λ _. some "sec2" }

abbrev operations : List (Env × Operation)
operations =
    (env, grant "u1" "app" "openid")
    ∷ (later, grant "u1" "app" "openid email")
    ∷ (later, forget_client "svc")
    ∷ []

performed : perform_all operations db ≡ (ok tt, (perform_all operations db).1)
unfolding autentico.Consent.upsert_consent autentico.Env.exec_if autentico.Sql.any_row
    autentico.Consent.delete_consents_by_client autentico.Env.exec
performed = refl

perform-replay_example :
    view (perform_all operations db).1.user_consents "u1" "app"
    ≡ replay operations (view db.user_consents) "u1" "app"
perform-replay_example =
    perform-replay operations db (perform_all operations db).1 "u1" "app" performed
