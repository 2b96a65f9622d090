-- ===== src/Authorize/SignedOut.antt =====
-- A browser that has been signed out at the authorization endpoint.
use autentico.Prelude.{String, ◌≡◌, ◌≢◌, sym, ap, ◌∙◌, false, none, arith}
use autentico.Schema.{IdpSession, Db}
use autentico.Env.{Env}
use autentico.Exec.{ok}
use autentico.Sql.{find_row, modify}
use autentico.Sql.Laws.{find_row-update_dead}
use autentico.Web.{Request}
use autentico.Browser.{Granted}
use autentico.IdpSession.{deactivate_with_cascade, is_active, end_idp}
use autentico.IdpSession.Cascade.{cascade-ok}
use autentico.Authorize.{handle_authorize}
use autentico.Authorize.Authorized.{handle_authorize-IsAuthorized}

ended-inactive :
    (env : Env) (id : String) (s : IdpSession)
    → is_active id (modify (is_active id) (end_idp env) s) ≡ false
ended-inactive env id s = ground arith

-- After the cascade has ended a single sign-on session, at sign-out or in the sweep, the
-- authorization endpoint gives no code to a request with the cookie of that session.
pub cascade-authorize :
    (env later : Env) (req : Request) (g : Granted) (db db1 db2 : Db)
    → deactivate_with_cascade env req.sso_cookie db ≡ (ok tt, db1)
    → handle_authorize later req db1 ≢ (ok g, db2)
cascade-authorize env later req g db db1 db2 ended granted =
    let id = req.sso_cookie in
    let a = handle_authorize-IsAuthorized later req g db1 db2 granted in
    let gone : find_row (is_active id) db1.idp_sessions ≡ none =
      ap (λ d. find_row (is_active id) d.idp_sessions) (cascade-ok env id db db1 ended)
      ∙ find_row-update_dead (is_active id) (is_active id) (end_idp env) db.idp_sessions
          (ended-inactive env id) in
    absurd (ground (arith, sym gone ∙ a.signed_in.live))
