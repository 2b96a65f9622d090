-- ===== src/Tests/Logouts.antt =====
-- A logout at the concrete server.
use autentico.Prelude.{◌≡◌, refl}
use autentico.Exec.{ok}
use autentico.IdpSession.Cascade.{cascaded}
use autentico.Logout.{rp_initiated_logout, redirect, resolved_client_id, parse_id_token_hint}
use autentico.Logout.Answers.{IsAllowed, logout-IsAllowed}
use autentico.Tests.World.{env}
use autentico.Tests.Rows.{db}

left :
    rp_initiated_logout env "idp0" "id0" "https://app/bye" "s1" "" db
    ≡ (ok (redirect "https://app/bye?state=s1"), cascaded env "idp0" db)
unfolding rp_initiated_logout autentico.Client.client_by_client_id
    autentico.IdpSession.deactivate_with_cascade autentico.Env.exec
    autentico.Client.get_post_logout_redirect_uris autentico.Text.split autentico.Text.append
left = refl

logout-IsAllowed_example : IsAllowed env "https://app/bye" "s1" "app" "https://app/bye?state=s1" db
unfolding resolved_client_id parse_id_token_hint
logout-IsAllowed_example =
    logout-IsAllowed env "idp0" "id0" "https://app/bye" "s1" "" "https://app/bye?state=s1" db
      (cascaded env "idp0" db) left
