-- ===== src/Tests/Clients.antt =====
-- Clients, redirect URIs, scopes and PKCE at the concrete server.
use mathlib.Core.List.{Memᴰ}
use autentico.Prelude.{◌≡◌, ◌⊎◌, ◌↔◌, refl, true, String, some, none}
use autentico.Schema.{Client}
use autentico.Exec.{ok}
use autentico.Web.{Request}
use autentico.Client.{authenticate_client_from_request, is_valid_redirect_uri, get_redirect_uris}
use autentico.Client.Credentials.{Proves, authenticate_request-Proves}
use autentico.Client.Redirects.{Matches, is_valid_redirect_uri_iff}
use autentico.Tests.World.{env}
use autentico.Tests.Rows.{db, app, service, web}

abbrev basic : Request
basic = record (web (λ _. "")) { basic_auth = some ("svc", "s3") }

known : authenticate_client_from_request env basic db ≡ (ok (some service), db)
unfolding authenticate_client_from_request
known = refl

authenticate_request-Proves_example :
    (((c : Client) × (some service ≡ some c) × Proves env db "svc" "s3" c)
      ⊎ ((some service ≡ none) × (basic.basic_auth ≡ none) × (basic.form "client_id" ≡ "")))
    × (db ≡ db)
authenticate_request-Proves_example =
    authenticate_request-Proves env basic (some service) db db known

is_valid_redirect_uri_iff_example :
    (is_valid_redirect_uri env (some app) "https://x.app/cb" ≡ true)
    ↔ ((u : String) × Memᴰ u (get_redirect_uris env app) × Matches u "https://x.app/cb")
is_valid_redirect_uri_iff_example = is_valid_redirect_uri_iff env app "https://x.app/cb"
