-- ===== src/Revoke.antt =====
-- Token revocation (RFC 7009): pkg/revoke/handler.go.
use autentico.Prelude.{String, not, Option, ◌==◌, is_empty, if◌then◌else◌}
use autentico.Schema.{Client}
use autentico.Env.{Env}
use autentico.Exec.{Exec, HttpError, http, pure, require, attempt, ◌>>=◌, ◌>>◌}
use autentico.Web.{Request}
use autentico.Token.{revoke_by_token_value}
use autentico.Bearer.{admit_caller, may_handle}

-- A token of another client is left alone, without an error.
unfoldable pub revoke_for : Env → Option Client → String → Exec HttpError (Unit {0})
revoke_for env c token_id =
    if may_handle env c token_id then attempt (revoke_by_token_value env token_id) else pure tt

unfoldable pub handle_revoke : Env → Request → Exec HttpError (Unit {0})
unfolding revoke_for
handle_revoke env req = do
  require (req.method == "POST") (http 400 "invalid_request")
  c ← admit_caller env req
  require req.parses (http 400 "invalid_request")
  require (not (is_empty (req.form "token"))) (http 400 "invalid_request")
  revoke_for env c (req.form "token")
