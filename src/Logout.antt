-- ===== src/Logout.antt =====
-- RP-initiated logout: pkg/session/logout.go. Every answer also clears the cookie of the single
-- sign-on session.
pub mod Answers
use autentico.Prelude.{
  String, Bool, true, false, not, Option, none, some, List, [], ◌∷◌, ◌==◌, ◌&&◌, is_empty, member,
  if◌then◌else◌,
}
use autentico.Schema.{Client, Db}
use autentico.Env.{Env, IdTokenHint, HintAudience, text, texts, other}
use autentico.Exec.{Exec, HttpError, pure, attempt, optional, ◌>>=◌, ◌>>◌}
use autentico.Text.{append}
use autentico.Web.{Request}
use autentico.Client.{client_by_client_id, get_post_logout_redirect_uris}
use autentico.IdpSession.{deactivate_with_cascade}

abbrev first_text : List (Option String) → String
first_text [] = ""
first_text (none ∷ _) = ""
first_text (some s ∷ _) = s

unfoldable pub aud_client_id : HintAudience → String
aud_client_id (text s) = s
aud_client_id (texts auds) = first_text auds
aud_client_id other = ""

unfoldable pub parse_id_token_hint : Env → String → Option IdTokenHint
parse_id_token_hint env hint = if is_empty hint then none else env.parse_id_hint hint

-- The client that a hint names: by its azp claim, or else by its first audience.
unfoldable pub hint_client : IdTokenHint → String
unfolding aud_client_id
hint_client h = if is_empty h.client_id then aud_client_id h.raw_aud else h.client_id

-- The request names a client, and the hint another one.
unfoldable pub mismatched : String → Option IdTokenHint → Bool
unfolding hint_client
mismatched client_id none = false
mismatched client_id (some h) =
    not (is_empty client_id) && not (is_empty (hint_client h)) && not (hint_client h == client_id)

abbrev named : Option IdTokenHint → String
named none = ""
named (some h) = hint_client h

unfoldable pub resolved_client_id : String → Option IdTokenHint → String
unfolding hint_client
resolved_client_id client_id hint = if is_empty client_id then named hint else client_id

pub data LogoutAnswer : Type 0 where
  signed_out : LogoutAnswer
  redirect : String → LogoutAnswer

abbrev pub target : String → String → String
target uri state = if is_empty state then uri else append uri (append "?state=" state)

abbrev answer_for : Env → String → String → Option Client → LogoutAnswer
answer_for env uri state none = signed_out
answer_for env uri state (some c) =
    if member uri (get_post_logout_redirect_uris env c)
    then redirect (target uri state)
    else signed_out

-- The part of the function behind the cascade.
unfoldable pub leave : Env → String → String → String → Exec HttpError LogoutAnswer
leave env uri state client_id =
    if not (is_empty uri) && not (is_empty client_id)
    then (do c ← optional (client_by_client_id env client_id); pure (answer_for env uri state c))
    else pure signed_out

unfoldable pub end_browser : Env → String → Exec HttpError (Unit {0})
end_browser env cookie =
    if is_empty cookie then pure tt else attempt (deactivate_with_cascade env cookie)

unfoldable pub rp_initiated_logout :
    Env → String → String → String → String → String → Exec HttpError LogoutAnswer
unfolding parse_id_token_hint mismatched resolved_client_id leave end_browser
rp_initiated_logout env cookie hint uri state client_id =
    if mismatched client_id (parse_id_token_hint env hint) then pure signed_out else do
      end_browser env cookie
      leave env uri state (resolved_client_id client_id (parse_id_token_hint env hint))

-- The parameters of the form; `cookie` is the value of the single sign-on cookie, "" without one.
unfoldable pub handle_logout : Env → String → Request → Exec HttpError LogoutAnswer
unfolding rp_initiated_logout
handle_logout env cookie req =
    rp_initiated_logout env cookie (req.form "id_token_hint") (req.form "post_logout_redirect_uri")
      (req.form "state") (req.form "client_id")
