-- ===== src/Token/RefreshGrant/Replay.antt =====
-- Rotation: a refresh token is used once, and a second use takes every token of the user down
-- (RFC 6819 section 5.2.2.3).
use autentico.Prelude.{
  String, ◌≡◌, refl, ap, ◌∙◌, true, false, not, none, some, List, [], ◌∷◌, arith, eq_iff, is_empty,
  is_none, all,
}
use autentico.Schema.{Session, Token, Db}
use autentico.Env.{
  Env, RefreshClaims, Healthy, query, exec, select_revoked_at, select_session, select_prior_idp,
  rotate, select_scope, set_last_activity, revoke_user_tokens,
}
use autentico.Exec.{err, http}
use autentico.Sql.{find_row, update_rows, modify}
use autentico.Sql.Laws.{find_row_sound, find_row-update}
use autentico.Session.{session_by_id_including_deactivated, has_id}
use autentico.IdpSession.{update_last_activity}
use autentico.Token.{update_tokens, revoke}
use autentico.Token.Scopes.{is_scope_subset}
use autentico.Token.CodeGrant.{TokenRequest, invalid_grant, validate_token_request_refresh}
use autentico.Token.RefreshGrant.{
  user_by_refresh_token, refresh_user, check_session, check_revoked, replay, decode_refresh_token,
  has_refresh, same_client, is_token_of, is_rotated, rotate_grant, carry_idp, rotate_token, expired,
  rescope, carried, original_token,
}

-- The presented token's row is revoked, its session still stands: the request is refused, and
-- every unrevoked token of the user is revoked.
pub revoked_token_refused :
    (env : Env) (r : TokenRequest) (c : RefreshClaims) (sess : Session) (t : Token) (db : Db)
    → Healthy env
    → validate_token_request_refresh r ≡ true
    → env.parse_refresh r.refresh_token ≡ some c
    → expired env c ≡ false
    → find_row (has_id c.session_id) db.sessions ≡ some sess
    → sess.deactivated_at ≡ none
    → same_client c r ≡ true
    → find_row (has_refresh r.refresh_token) db.tokens ≡ some t
    → is_none t.revoked_at ≡ false
    → user_by_refresh_token env r db
      ≡ (err invalid_grant, update_tokens (is_token_of c.user_id) (revoke env) db)
unfolding user_by_refresh_token refresh_user decode_refresh_token check_session check_revoked replay
    query exec session_by_id_including_deactivated
revoked_token_refused env r c sess t db healthy valid parsed alive stored live client row revoked =
    ground (arith, healthy select_session, healthy select_revoked_at, healthy revoke_user_tokens)

-- What a rotation leaves behind, whether it ends in a grant or in an error.
rotated-tables :
    (env : Env) (r : TokenRequest) (db : Db)
    → Healthy env
    → ((rotate_grant env r db).1.tokens
        ≡ update_rows (is_rotated r.refresh_token) (revoke env) db.tokens)
      × ((rotate_grant env r db).1.sessions ≡ db.sessions)
unfolding rotate_grant carried original_token carry_idp rotate_token query exec update_last_activity
rotated-tables env r db healthy = (
  ground (
    arith,
    healthy select_prior_idp,
    healthy rotate,
    healthy select_scope,
    healthy set_last_activity,
  ),
  ground (
    arith,
    healthy select_prior_idp,
    healthy rotate,
    healthy select_scope,
    healthy set_last_activity,
  ),
)

rotated_row-revoked :
    (env : Env) (token : String) (t : Token)
    → t.refresh_token ≡ token
    → is_none (modify (is_rotated token) (revoke env) t).revoked_at ≡ false
rotated_row-revoked env token t e = ground (arith, eq_iff t.refresh_token token)

rotated-row :
    (env : Env) (r : TokenRequest) (t : Token) (db : Db)
    → Healthy env
    → find_row (has_refresh r.refresh_token) db.tokens ≡ some t
    → (t' : Token) × (find_row (has_refresh r.refresh_token) (rotate_grant env r db).1.tokens
        ≡ some t')
      × (is_none t'.revoked_at ≡ false)
rotated-row env r t db healthy row =
    let here = find_row_sound (has_refresh r.refresh_token) db.tokens row in
    (
      modify (is_rotated r.refresh_token) (revoke env) t,
      ap (find_row (has_refresh r.refresh_token)) (rotated-tables env r db healthy).0
          ∙ find_row-update (has_refresh r.refresh_token) (is_rotated r.refresh_token) (revoke env)
              db.tokens (λ y. refl) row,
      rotated_row-revoked env r.refresh_token t ((eq_iff t.refresh_token r.refresh_token).0 here),
    )

-- After a rotation of a refresh token, whether it was answered with a grant or with an error, the
-- next valid request that presents the same token, unexpired and from its client, while its
-- session stands, is answered with invalid_grant and revokes every unrevoked token of the user
-- that the token names.
pub rotate-replay :
    (env later : Env) (r s : TokenRequest) (c : RefreshClaims) (sess : Session) (t : Token)
    (db : Db)
    → Healthy env
    → Healthy later
    → find_row (has_refresh r.refresh_token) db.tokens ≡ some t
    → find_row (has_id c.session_id) db.sessions ≡ some sess
    → sess.deactivated_at ≡ none
    → s.refresh_token ≡ r.refresh_token
    → validate_token_request_refresh s ≡ true
    → later.parse_refresh s.refresh_token ≡ some c
    → expired later c ≡ false
    → same_client c s ≡ true
    → user_by_refresh_token later s (rotate_grant env r db).1 ≡ (
      err invalid_grant,
      update_tokens (is_token_of c.user_id) (revoke later) (rotate_grant env r db).1,
    )
rotate-replay env later r s c sess t db h1 h2 row stored live same valid parsed alive client =
    let (t', row', revoked) = rotated-row env r t db h1 row in
    revoked_token_refused later s c sess t' (rotate_grant env r db).1 h2 valid parsed alive
      (ap (find_row (has_id c.session_id)) (rotated-tables env r db h1).1 ∙ stored) live client
      (ap (λ x. find_row (has_refresh x) (rotate_grant env r db).1.tokens) same ∙ row') revoked

-- A refresh request that asks for more than the original scope is answered with invalid_scope, and
-- the token that it presented is revoked nevertheless.
pub refused_scope_rotates :
    (env : Env) (r : TokenRequest) (t : Token) (db : Db)
    → Healthy env
    → find_row (has_refresh r.refresh_token) db.tokens ≡ some t
    → is_empty r.scope ≡ false
    → is_scope_subset r.scope t.scope ≡ false
    → ((rotate_grant env r db).0 ≡ err (http 400 "invalid_scope"))
      × ((t' : Token) × (find_row (has_refresh r.refresh_token) (rotate_grant env r db).1.tokens
            ≡ some t')
          × (is_none t'.revoked_at ≡ false))
unfolding rotate_grant carried original_token carry_idp rotate_token query exec update_last_activity
    rescope
refused_scope_rotates env r t db healthy row asked over =
    let kept =
      find_row-update (has_refresh r.refresh_token) (is_rotated r.refresh_token) (revoke env)
        db.tokens (λ y. refl) row in
    (
      ground (
        arith,
        kept,
        healthy select_prior_idp,
        healthy rotate,
        healthy select_scope,
        healthy set_last_activity,
      ),
      rotated-row env r t db healthy row,
    )

none_left :
    (env : Env) (user_id : String) (ts : List Token)
    → all (λ t. not (is_token_of user_id t)) (update_rows (is_token_of user_id) (revoke env) ts)
      ≡ true
unfolding update_rows
none_left env user_id [] = refl
none_left env user_id (t ∷ ts) = ground (arith, none_left env user_id ts)
