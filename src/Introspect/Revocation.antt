-- ===== src/Introspect/Revocation.antt =====
-- A revoked token is dead for every way of presenting it.
use autentico.Prelude.{
  String, Bool, ◌≡◌, ◌≢◌, refl, true, false, not, none, some, Option, List, [], ◌∷◌, arith, is_none,
  inl, inr, Option-cases, ◌||◌, all,
}
use autentico.Schema.{Client, Token, Db}
use autentico.Env.{Env, query, exec, revoke_by_value}
use autentico.Exec.{ok}
use autentico.Sql.{find_row, update_rows}
use autentico.Token.{
  has_value, revoke, revoke_by_token_value, token_by_access_token, is_live, update_tokens,
}
use autentico.Bearer.{may_handle}
use autentico.Revoke.{revoke_for}
use autentico.Introspect.{introspect, introspect_token, inactive}

revoked_row :
    (env : Env) (value : String) (ts : List Token) (t : Token)
    → find_row (has_value value) (update_rows (has_value value) (revoke env) ts) ≡ some t
    → is_none t.revoked_at ≡ false
unfolding find_row update_rows
revoked_row env value [] t h = absurd (ground arith)
revoked_row env value (x ∷ xs) t h = ground (arith, revoked_row env value xs t)

-- Every row that carries the value, as its access token or as its refresh token, is revoked.
abbrev pub all_revoked : String → List Token → Bool
all_revoked value ts = all (λ t. not (has_value value t) || not (is_none t.revoked_at)) ts

value-all_revoked :
    (env : Env) (value : String) (ts : List Token)
    → all_revoked value (update_rows (has_value value) (revoke env) ts) ≡ true
unfolding update_rows
value-all_revoked env value [] = refl
value-all_revoked env value (t ∷ ts) = ground (arith, value-all_revoked env value ts)

revoke_for-tokens :
    (env : Env) (c : Option Client) (value : String) (db : Db)
    → env.fails revoke_by_value ≡ false
    → may_handle env c value ≡ true
    → revoke_for env c value db ≡ (ok tt, update_tokens (has_value value) (revoke env) db)
unfolding revoke_for revoke_by_token_value exec
revoke_for-tokens env c value db up allowed = ground (arith, up, allowed)

not_live :
    (value : String) (ts : List Token)
    → all_revoked value ts ≡ true
    → find_row (is_live value) ts ≡ none
unfolding find_row
not_live value [] h = refl
not_live value (t ∷ ts) h = ground (arith, not_live value ts)

introspect_revoked :
    (env : Env) (c : Option Client) (value : String) (db : Db)
    → ((t : Token) → find_row (has_value value) db.tokens ≡ some t → is_none t.revoked_at ≡ false)
    → introspect env c value db ≡ (ok inactive, db)
unfolding introspect introspect_token query
introspect_revoked env c value db dead =
    elim (Option-cases (find_row (has_value value) db.tokens)) [
      | inl missing ↦ ground arith
      | inr (t, row) ↦ ground (arith, dead t row)
    ]

-- A revocation that the caller may make, of a value that need not exist, answers without an error
-- and leaves every row with that value revoked, so that every later introspection of the value, by
-- any caller and under any configuration, is answered as inactive, and no later read of the table
-- by that access token finds a row.
pub revoke-inactive :
    (env later : Env) (c d : Option Client) (value : String) (t : Token) (db : Db)
    → env.fails revoke_by_value ≡ false
    → may_handle env c value ≡ true
    → (db' : Db) × (revoke_for env c value db ≡ (ok tt, db'))
      × (all_revoked value db'.tokens ≡ true)
      × (introspect later d value db' ≡ (ok inactive, db'))
      × ((token_by_access_token later value db').0 ≢ ok t)
unfolding token_by_access_token query
revoke-inactive env later c d value t db up allowed =
    let db' = update_tokens (has_value value) (revoke env) db in
    let dead = value-all_revoked env value db.tokens in
    (
      db',
      revoke_for-tokens env c value db up allowed,
      dead,
      introspect_revoked later d value db' (revoked_row env value db.tokens),
      ground (arith, not_live value (update_rows (has_value value) (revoke env) db.tokens) dead),
    )
