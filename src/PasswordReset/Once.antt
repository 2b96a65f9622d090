-- ===== src/PasswordReset/Once.antt =====
-- A link that has set a password once.
use autentico.Prelude.{◌≡◌, ◌≢◌, refl, ap, sym, ◌∙◌, some, arith}
use autentico.Schema.{Db}
use autentico.Env.{Env, Healthy}
use autentico.Exec.{ok}
use autentico.Sql.{find_row}
use autentico.Sql.Laws.{find_row-update, find_row_sound}
use autentico.Web.{Request}
use autentico.PasswordReset.{OauthParams, handle_reset_password, has_hash, used_now}
use autentico.PasswordReset.Reset.{handle_reset_password-IsReset}

-- After a link has set a password, and the database has accepted every statement, no request with
-- the same token sets a password on that database, at any later time.
pub reset-reset :
    (env later : Env) (req again : Request) (p q : OauthParams) (db db1 db2 : Db)
    → Healthy env
    → Healthy later
    → handle_reset_password env req db ≡ (ok p, db1)
    → later.hash_sha256 (again.form "token") ≡ env.hash_sha256 (req.form "token")
    → handle_reset_password later again db1 ≢ (ok q, db2)
reset-reset env later req again p q db db1 db2 up up_later first same second =
    let r = handle_reset_password-IsReset env req p db db1 up first in
    let s = handle_reset_password-IsReset later again q db1 db2 up_later second in
    let token_hash = env.hash_sha256 (req.form "token") in
    let here = find_row_sound (has_hash token_hash) db.password_reset_tokens r.listed in
    let row : find_row (has_hash token_hash) db1.password_reset_tokens
        ≡ some (used_now env r.token) =
      ap (λ d. find_row (has_hash token_hash) d.password_reset_tokens) r.written
      ∙ find_row-update (has_hash token_hash) (has_hash token_hash) (used_now env)
          db.password_reset_tokens (λ y. refl) r.listed
      ∙ ground (arith, here) in
    let found : find_row (has_hash token_hash) db1.password_reset_tokens ≡ some s.token =
      ap (λ h. find_row (has_hash h) db1.password_reset_tokens) (sym same) ∙ s.listed in
    let both : some (used_now env r.token) ≡ some s.token = sym row ∙ found in
    absurd (ground (arith, both, s.unused))
