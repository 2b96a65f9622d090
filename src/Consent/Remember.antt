-- ===== src/Consent/Remember.antt =====
-- A consent that was given is not asked for again.
use autentico.Prelude.{
  String, ◌≡◌, refl, sym, ap, ◌∙◌, Bool, true, false, not, Option, some, List, [], ◌∷◌, arith, all,
  member, eq_refl, Option-cases, Bool-cases, inl, inr, some-eq,
}
use autentico.Schema.{Db, UserConsent}
use autentico.Env.{Env, query, select_consent}
use autentico.Exec.{ok, optional, as_option}
use autentico.Exec.Forward.{bind_of_ok}
use autentico.Sql.{find_row}
use autentico.Text.{fields}
use autentico.Web.{Request}
use autentico.Schema.{IdpSession}
use autentico.IdpSession.{is_active}
use autentico.Browser.{Answer, Granted}
use autentico.Consent.{
  needs_consent, get_consent, is_covered, scopes_covered, contains_prompt_value, is_between,
  is_required, handle_consent_post,
}
use autentico.Consent.Table.{view}
use autentico.Consent.Approve.{handle_consent_post-IsConsented}

all-member_tail :
    (y : String) (xs ys : List String)
    → all (λ s. member s ys) xs ≡ true
    → all (λ s. member s (y ∷ ys)) xs ≡ true
all-member_tail y [] ys h = refl
all-member_tail y (x ∷ xs) ys h = ground (arith, all-member_tail y xs ys)

all-member_self : (xs : List String) → all (λ s. member s xs) xs ≡ true
all-member_self [] = refl
all-member_self (x ∷ xs) = ground (arith, eq_refl x, all-member_tail x xs xs (all-member_self xs))

get_consent_of_row :
    (env : Env) (u c : String) (row : UserConsent) (db : Db)
    → env.fails select_consent ≡ false
    → find_row (is_between u c) db.user_consents ≡ some row
    → get_consent env u c db ≡ (ok (some row), db)
unfolding get_consent query
get_consent_of_row env u c row db up found = rw (up, get_consent) (rw found refl)

-- A user who has granted all the requested scopes to the client is not asked, unless the request
-- insists on it.
pub needs_consent_of_view :
    (env : Env) (required : Option Bool) (u c requested prompt granted : String) (db : Db)
    → env.fails select_consent ≡ false
    → contains_prompt_value prompt "consent" ≡ false
    → view db.user_consents u c ≡ some granted
    → scopes_covered granted requested ≡ true
    → needs_consent {E = Answer} env required u c requested prompt db ≡ (ok false, db)
unfolding needs_consent get_consent is_covered
needs_consent_of_view env required u c requested prompt granted db up silent seen covered =
    elim (Bool-cases (is_required required)) [
      | inr free ↦ rw (free, needs_consent) refl
      | inl asked ↦ elim (Option-cases (find_row (is_between u c) db.user_consents)) [
        | inl missing ↦ absurd (ground (arith, seen))
        | inr (row, found) ↦
            let scopes : row.scopes ≡ granted = ground (arith, seen) in
            rw (asked, needs_consent)
              (rw silent (
                bind_of_ok (optional (get_consent env u c)) _ db (some (some row)) db
                  (ap as_option (get_consent_of_row env u c row db up found))
                ∙ ap (λ k. (ok (not (scopes_covered k requested)), db)) scopes
                ∙ rw covered refl))
      ]
    ]

-- After the consent page has granted a code, the session's user is not asked again for the same
-- scopes by the same client, unless the request insists on it: for a database that refuses no query
-- of the consents.
pub consent_post-remembered :
    (env later : Env) (req : Request) (g : Granted) (s : IdpSession) (required : Option Bool)
    (prompt : String) (db db' : Db)
    → handle_consent_post env req db ≡ (ok g, db')
    → find_row (is_active req.sso_cookie) db.idp_sessions ≡ some s
    → later.fails select_consent ≡ false
    → contains_prompt_value prompt "consent" ≡ false
    → needs_consent {E = Answer} later required s.user_id
        (req.form "client_id")
        (req.form "scope")
        prompt
        db'
      ≡ (ok false, db')
unfolding scopes_covered
consent_post-remembered env later req g s required prompt db db' h live up silent =
    let c = handle_consent_post-IsConsented env req g db db' h in
    let same : c.session.user_id ≡ s.user_id =
      ap (λ (k : IdpSession). k.user_id) (some-eq (sym c.live ∙ live)) in
    needs_consent_of_view later required s.user_id (req.form "client_id") (req.form "scope") prompt
      (req.form "scope") db' up silent
      (ap (λ d. view d.user_consents s.user_id (req.form "client_id")) c.code.written
        ∙ ap (λ k. view c.between.user_consents k (req.form "client_id")) (sym same)
        ∙ c.recorded)
      (all-member_self (fields (req.form "scope")))
