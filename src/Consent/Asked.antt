-- ===== src/Consent/Asked.antt =====
-- When a user is not asked for consent.
use autentico.Prelude.{
  String, ◌≡◌, ◌⊎◌, true, false, some, List, arith, Option-cases, Bool-cases, inl, inr,
}
use autentico.Schema.{Client, UserConsent, Db}
use autentico.Env.{Env, query, select_consent}
use autentico.Exec.{ok}
use autentico.Sql.{find_row}
use autentico.Consent.{
  needs_consent, get_consent, is_covered, scopes_covered, is_required, contains_prompt_value,
  is_between,
}
use autentico.Consent.Table.{view}

-- The client does not want consent, or what it asks for has been granted.
abbrev pub Consented : List UserConsent → Client → String → String → String → Type 0
Consented rows c user_id client_id scope =
    (is_required c.consent_required ≡ false)
    ⊎ ((granted : String) × (view rows user_id client_id ≡ some granted)
        × (scopes_covered granted scope ≡ true))

pub needs_consent-false :
    {E : Type 0} (env : Env) (c : Client) (u client_id scope prompt : String) (db db' : Db)
    → needs_consent {E = E} env c.consent_required u client_id scope prompt db ≡ (ok false, db')
    → Consented db.user_consents c u client_id scope × (db' ≡ db)
unfolding needs_consent get_consent is_covered query
needs_consent-false env c u client_id scope prompt db db' h =
    elim (Bool-cases (is_required c.consent_required)) [
      | inr free ↦ (inl free, ground arith)
      | inl asked ↦ elim (Bool-cases (contains_prompt_value prompt "consent")) [
        | inl insists ↦ absurd (ground arith)
        | inr silent ↦ elim (Bool-cases (env.fails select_consent)) [
          | inl refused ↦ absurd (ground arith)
          | inr up ↦ elim (Option-cases (find_row (is_between u client_id) db.user_consents)) [
            | inl missing ↦ absurd (ground arith)
            | inr (row, found) ↦
                (inr (row.scopes, ground (arith, found), ground arith), ground arith)
          ]
        ]
      ]
    ]
