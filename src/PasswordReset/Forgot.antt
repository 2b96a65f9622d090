-- ===== src/PasswordReset/Forgot.antt =====
-- A request for a link.
use mathlib.Core.Path.{subst}
use autentico.Prelude.{
  ◌≡◌, refl, ap, sym, ◌∙◌, String, true, false, not, Option, none, some, List, ◌∷◌, ◌+◌, ◌==◌,
  arith, is_empty, or_empty, Pairs, Option-cases, Bool-cases, inl, inr,
}
use autentico.Schema.{PasswordResetToken, User, Db}
use autentico.Env.{
  Env, Healthy, query, exec, exec_if, select_user_named, select_user_by_email, insert_reset,
  invalidate_resets,
}
use autentico.Exec.{ok, require, pure, recover, GoError}
use autentico.Exec.Inversion.{bind-ok, require-ok}
use autentico.Exec.Forward.{bind_of_ok}
use autentico.Sql.{find_row, update_rows}
use autentico.Sql.Laws.{Pairs-update}
use autentico.Web.{Request}
use autentico.User.{user_by_username, user_by_email, has_login, has_verified_email}
use autentico.PasswordReset.Quiet.{as_option-Succeeds, link_for-Succeeds}
use autentico.PasswordReset.Sent.{
  IsLinkTo, build_reset_url-IsLinkTo, Retires, used_now-Retires, IsLinkRow,
}
use autentico.PasswordReset.{
  OauthParams, ResetPage, Mail, handle_forgot_password, request_link, params_from_request,
  find_account, link_for, send_link, send_new, is_reachable, build_reset_url, create_reset_token,
  reset_row, used_now, is_unused_of, invalidate_previous_tokens,
}

-- The account that an identifier names.
abbrev pub account : Env → String → Db → Option User
account env identifier db = elim (find_row (has_login identifier) db.users) [
  | some u ↦ some u
  | none ↦ find_row (has_verified_email (env.to_lower identifier)) db.users
]

find_account-run :
    {E : Type 0} (env : Env) (identifier : String) (db : Db)
    → Healthy env
    → find_account {E = E} env identifier db ≡ (ok (account env identifier db), db)
unfolding find_account user_by_username user_by_email query
find_account-run {E = E} env identifier db healthy =
    elim (Option-cases (find_row (has_login identifier) db.users)) [
      | inr (u, named) ↦
          let it : account env identifier db ≡ some u = rw (account, named) refl in
          let run : find_account {E = E} env identifier db ≡ (ok (some u), db) =
            rw (healthy select_user_named, named) refl in
          run ∙ ap (λ a. (ok a, db)) (sym it)
      | inl missing ↦
          elim (Option-cases (find_row (has_verified_email (env.to_lower identifier)) db.users)) [
            | inr (u, addressed) ↦
                let it : account env identifier db ≡ some u = rw (account, missing) addressed in
                let run : find_account {E = E} env identifier db ≡ (ok (some u), db) =
                  rw (healthy select_user_named, missing, healthy select_user_by_email, addressed)
                    refl in
                run ∙ ap (λ a. (ok a, db)) (sym it)
            | inl unknown ↦
                let nobody : account env identifier db ≡ none = rw (account, missing) unknown in
                let run : find_account {E = E} env identifier db ≡ (ok none, db) =
                  rw (healthy select_user_named, missing, healthy select_user_by_email, unknown)
                    refl in
                run ∙ ap (λ a. (ok a, db)) (sym nobody)
          ]
    ]

-- The table after a link has been sent to a user.
abbrev pub sent_rows : Env → User → String → Db → List PasswordResetToken
sent_rows env usr raw db =
    reset_row env usr.id (env.hash_sha256 raw) (env.now + env.config.password_reset_expiration)
    ∷ update_rows (is_unused_of usr.id) (used_now env) db.password_reset_tokens

pub record IsMailed (env : Env) (req : Request) (m : Mail) (db db' : Db) : Type 0 where
  pub user : User
  pub raw : String
  pub found : account env (req.form "identifier") db ≡ some user
  pub reachable : is_reachable (some user) ≡ true
  pub drawn : env.secure_code 0 ≡ some raw
  pub mail : m ≡ record {
    to = or_empty user.email;
    link = build_reset_url env raw (params_from_request req.form);
  }
  pub address : m.to ≡ or_empty user.email
  pub addressed : is_empty m.to ≡ false
  pub verified : user.is_email_verified ≡ true
  pub link : IsLinkTo env (params_from_request req.form) raw m.link
  pub row : PasswordResetToken
  pub rest : List PasswordResetToken
  pub written : db' ≡ record db { password_reset_tokens = row ∷ rest }
  pub new : IsLinkRow env user.id raw row
  pub retired : Pairs (Retires env user.id) db.password_reset_tokens rest

record Linked (env : Env) (p : OauthParams) (usr : User) (m : Mail) (db db' : Db) : Type 0 where
  raw : String
  drawn : env.secure_code 0 ≡ some raw
  mail : m ≡ record { to = or_empty usr.email; link = build_reset_url env raw p }
  written : db' ≡ record db { password_reset_tokens = sent_rows env usr raw db }

send_link-Linked :
    {E : Type 0} (env : Env) (p : OauthParams) (usr : User) (m : Mail) (db db' : Db)
    → Healthy env
    → send_link {E = E} env p usr db ≡ (ok (some m), db')
    → Linked env p usr m db db'
unfolding send_link send_new invalidate_previous_tokens create_reset_token exec exec_if
send_link-Linked env p usr m db db' healthy h = elim (Option-cases (env.secure_code 0)) [
  | inl broken ↦ absurd (ground (arith, healthy invalidate_resets))
  | inr (raw, drawn) ↦ record {
    raw = raw;
    drawn = drawn;
    mail = ground (arith, healthy invalidate_resets, healthy insert_reset);
    written = ground (arith, healthy invalidate_resets, healthy insert_reset);
  }
]

link_for-IsMailed :
    {E : Type 0} (env : Env) (req : Request) (usr : Option User) (m : Mail) (db db' : Db)
    → Healthy env
    → account env (req.form "identifier") db ≡ usr
    → link_for {E = E} env (params_from_request req.form) usr db ≡ (ok (some m), db')
    → IsMailed env req m db db'
link_for-IsMailed env req none m db db' healthy found h = absurd (ground arith)
link_for-IsMailed {E = E} env req (some u) m db db' healthy found h =
    elim (Bool-cases (is_reachable (some u))) [
      | inr unreachable ↦ absurd (ground arith)
      | inl reachable ↦
          let run : send_link {E = E} env (params_from_request req.form) u db ≡ (ok (some m), db') =
            ground (arith, reachable) in
          let q = params_from_request req.form in
          let l = send_link-Linked env q u m db db' healthy run in
          record {
            user = u;
            raw = l.raw;
            found = found;
            reachable = reachable;
            drawn = l.drawn;
            mail = l.mail;
            address = ap (λ (k : Mail). k.to) l.mail;
            addressed = ap (λ (k : Mail). is_empty k.to) l.mail ∙ ground (arith, reachable);
            verified = ground (arith, reachable);
            link =
                subst (λ (k : Mail). IsLinkTo env q l.raw k.link) (sym l.mail)
                  (build_reset_url-IsLinkTo env l.raw q);
            row =
                reset_row env u.id (env.hash_sha256 l.raw)
                  (env.now + env.config.password_reset_expiration);
            rest = update_rows (is_unused_of u.id) (used_now env) db.password_reset_tokens;
            written = l.written;
            new = record { owner = refl; hash = refl; expires_at = refl; unused = refl };
            retired =
                Pairs-update (Retires env u.id) (is_unused_of u.id) (used_now env)
                  db.password_reset_tokens (used_now-Retires env u.id);
          }
    ]

find_account-link_for :
    (env : Env) (req : Request) (usr : Option User) (mail : Option Mail) (p : OauthParams)
    (m : Mail) (db2 db3 db4 db db' : Db)
    → Healthy env
    → find_account {E = ResetPage} env (req.form "identifier") db2 ≡ (ok usr, db3)
    → link_for {E = ResetPage} env (params_from_request req.form) usr db3 ≡ (ok mail, db4)
    → pure {E = ResetPage} {A = OauthParams × Option Mail} (params_from_request req.form, mail) db4
      ≡ (ok (p, some m), db')
    → db2 ≡ db
    → IsMailed env req m db db'
find_account-link_for env req usr mail p m db2 db3 db4 db db' healthy h3 h4 last start =
    let look = find_account-run {E = ResetPage} env (req.form "identifier") db2 healthy in
    let same : db3 ≡ db2 = ground (arith, look, h3) in
    let found : account env (req.form "identifier") db2 ≡ usr = ground (arith, look, h3) in
    let sent : link_for {E = ResetPage} env (params_from_request req.form) usr db3
        ≡ (ok (some m), db') =
      ground (arith, h4, last) in
    link_for-IsMailed {E = ResetPage} env req usr m db db' healthy
      (ap (account env (req.form "identifier")) (sym start) ∙ found)
      (ap (link_for env (params_from_request req.form) usr) (sym start ∙ sym same) ∙ sent)

request_link-IsMailed :
    (env : Env) (req : Request) (p : OauthParams) (m : Mail) (db db' : Db)
    → Healthy env
    → request_link env req db ≡ (ok (p, some m), db')
    → IsMailed env req m db db'
unfolding request_link
request_link-IsMailed env req p m db db' healthy h =
    let q = params_from_request req.form in
    let named = not (is_empty (req.form "identifier")) in
    let (_, db1, h1, rest1) = bind-ok (require req.parses _) _ db (p, some m) db' h in
    let (_, same1) = require-ok req.parses _ db db1 h1 in
    let (_, db2, h2, rest2) = bind-ok (require named _) _ db1 (p, some m) db' rest1 in
    let (_, same2) = require-ok named _ db1 db2 h2 in
    let (usr, db3, h3, rest3) =
      bind-ok (find_account {E = ResetPage} env (req.form "identifier")) _ db2 (p, some m) db'
        rest2 in
    let (mail, db4, h4, rest4) =
      bind-ok (link_for {E = ResetPage} env q usr) (λ mail. pure (q, mail)) db3 (p, some m) db'
        rest3 in
    find_account-link_for env req usr mail p m db2 db3 db4 db db' healthy h3 h4 rest4
      (same2 ∙ same1)

-- Whenever a request for a link sends one, and the database has accepted every statement, then the
-- account is the one that the identifier names, by its name or else by its verified address; it
-- has a verified address, to which the message goes; the link leads to /reset-password with the
-- drawn token and the parameters of the request; one row is new, unused, with the hash of that
-- token, the user and the configured expiry; the unused rows of the user from before are out of
-- use; and nothing else has been written.
pub handle_forgot_password-IsMailed :
    (env : Env) (req : Request) (p : OauthParams) (m : Mail) (db db' : Db)
    → Healthy env
    → handle_forgot_password env req db ≡ (ok (p, some m), db')
    → IsMailed env req m db db'
unfolding handle_forgot_password
handle_forgot_password-IsMailed env req p m db db' healthy h =
    elim (Bool-cases (req.method == "GET")) [
      | inl get ↦ absurd (ground arith)
      | inr posted ↦
          let run : request_link env req db ≡ (ok (p, some m), db') = ground arith in
          request_link-IsMailed env req p m db db' healthy run
    ]

-- Whatever database there is and whichever statements it refuses, a request for a link that
-- parses and has an identifier is answered with the page "sent" for the request's parameters: the
-- answer does not tell whether there is an account.
pub handle_forgot_password-sent :
    (env : Env) (req : Request) (db : Db)
    → (req.method == "GET") ≡ false
    → req.parses ≡ true
    → is_empty (req.form "identifier") ≡ false
    → (mail : Option Mail) × ((handle_forgot_password env req db).0
        ≡ ok (params_from_request req.form, mail))
unfolding handle_forgot_password request_link find_account
handle_forgot_password-sent env req db posted parses named =
    let p = params_from_request req.form in
    let identifier = req.form "identifier" in
    let (usr, db1, h1) = as_option-Succeeds (
      recover {F = GoError} (user_by_username env identifier) (λ _. user_by_email env identifier)
        db) in
    let (mail, db2, h2) = link_for-Succeeds env p usr db1 in
    let run : request_link env req db ≡ (ok (p, mail), db2) =
      rw (parses, named)
        (bind_of_ok (find_account {E = ResetPage} env identifier) _ db usr db1 h1
          ∙ bind_of_ok (link_for env p usr) (λ m. pure (p, m)) db1 mail db2 h2) in
    (mail, rw posted (ap (λ r. r.0) run))
