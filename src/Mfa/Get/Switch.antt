-- ===== src/Mfa/Get/Switch.antt =====
-- The change to the other method.
use autentico.Prelude.{
  String, ◌≡◌, refl, sym, ◌∙◌, Bool, true, false, some, List, ◌∷◌, ◌==◌, arith, if◌then◌else◌,
  is_empty, Option-cases, inl, inr, eq_iff, ltb, none, [], ◌⊎◌,
}
use autentico.Schema.{MfaChallenge, User, Db}
use autentico.Env.{
  Env, Healthy, query, exec, exec_if, mark_challenge, insert_challenge, select_challenge,
  select_user,
}
use autentico.Exec.{ok, err, pure, raise}
use autentico.Exec.Forward.{bind_of_ok, bind_of_err}
use autentico.Sql.{find_row, update_rows, any_row}
use autentico.Sql.Laws.{
  find_row-update, find_row-update_none, find_row_sound, find_row-insert, first_row, any_row_iff,
}
use autentico.Web.{Request}
use autentico.Text.{append}
use autentico.Browser.{Answer, redirect}
use autentico.User.{is_active, user_by_id}
use autentico.AuthCode.{has_user}
use autentico.Mfa.{
  has_id, used, mark_challenge_used, create_mfa_challenge, mfa_challenge_by_id_including_expired,
}
use autentico.Mfa.Get.{
  handle_method_switch, may_switch, switch_to, switched_challenge, mfa_page, handle_mfa,
  handle_mfa_get,
}

-- The row of the new challenge.
abbrev pub new_row : Env → String → String → MfaChallenge → MfaChallenge
new_row env id method c = record (switched_challenge id method c) { created_at = env.now }

-- The database after the change.
abbrev pub switched : Env → String → String → MfaChallenge → Db → Db
switched env id method c db = record db {
  mfa_challenges = new_row env id method c ∷ update_rows (has_id c.id) used db.mfa_challenges;
}

any_row-update :
    (id other : String) (xs : List MfaChallenge)
    → any_row (has_id id) xs ≡ false
    → any_row (has_id id) (update_rows (has_id other) used xs) ≡ false
any_row-update id other xs fresh = elim (Option-cases (find_row (has_id id) xs)) [
  | inr (x, found) ↦ absurd (ground (arith, any_row_iff (has_id id) xs))
  | inl missing ↦
      let still = find_row-update_none (has_id id) (has_id other) used xs (λ y. refl) missing in
      any_row_iff (has_id id) (update_rows (has_id other) used xs) ∙ rw still refl
]

switch_to-run :
    (env : Env) (method id : String) (c : MfaChallenge) (db : Db)
    → Healthy env
    → env.secure_code 3 ≡ some id
    → has_user db c.user_id ≡ true
    → any_row (has_id id) db.mfa_challenges ≡ false
    → switch_to env method c db ≡ (err (mfa_page env id), switched env id method c db)
unfolding switch_to mark_challenge_used create_mfa_challenge exec exec_if
switch_to-run env method id c db healthy drawn owner fresh =
    let still = any_row-update id c.id db.mfa_challenges fresh in
    rw (drawn, switch_to)
      (ground (arith, healthy mark_challenge, healthy insert_challenge, owner, still))

-- The method is the other one; an authenticator has to be enrolled.
abbrev pub Offers : MfaChallenge → String → Db → Type 0
Offers c method db =
    ((method ≡ "email") × ((c.method == "email") ≡ false))
    ⊎ ((method ≡ "totp")
        × ((c.method == "totp") ≡ false)
        × ((u : User) × (find_row (is_active c.user_id) db.users ≡ some u)
            × (u.totp_verified ≡ true)))

-- A new challenge with the user, the remembered request and the expiry of an old one.
pub record IsReopened (id method : String) (c n : MfaChallenge) : Type 0 where
  pub name : n.id ≡ id
  pub user_id : n.user_id ≡ c.user_id
  pub other : n.method ≡ method
  pub no_code : n.code ≡ ""
  pub login_state : n.login_state ≡ c.login_state
  pub expires_at : n.expires_at ≡ c.expires_at
  pub unused : n.used ≡ false
  pub failed_attempts : n.failed_attempts ≡ 0
  pub unsent : n.otp_sent_at ≡ none

may_switch-run :
    (env : Env) (method : String) (c : MfaChallenge) (db : Db)
    → Healthy env
    → Offers c method db
    → may_switch env method c db ≡ (ok true, db)
unfolding may_switch user_by_id query
may_switch-run env method c db healthy (inl (mail, other)) = rw mail (rw other refl)
may_switch-run env method c db healthy (inr (totp, other, (u, active, enrolled))) =
    rw totp (rw other (rw (healthy select_user, active) (rw enrolled refl)))

handle_method_switch-run :
    (env : Env) (req : Request) (id : String) (c : MfaChallenge) (db : Db)
    → Healthy env
    → env.config.mfa_method ≡ "both"
    → is_empty env.config.smtp_host ≡ false
    → is_empty (req.query "switch_to") ≡ false
    → Offers c (req.query "switch_to") db
    → env.secure_code 3 ≡ some id
    → has_user db c.user_id ≡ true
    → any_row (has_id id) db.mfa_challenges ≡ false
    → handle_method_switch env req c db
      ≡ (err (mfa_page env id), switched env id (req.query "switch_to") c db)
unfolding handle_method_switch
handle_method_switch-run env req id c db healthy both mail asked offer drawn owner fresh =
    let method = req.query "switch_to" in
    let offered : (env.config.mfa_method == "both") ≡ true =
      (eq_iff env.config.mfa_method "both").1 both in
    rw (asked, handle_method_switch)
      (rw offered (
        rw mail (
          bind_of_ok (may_switch env method c)
            (λ (b : Bool). if b then switch_to env method c else pure tt) db true db
            (may_switch-run env method c db healthy offer)
          ∙ switch_to-run env method id c db healthy drawn owner fresh)))

handle_mfa_get-run :
    (env : Env) (req : Request) (c : MfaChallenge) (page : Answer) (db db' : Db)
    → Healthy env
    → req.query "challenge_id" ≡ c.id
    → is_empty c.id ≡ false
    → find_row (has_id c.id) db.mfa_challenges ≡ some c
    → c.used ≡ false
    → ltb c.expires_at env.now ≡ false
    → handle_method_switch env req c db ≡ (err page, db')
    → handle_mfa_get env req db ≡ (err page, db')
unfolding handle_mfa_get mfa_challenge_by_id_including_expired query
handle_mfa_get-run env req c page db db' healthy named filled listed unused in_time switch =
    rw (named, filled)
      (rw (healthy select_challenge, listed)
        (rw (unused, in_time) (bind_of_err (handle_method_switch env req c) _ db page db' switch)))

-- A user who changes to the other method is sent by the page for the second factor to a new
-- challenge: of the same user, for the same remembered request and with the same expiry, not used
-- and with no failed attempt, whatever number the old one has; the old one is used up. This holds
-- for a challenge that is open, where both methods are offered and e-mail is configured, the user
-- has enrolled an authenticator if that is the other method, an identifier is drawn that is not in
-- use, the user exists, and the database refuses no statement.
pub switch-reopens :
    (env : Env) (req : Request) (id : String) (c : MfaChallenge) (db : Db)
    → Healthy env
    → req.method ≡ "GET"
    → req.query "challenge_id" ≡ c.id
    → is_empty c.id ≡ false
    → find_row (has_id c.id) db.mfa_challenges ≡ some c
    → c.used ≡ false
    → ltb c.expires_at env.now ≡ false
    → env.config.mfa_method ≡ "both"
    → is_empty env.config.smtp_host ≡ false
    → is_empty (req.query "switch_to") ≡ false
    → Offers c (req.query "switch_to") db
    → env.secure_code 3 ≡ some id
    → has_user db c.user_id ≡ true
    → any_row (has_id id) db.mfa_challenges ≡ false
    → (db' : Db) × (handle_mfa env req db
        ≡ (err (redirect (append env.oauth_path "/mfa") (("challenge_id", id) ∷ [])), db'))
      × ((n : MfaChallenge) × (find_row (has_id id) db'.mfa_challenges ≡ some n)
          × IsReopened id (req.query "switch_to") c n)
      × ((o : MfaChallenge) × (find_row (has_id c.id) db'.mfa_challenges ≡ some o)
          × (o.used ≡ true))
unfolding handle_mfa
switch-reopens env req id c db healthy get named filled listed unused in_time both mail asked offer
      drawn owner fresh =
    let method = req.query "switch_to" in
    let new = new_row env id method c in
    let rest = update_rows (has_id c.id) used db.mfa_challenges in
    let self = find_row_sound (has_id c.id) db.mfa_challenges listed in
    let marked : find_row (has_id c.id) rest ≡ some (used c) =
      find_row-update (has_id c.id) (has_id c.id) used db.mfa_challenges (λ y. refl) listed
      ∙ ground (arith, self) in
    let switch =
      handle_method_switch-run env req id c db healthy both mail asked offer drawn owner fresh in
    (
      switched env id method c db,
      rw get (
          bind_of_err (handle_mfa_get env req) (λ page. raise page) db (mfa_page env id)
            (switched env id method c db)
            (handle_mfa_get-run env req c (mfa_page env id) db (switched env id method c db) healthy
              named filled listed unused in_time switch)),
      (
        new,
        first_row (has_id id) new rest ((eq_iff id id).1 refl),
        record {
          name = refl;
          user_id = refl;
          other = refl;
          no_code = refl;
          login_state = refl;
          expires_at = refl;
          unused = refl;
          failed_attempts = refl;
          unsent = refl;
        },
      ),
      (
        used c,
        find_row-insert (has_id c.id) (has_id id) new rest (used c)
            (any_row-update id c.id db.mfa_challenges fresh)
            (λ hit y is_c.
              (eq_iff y.id id).1 ((eq_iff y.id c.id).0 is_c ∙ sym ((eq_iff id c.id).0 hit)))
            marked,
        refl,
      ),
    )
