-- ===== src/Consent/Table.antt =====
-- The table of consents as a map from users and clients to scopes.
use autentico.Prelude.{
  String, ◌≡◌, refl, ap, sym, ◌∙◌, Bool, true, false, not, Option, none, some, List, [], ◌∷◌, ◌==◌,
  ◌&&◌, arith, eq_iff, eq_refl, filter, Bool-cases, Option-cases, inl, inr, if◌then◌else◌,
}
use autentico.Schema.{UserConsent, Db}
use autentico.Env.{Env, exec, exec_if}
use autentico.Exec.{Exec, GoError, ok, pure, ◌>>◌}
use autentico.Exec.Inversion.{bind-ok}
use autentico.Sql.{find_row, update_rows, any_row}
use autentico.Sql.Laws.{find_row-update, find_row-update_none, find_row_sound, any_row_iff}
use autentico.Consent.{
  is_between, consent_row, granted_again, upsert_rows, upsert_consent, delete_consents_by_client,
  delete_consents_by_user,
}

abbrev scopes : Option UserConsent → Option String
scopes none = none
scopes (some c) = some c.scopes

-- What the table says: the scopes that a user has granted to a client.
abbrev pub View : Type 0
View = String → String → Option String

abbrev pub view : List UserConsent → View
view rows user_id client_id = scopes (find_row (is_between user_id client_id) rows)

abbrev same_pair : String → String → String → String → Bool
same_pair a b u c = a == u && b == c

-- The map after a grant, and after all grants to a client or of a user are withdrawn.
abbrev pub granting : String → String → String → View → View
granting a b granted m u c = if same_pair a b u c then some granted else m u c

abbrev pub without_client : String → View → View
without_client b m u c = if c == b then none else m u c

abbrev pub without_user : String → View → View
without_user a m u c = if u == a then none else m u c

-- Two pairs that differ have no row in common.
apart :
    (a b u c : String) (y : UserConsent)
    → same_pair a b u c ≡ false
    → is_between u c y ≡ true
    → is_between a b y ≡ false
apart a b u c y differ hit = elim (Bool-cases (is_between a b y)) [
  | inr miss ↦ miss
  | inl both ↦
      let user : a ≡ u =
        sym ((eq_iff y.user_id a).0 (ground arith)) ∙ (eq_iff y.user_id u).0 (ground arith) in
      let client : b ≡ c =
        sym ((eq_iff y.client_id b).0 (ground arith)) ∙ (eq_iff y.client_id c).0 (ground arith) in
      absurd (ground (arith, (eq_iff a u).1 user, (eq_iff b c).1 client))
]

view-update_same :
    (env : Env) (a b granted : String) (xs : List UserConsent)
    → any_row (is_between a b) xs ≡ true
    → view (update_rows (is_between a b) (granted_again env granted) xs) a b ≡ some granted
view-update_same env a b granted xs old = elim (Option-cases (find_row (is_between a b) xs)) [
  | inl missing ↦ absurd (ground (arith, any_row_iff (is_between a b) xs))
  | inr (x, found) ↦
      let p = is_between a b in
      let f = granted_again env granted in
      ap scopes (find_row-update p p f xs (λ y. refl) found)
      ∙ ground (arith, find_row_sound p xs found)
]

view-update_other :
    (env : Env) (a b granted u c : String) (xs : List UserConsent)
    → same_pair a b u c ≡ false
    → view (update_rows (is_between a b) (granted_again env granted) xs) u c ≡ view xs u c
view-update_other env a b granted u c xs differ =
    let p = is_between u c in
    let q = is_between a b in
    let f = granted_again env granted in
    elim (Option-cases (find_row p xs)) [
      | inl missing ↦
          ap scopes (find_row-update_none p q f xs (λ y. refl) missing) ∙ sym (ap scopes missing)
      | inr (x, found) ↦
          let miss = apart a b u c x differ (find_row_sound p xs found) in
          ap scopes (find_row-update p q f xs (λ y. refl) found)
          ∙ ground (arith, miss)
          ∙ sym (ap scopes found)
    ]

pub view-upsert_same :
    (env : Env) (new : UserConsent) (xs : List UserConsent)
    → view (upsert_rows env new xs) new.user_id new.client_id ≡ some new.scopes
unfolding upsert_rows find_row
view-upsert_same env new xs =
    elim (Bool-cases (any_row (is_between new.user_id new.client_id) xs)) [
      | inl old ↦ rw old (view-update_same env new.user_id new.client_id new.scopes xs old)
      | inr fresh ↦ rw fresh (ground (arith, eq_refl new.user_id, eq_refl new.client_id))
    ]

view-upsert_other :
    (env : Env) (new : UserConsent) (u c : String) (xs : List UserConsent)
    → same_pair new.user_id new.client_id u c ≡ false
    → view (upsert_rows env new xs) u c ≡ view xs u c
unfolding upsert_rows find_row
view-upsert_other env new u c xs differ =
    elim (Bool-cases (any_row (is_between new.user_id new.client_id) xs)) [
      | inl old ↦ rw old (view-update_other env new.user_id new.client_id new.scopes u c xs differ)
      | inr fresh ↦ rw fresh (rw differ refl)
    ]

view-upsert :
    (env : Env) (new : UserConsent) (u c : String) (xs : List UserConsent)
    → view (upsert_rows env new xs) u c
      ≡ granting new.user_id new.client_id new.scopes (view xs) u c
view-upsert env new u c xs = elim (Bool-cases (same_pair new.user_id new.client_id u c)) [
  | inl same ↦
      let user : new.user_id ≡ u = (eq_iff new.user_id u).0 (ground arith) in
      let client : new.client_id ≡ c = (eq_iff new.client_id c).0 (ground arith) in
      ap (λ k. view (upsert_rows env new xs) k c) (sym user)
      ∙ ap (λ k. view (upsert_rows env new xs) new.user_id k) (sym client)
      ∙ view-upsert_same env new xs
      ∙ rw same refl
  | inr differ ↦ view-upsert_other env new u c xs differ ∙ rw differ refl
]

view-filter_client :
    (b u c : String) (xs : List UserConsent)
    → view (filter (λ x. not (x.client_id == b)) xs) u c ≡ without_client b (view xs) u c
unfolding find_row
view-filter_client b u c [] = ground arith
view-filter_client b u c (x ∷ xs) =
    ground
      (arith, view-filter_client b u c xs, eq_iff x.client_id b, eq_iff x.client_id c, eq_iff c b)

view-filter_user :
    (a u c : String) (xs : List UserConsent)
    → view (filter (λ x. not (x.user_id == a)) xs) u c ≡ without_user a (view xs) u c
unfolding find_row
view-filter_user a u c [] = ground arith
view-filter_user a u c (x ∷ xs) =
    ground (arith, view-filter_user a u c xs, eq_iff x.user_id a, eq_iff x.user_id u, eq_iff u a)

-- The operations on the table that name users and clients.
pub data Operation : Type 0 where
  grant : String → String → String → Operation
  forget_client forget_user : String → Operation

abbrev pub perform : Env → Operation → Exec GoError (Unit {0})
perform env (grant a b granted) = upsert_consent env a b granted
perform env (forget_client b) = delete_consents_by_client env b
perform env (forget_user a) = delete_consents_by_user env a

-- Each operation runs under the clock and the random numbers of its own request.
abbrev pub perform_all : List (Env × Operation) → Exec GoError (Unit {0})
perform_all [] = pure tt
perform_all ((env, op) ∷ ops) = let rest = perform_all ops in do perform env op; rest

abbrev pub apply : Operation → View → View
apply (grant a b granted) m = granting a b granted m
apply (forget_client b) m = without_client b m
apply (forget_user a) m = without_user a m

abbrev pub replay : List (Env × Operation) → View → View
replay [] m = m
replay ((_, op) ∷ ops) m = replay ops (apply op m)

perform-apply :
    (env : Env) (op : Operation) (db db' : Db) (u c : String)
    → perform env op db ≡ (ok tt, db')
    → view db'.user_consents u c ≡ apply op (view db.user_consents) u c
unfolding upsert_consent delete_consents_by_client delete_consents_by_user exec exec_if
perform-apply env (grant a b granted) db db' u c h = elim (Option-cases (env.secure_code 2)) [
  | inl broken ↦ absurd (ground arith)
  | inr (id, drawn) ↦
      let written : db'.user_consents
          ≡ upsert_rows env (consent_row env id a b granted) db.user_consents =
        ground arith in
      ap (λ rows. view rows u c) written
      ∙ view-upsert env (consent_row env id a b granted) u c db.user_consents
]
perform-apply env (forget_client b) db db' u c h =
    let written : db'.user_consents ≡ filter (λ x. not (x.client_id == b)) db.user_consents =
      ground arith in
    ap (λ rows. view rows u c) written ∙ view-filter_client b u c db.user_consents
perform-apply env (forget_user a) db db' u c h =
    let written : db'.user_consents ≡ filter (λ x. not (x.user_id == a)) db.user_consents =
      ground arith in
    ap (λ rows. view rows u c) written ∙ view-filter_user a u c db.user_consents

-- Two maps that agree do so after every operation.
apply-agrees :
    (op : Operation) (m n : View) (u c : String) → m u c ≡ n u c → apply op m u c ≡ apply op n u c
apply-agrees (grant a b granted) m n u c h = ground arith
apply-agrees (forget_client b) m n u c h = ground arith
apply-agrees (forget_user a) m n u c h = ground arith

replay-agrees :
    (ops : List (Env × Operation)) (m n : View) (u c : String)
    → m u c ≡ n u c
    → replay ops m u c ≡ replay ops n u c
replay-agrees [] m n u c h = h
replay-agrees ((env, op) ∷ ops) m n u c h =
    replay-agrees ops (apply op m) (apply op n) u c (apply-agrees op m n u c h)

-- Any sequence of grants and withdrawals that the database has accepted leaves a table that says
-- what the same sequence makes of a map from users and clients to scopes: a grant replaces the
-- scopes of its user and its client and of no others, and a withdrawal removes all those of its
-- client or of its user and no others.
pub perform-replay :
    (ops : List (Env × Operation)) (db db' : Db) (u c : String)
    → perform_all ops db ≡ (ok tt, db')
    → view db'.user_consents u c ≡ replay ops (view db.user_consents) u c
perform-replay [] db db' u c h = ground arith
perform-replay ((env, op) ∷ ops) db db' u c h =
    let (_, db1, first, rest) = bind-ok (perform env op) _ db tt db' h in
    perform-replay ops db1 db' u c rest
    ∙ replay-agrees ops (view db1.user_consents) (apply op (view db.user_consents)) u c
        (perform-apply env op db db1 u c first)
