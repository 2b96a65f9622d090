-- ===== src/Token/DeviceGrant/Polling.antt =====
-- What polling the token endpoint with a device code does, and when it hands out a user.
use autentico.Prelude.{
  ◌≤◌, String, ◌≡◌, ◌≢◌, refl, sym, ap, ◌∙◌, true, false, none, some, List, arith, eq_iff, inl, inr,
  or_empty, some-eq, Bool-cases, ◌==◌, if◌then◌else◌,
}
use autentico.Schema.{User, DeviceCode, Db}
use autentico.Env.{Env, query, exec, consume_device, set_last_polled}
use autentico.Exec.{ok}
use autentico.Exec.Inversion.{bind-ok}
use autentico.Sql.{find_row, modify}
use autentico.Sql.Laws.{find_row-update}
use autentico.DeviceCode.{
  has_code, update_codes, polled_at, consumed, is_authorized, device_code_by_code,
  update_last_polled_at, consume_device_code,
}
use autentico.DeviceCode.States.{Life-terminal, code_row}
use autentico.User.{user_by_id, is_active}
use autentico.Token.CodeGrant.{TokenRequest}
use autentico.Token.DeviceGrant.{
  is_too_soon, answer, handle_device_code_grant, poll_code, find_device,
}
use autentico.Token.DeviceGrant.Operations.{DeviceOp, run_ops, run_ops-Lives}

-- What a poll that returns a user has found.
pub record IsGranted (env : Env) (r : TokenRequest) (u : User) (scope : String) (db : Db)
    : Type 0 where
  pub row : DeviceCode
  pub found : code_row r.device_code db ≡ some row
  pub client : (row.client_id == r.client_id) ≡ true
  pub in_time : env.now ≤ row.expires_at
  pub not_too_soon : is_too_soon env.now row ≡ false
  pub authorized : (row.status == "authorized") ≡ true
  pub has_owner : row.user_id ≢ none
  pub owner : find_row (is_active (or_empty row.user_id)) db.users ≡ some u
  pub same_scope : scope ≡ row.scope

-- The answer to a poll of the row `dc` in the database `s`.
pair-path : {A B : Type 0} (p : A × B) {a : A} → p.0 ≡ a → p ≡ (a, p.1)
pair-path p h = λ i. (h i, p.1)

record IsAnswered (env : Env) (dc : DeviceCode) (u : User) (scope : String) (s t : Db)
    : Type 0 where
  authorized : (dc.status == "authorized") ≡ true
  has_owner : dc.user_id ≢ none
  owner : find_row (is_active (or_empty dc.user_id)) s.users ≡ some u
  same_scope : scope ≡ dc.scope
  spent : env.fails consume_device ≡ false → t ≡ update_codes (is_authorized dc.code) consumed s

answer-IsAnswered :
    (env : Env) (dc : DeviceCode) (u : User) (scope : String) (s t : Db)
    → answer env dc s ≡ (ok (u, scope), t)
    → IsAnswered env dc u scope s t
unfolding answer query exec user_by_id consume_device_code
answer-IsAnswered env dc u scope s t h = record {
  authorized = ground arith;
  has_owner = ground arith;
  owner = ground arith;
  same_scope = ground arith;
  spent = ground arith;
}

-- A poll that gets past the interval test goes on with the time of the poll written.
abbrev polled : Env → DeviceCode → Db → Db
polled env dc s =
    (if env.fails set_last_polled then s else update_codes (has_code dc.code) (polled_at env.now) s)

poll_code-parts :
    (env : Env) (dc : DeviceCode) (u : User) (scope : String) (s t : Db)
    → poll_code env dc s ≡ (ok (u, scope), t)
    → (is_too_soon env.now dc ≡ false) × (answer env dc (polled env dc s) ≡ (ok (u, scope), t))
unfolding poll_code exec update_last_polled_at
poll_code-parts env dc u scope s t h = elim (Bool-cases (is_too_soon env.now dc)) [
  | inl early ↦ absurd (ground arith)
  | inr late ↦ elim (Bool-cases (env.fails set_last_polled)) [
    | inl e ↦ (late, rw e (rw (late, e) at h))
    | inr e ↦ (late, rw e (rw (late, e) at h))
  ]
]

find_device-found :
    (env : Env) (r : TokenRequest) (d : DeviceCode) (s t : Db)
    → find_device env r s ≡ (ok d, t)
    → (t ≡ s)
      × (code_row r.device_code s ≡ some d)
      × ((d.client_id == r.client_id) ≡ true)
      × (env.now ≤ d.expires_at)
unfolding find_device query device_code_by_code
find_device-found env r d s t h = (ground arith, ground arith, ground arith, ground arith)

polled-users : (env : Env) (dc : DeviceCode) (s : Db) → (polled env dc s).users ≡ s.users
polled-users env dc s = ground arith

-- A poll returns a user and a scope only if the device code stands in the table, was issued to the
-- requesting client, has not expired, is not polled before its interval has passed, and has been
-- authorized by an active user, who is the one returned, with the scope of the code.
pub poll-IsGranted :
    (env : Env) (r : TokenRequest) (u : User) (scope : String) (db db' : Db)
    → handle_device_code_grant env r db ≡ (ok (u, scope), db')
    → IsGranted env r u scope db
unfolding handle_device_code_grant
poll-IsGranted env r u scope db db' h =
    let (d, s, found, polling) = bind-ok (find_device env r) (poll_code env) db (u, scope) db' h in
    let (same, row, client, in_time) = find_device-found env r d db s found in
    let (late, answered) = poll_code-parts env d u scope s db' polling in
    let a = answer-IsAnswered env d u scope (polled env d s) db' answered in
    record {
      row = d;
      found = row;
      client = client;
      in_time = in_time;
      not_too_soon = late;
      authorized = a.authorized;
      has_owner = a.has_owner;
      owner =
          ap (find_row (is_active (or_empty d.user_id)))
            (ap (λ (x : Db). x.users) (sym same) ∙ sym (polled-users env d s))
          ∙ a.owner;
      same_scope = a.same_scope;
    }

polled-row :
    (env : Env) (code : String) (d : DeviceCode) (s : Db)
    → code_row code s ≡ some d
    → (e : DeviceCode) × (code_row code (polled env d s) ≡ some e)
      × (e.code ≡ d.code)
      × (e.status ≡ d.status)
polled-row env code d s h = elim (Bool-cases (env.fails set_last_polled)) [
  | inl e ↦ (d, rw e h, refl, refl)
  | inr e ↦ (
    modify (has_code d.code) (polled_at env.now) d,
    rw e (
        find_row-update (has_code code) (has_code d.code) (polled_at env.now) s.device_codes
          (λ y. refl) h),
    ground arith,
    ground arith,
  )
]

consumed-row :
    (code : String) (d e : DeviceCode) (s : Db)
    → code_row code s ≡ some e
    → e.code ≡ d.code
    → (e.status == "authorized") ≡ true
    → code_row code (update_codes (is_authorized d.code) consumed s) ≡ some (consumed e)
consumed-row code d e s h same authorized =
    find_row-update (has_code code) (is_authorized d.code) consumed s.device_codes (λ y. refl) h
    ∙ ground (arith, eq_iff e.code d.code)

-- Where the update that marks the code as consumed succeeds, a poll that returns a user leaves the
-- code consumed.
poll-consumes :
    (env : Env) (r : TokenRequest) (u : User) (scope : String) (db db' : Db)
    → env.fails consume_device ≡ false
    → handle_device_code_grant env r db ≡ (ok (u, scope), db')
    → (e : DeviceCode) × (code_row r.device_code db' ≡ some e) × (e.status ≡ "consumed")
unfolding handle_device_code_grant
poll-consumes env r u scope db db' works h =
    let (d, s, found, polling) = bind-ok (find_device env r) (poll_code env) db (u, scope) db' h in
    let (same, row, client, in_time) = find_device-found env r d db s found in
    let (late, answered) = poll_code-parts env d u scope s db' polling in
    let a = answer-IsAnswered env d u scope (polled env d s) db' answered in
    let (e, e_row, same_code, same_status) =
      polled-row env r.device_code d s (ap (code_row r.device_code) same ∙ row) in
    let authorized = ap (λ x. x == "authorized") same_status ∙ a.authorized in
    (
      consumed e,
      ap (code_row r.device_code) (a.spent works)
          ∙ consumed-row r.device_code d e (polled env d s) e_row same_code authorized,
      refl,
    )

not_consumed : (status : String) → status ≡ "consumed" → (status == "authorized") ≢ true
not_consumed status e h = ground (arith, eq_iff status "authorized", eq_iff "authorized" "consumed")

-- A device code is redeemed at most once: after a poll has returned a user, and the update that
-- marks the code as consumed has not failed, no later poll with the same device code returns a
-- user, whatever operations run in between and whether they fail or not.
pub poll_once :
    (env later : Env) (r s : TokenRequest) (u v : User) (scope scope' : String) (db db' : Db)
    (ops : List DeviceOp)
    → env.fails consume_device ≡ false
    → handle_device_code_grant env r db ≡ (ok (u, scope), db')
    → s.device_code ≡ r.device_code
    → (handle_device_code_grant later s (run_ops ops db')).0 ≢ ok (v, scope')
poll_once env later r s u v scope scope' db db' ops works h same again =
    let (e, row, spent) = poll-consumes env r u scope db db' works h in
    let (f, row', l) = (run_ops-Lives ops db').at r.device_code e row in
    let still = Life-terminal e f l (inr spent) ∙ spent in
    let db2 = run_ops ops db' in
    let g =
      poll-IsGranted later s v scope' db2 (handle_device_code_grant later s db2).1
        (pair-path _ again) in
    let same_row : g.row ≡ f = some-eq (sym g.found ∙ ap (λ c. code_row c db2) same ∙ row') in
    not_consumed g.row.status (ap (λ (x : DeviceCode). x.status) same_row ∙ still) g.authorized
