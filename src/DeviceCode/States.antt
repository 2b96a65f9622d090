-- ===== src/DeviceCode/States.antt =====
-- The life of a device code (RFC 8628 section 3.5): what every operation may do to a row.
use autentico.Prelude.{
  ℕ, ◌+◌, ◌≤◌, String, ◌≡◌, refl, ap, ◌∙◌, Bool, true, Option, none, some, ◌∷◌, arith, eq_iff, ◌⊎◌,
  inl, inr, ◌==◌, Bool-cases, ◌||◌, not,
}
use autentico.Schema.{DeviceCode, Db}
use autentico.Env.{Env}
use autentico.Exec.Within.{IsPreorder, Within, Within-exec, Within-exec_if}
use autentico.Sql.{find_row, modify, any_row}
use autentico.Sql.Laws.{find_row-update, find_row-insert}
use autentico.DeviceCode.{
  has_code, has_user_code, update_codes, is_pending, authorized_by, denied, is_authorized, consumed,
  slower, polled_at, create_device_code, authorize_device_code, deny_device_code,
  consume_device_code, increment_polling_interval, update_last_polled_at,
}

-- The state machine of the status column.
pub data StatusMove (before after : String) : Type 0 where
  stay : after ≡ before → StatusMove before after
  authorize : before ≡ "pending" → after ≡ "authorized" → StatusMove before after
  deny : before ≡ "pending" → after ≡ "denied" → StatusMove before after
  consume : before ≡ "authorized" → after ≡ "consumed" → StatusMove before after

-- One write to a row: the status moves along the machine, the interval does not shrink, and what
-- the code was issued for stays.
pub record Move (d e : DeviceCode) : Type 0 where
  pub status : StatusMove d.status e.status
  pub slower : d.interval_seconds ≤ e.interval_seconds
  pub client : e.client_id ≡ d.client_id
  pub scope : e.scope ≡ d.scope
  pub expiry : e.expires_at ≡ d.expires_at

pub data Life (d : DeviceCode) : DeviceCode → Type 0 where
  here : Life d d
  next : {e f : DeviceCode} → Life d e → Move e f → Life d f

Life-append : {d e f : DeviceCode} → Life d e → Life e f → Life d f
Life-append l here = l
Life-append l (next m step) = next (Life-append l m) step

abbrev pub code_row : String → Db → Option DeviceCode
code_row code db = find_row (has_code code) db.device_codes

-- Every row of the first database has a row under the same code in the second one, later in life.
pub record Lives (s t : Db) : Type 0 where
  pub at :
      (code : String) (d : DeviceCode)
      → code_row code s ≡ some d
      → (e : DeviceCode) × (code_row code t ≡ some e) × Life d e

pub Lives-preorder : IsPreorder Lives
Lives-preorder = record {
  same = λ s. record { at = λ code d h. (d, h, Life.here) };
  chain = λ s t u st tu. record {
    at = λ code d h.
        let (e, found, l) = st.at code d h in
        let (f, found', m) = tu.at code e found in (f, found', Life-append l m);
  };
}

module _ (q : DeviceCode → Bool) (f : DeviceCode → DeviceCode)
    (keeps : (d : DeviceCode) → (f d).code ≡ d.code)
    (moves : (d : DeviceCode) → q d ≡ true → Move d (f d)) where
  modify-Life : (d : DeviceCode) → Life d (modify q f d)
  modify-Life d = elim (Bool-cases (q d)) [
    | inl hit ↦ rw hit (Life.next Life.here (moves d hit))
    | inr miss ↦ rw miss Life.here
  ]

  update-Lives : (s : Db) → Lives s (update_codes q f s)
  update-Lives s = record {
    at = λ code d h. (
      modify q f d,
      find_row-update (has_code code) q f s.device_codes (λ y. ap (λ c. c == code) (keeps y)) h,
      modify-Life d,
    );
  }

authorize-Move :
    (user_code user_id : String) (d : DeviceCode)
    → is_pending user_code d ≡ true
    → Move d (authorized_by user_id d)
authorize-Move user_code user_id d h = record {
  status = StatusMove.authorize ((eq_iff d.status "pending").0 (ground arith)) refl;
  slower = omega arith;
  client = refl;
  scope = refl;
  expiry = refl;
}

deny-Move :
    (user_code : String) (d : DeviceCode) → is_pending user_code d ≡ true → Move d (denied d)
deny-Move user_code d h = record {
  status = StatusMove.deny ((eq_iff d.status "pending").0 (ground arith)) refl;
  slower = omega arith;
  client = refl;
  scope = refl;
  expiry = refl;
}

consume-Move : (code : String) (d : DeviceCode) → is_authorized code d ≡ true → Move d (consumed d)
consume-Move code d h = record {
  status = StatusMove.consume ((eq_iff d.status "authorized").0 (ground arith)) refl;
  slower = omega arith;
  client = refl;
  scope = refl;
  expiry = refl;
}

stay-Move :
    (d : DeviceCode) (n : ℕ) (p : Option ℕ)
    → d.interval_seconds ≤ n
    → Move d (record d { interval_seconds = n; last_polled_at = p })
stay-Move d n p h = record {
  status = StatusMove.stay refl;
  slower = h;
  client = refl;
  scope = refl;
  expiry = refl;
}

module _ (env : Env) where
  pub authorize_device_code-Lives :
      (user_code user_id : String) → Within Lives (authorize_device_code env user_code user_id)
  unfolding authorize_device_code
  authorize_device_code-Lives user_code user_id = Within-exec_if Lives-preorder env _ _ _ (λ s fits.
      update-Lives (is_pending user_code) (authorized_by user_id) (λ d. refl)
        (authorize-Move user_code user_id) s)

  pub deny_device_code-Lives : (user_code : String) → Within Lives (deny_device_code env user_code)
  unfolding deny_device_code
  deny_device_code-Lives user_code =
      Within-exec Lives-preorder env _ _
        (update-Lives (is_pending user_code) denied (λ d. refl) (deny-Move user_code))

  pub consume_device_code-Lives : (code : String) → Within Lives (consume_device_code env code)
  unfolding consume_device_code
  consume_device_code-Lives code =
      Within-exec Lives-preorder env _ _
        (update-Lives (is_authorized code) consumed (λ d. refl) (consume-Move code))

  pub increment_polling_interval-Lives :
      (code : String) → Within Lives (increment_polling_interval env code)
  unfolding increment_polling_interval
  increment_polling_interval-Lives code = Within-exec Lives-preorder env _ _ (
      update-Lives (has_code code) slower (λ d. refl)
        (λ d h. stay-Move d (d.interval_seconds + 5) d.last_polled_at (omega arith)))

  pub update_last_polled_at-Lives :
      (code : String) (t : ℕ) → Within Lives (update_last_polled_at env code t)
  unfolding update_last_polled_at
  update_last_polled_at-Lives code t = Within-exec Lives-preorder env _ _ (
      update-Lives (has_code code) (polled_at t) (λ d. refl)
        (λ d h. stay-Move d d.interval_seconds (some t) (omega arith)))

  pub create_device_code-Lives : (dc : DeviceCode) → Within Lives (create_device_code env dc)
  unfolding create_device_code
  create_device_code-Lives dc =
      Within-exec_if Lives-preorder env _ _ _
        (λ s fits. record { at = λ code d h. (d, inserted s fits code d h, Life.here) })
    where
      clashes :
          (code : String) (y : DeviceCode)
          → (dc.code == code) ≡ true
          → (y.code == code) ≡ true
          → (has_code dc.code y || has_user_code dc.user_code y) ≡ true
      clashes code y new old =
          ground (arith, eq_iff dc.code code, eq_iff y.code code, eq_iff y.code dc.code)

      inserted :
          (s : Db)
          → not (any_row (λ d. has_code dc.code d || has_user_code dc.user_code d) s.device_codes)
            ≡ true
          → (code : String) (d : DeviceCode) → code_row code s ≡ some d
          → find_row (has_code code) (
              record dc { user_id = none; last_polled_at = none; created_at = env.now }
              ∷ s.device_codes)
            ≡ some d
      inserted s fits code d h =
          find_row-insert (has_code code) (λ y. has_code dc.code y || has_user_code dc.user_code y)
            _ s.device_codes d (ground arith) (λ new y old. clashes code y new old) h

abbrev pub IsTerminal : String → Type 0
IsTerminal s = (s ≡ "denied") ⊎ (s ≡ "consumed")

StatusMove-terminal : (s t : String) → StatusMove s t → IsTerminal s → t ≡ s
StatusMove-terminal s t (StatusMove.stay e) h = e
StatusMove-terminal s t (StatusMove.authorize p a) (inl e) =
    absurd (ground (arith, eq_iff "pending" "denied"))
StatusMove-terminal s t (StatusMove.authorize p a) (inr e) =
    absurd (ground (arith, eq_iff "pending" "consumed"))
StatusMove-terminal s t (StatusMove.deny p a) (inl e) =
    absurd (ground (arith, eq_iff "pending" "denied"))
StatusMove-terminal s t (StatusMove.deny p a) (inr e) =
    absurd (ground (arith, eq_iff "pending" "consumed"))
StatusMove-terminal s t (StatusMove.consume p a) (inl e) =
    absurd (ground (arith, eq_iff "authorized" "denied"))
StatusMove-terminal s t (StatusMove.consume p a) (inr e) =
    absurd (ground (arith, eq_iff "authorized" "consumed"))

-- A denied or a consumed code keeps its status for the rest of its life.
pub Life-terminal : (d e : DeviceCode) → Life d e → IsTerminal d.status → e.status ≡ d.status
Life-terminal d e Life.here h = refl
Life-terminal d e (Life.next {e = m} l step) h =
    let same = Life-terminal d m l h in
    StatusMove-terminal m.status e.status step.status (rw same h) ∙ same
