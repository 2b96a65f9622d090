-- ===== src/Sql/Laws.antt =====
-- What a query sees after an update.
use autentico.Prelude.{
  ◌≡◌, refl, Bool, true, false, none, some, List, [], ◌∷◌, arith, All, Pairs, Bool-cases, inl, inr,
  sym, ◌∙◌,
}
use mathlib.Core.Bool.{false≢true}
use mathlib.Core.Path.{subst}
use autentico.Sql.{find_row, modify, update_rows, any_row}

module _ {ℓ} {A : Type ℓ} where
  -- A row that a query returns satisfies its condition.
  pub find_row_sound : (p : A → Bool) (xs : List A) {x : A} → find_row p xs ≡ some x → p x ≡ true
  unfolding find_row
  find_row_sound p [] h = ground arith
  find_row_sound p (x ∷ xs) {x = r} h = ground (arith, find_row_sound p xs {x = r})

  pub first_row : (p : A → Bool) (x : A) (xs : List A) → p x ≡ true → find_row p (x ∷ xs) ≡ some x
  unfolding find_row
  first_row p x xs h = ground arith

  -- An update that keeps the condition of a query changes the row that the query returns.
  pub find_row-update :
      (p q : A → Bool) (f : A → A) (xs : List A) {x : A}
      → ((y : A) → p (f y) ≡ p y)
      → find_row p xs ≡ some x
      → find_row p (update_rows q f xs) ≡ some (modify q f x)
  unfolding find_row update_rows
  find_row-update p q f [] keep h = ground arith
  find_row-update p q f (x ∷ xs) {x = r} keep h =
      ground (arith, keep x, find_row-update p q f xs {x = r} keep)

  pub find_row-update_none :
      (p q : A → Bool) (f : A → A) (xs : List A)
      → ((y : A) → p (f y) ≡ p y)
      → find_row p xs ≡ none
      → find_row p (update_rows q f xs) ≡ none
  unfolding find_row update_rows
  find_row-update_none p q f [] keep h = refl
  find_row-update_none p q f (x ∷ xs) keep h =
      ground (arith, keep x, find_row-update_none p q f xs keep)

  -- An update after which no row satisfies the condition leaves the query without a row.
  pub find_row-update_dead :
      (p q : A → Bool) (f : A → A) (xs : List A)
      → ((y : A) → p (modify q f y) ≡ false)
      → find_row p (update_rows q f xs) ≡ none
  unfolding find_row update_rows
  find_row-update_dead p q f [] dead = refl
  find_row-update_dead p q f (x ∷ xs) dead =
      ground (arith, dead x, find_row-update_dead p q f xs dead)

  -- An update that a second run leaves alone is idempotent.
  pub update-update :
      (q : A → Bool) (f : A → A) (xs : List A)
      → ((y : A) → modify q f (modify q f y) ≡ modify q f y)
      → update_rows q f (update_rows q f xs) ≡ update_rows q f xs
  unfolding update_rows
  update-update q f [] idem = refl
  update-update q f (x ∷ xs) idem = ground (arith, idem x, update-update q f xs idem)

  -- A property that each updated row has holds of the updated table.
  pub All-update {κ} :
      (P : A → Type κ) (q : A → Bool) (f : A → A) (xs : List A)
      → ((y : A) → P (modify q f y))
      → All P (update_rows q f xs)
  unfolding update_rows
  All-update P q f [] each = tt
  All-update P q f (x ∷ xs) each = (each x, All-update P q f xs each)

  pub any_row_iff :
      (p : A → Bool) (xs : List A)
      → any_row p xs ≡ (elim (find_row p xs) [ none ↦ false | some x ↦ true ])
  unfolding any_row find_row
  any_row_iff p [] = refl
  any_row_iff p (x ∷ xs) = ground (arith, any_row_iff p xs)

  any_row_of_found :
      (p q : A → Bool) (xs : List A) (x : A)
      → find_row p xs ≡ some x
      → q x ≡ true
      → any_row q xs ≡ true
  unfolding find_row any_row
  any_row_of_found p q [] x h k = ground arith
  any_row_of_found p q (y ∷ xs) x h k = ground (arith, any_row_of_found p q xs x)

  -- An inserted row hides no row of a query, if the insert was refused on a clash with one.
  pub find_row-insert :
      (p q : A → Bool) (new : A) (xs : List A) (x : A)
      → any_row q xs ≡ false
      → (p new ≡ true → (y : A) → p y ≡ true → q y ≡ true)
      → find_row p xs ≡ some x
      → find_row p (new ∷ xs) ≡ some x
  unfolding find_row
  find_row-insert p q new xs x fresh clash h = elim (Bool-cases (p new)) [
    | inl hit ↦
        let clashes = any_row_of_found p q xs x h (clash hit x (find_row_sound p xs h)) in
        absurd (false≢true (sym fresh ∙ clashes))
    | inr miss ↦ rw miss h
  ]

  -- What holds of every row holds of the row that a query returns.
  pub All-found {κ} :
      (P : A → Type κ) (p : A → Bool) (xs : List A) {x : A}
      → All P xs
      → find_row p xs ≡ some x
      → P x
  unfolding find_row
  All-found P p [] each h = absurd (ground arith)
  All-found P p (y ∷ xs) {x = x} (first, each) h = elim (Bool-cases (p y)) [
    | inl hit ↦ let same : y ≡ x = ground arith in subst P same first
    | inr miss ↦ let later : find_row p xs ≡ some x = ground arith in All-found P p xs each later
  ]

  -- Row by row, an updated table is related to the table before.
  pub Pairs-update :
      (P : A → A → Type 0) (q : A → Bool) (f : A → A) (xs : List A)
      → ((y : A) → P y (modify q f y))
      → Pairs P xs (update_rows q f xs)
  unfolding update_rows
  Pairs-update P q f [] each = tt
  Pairs-update P q f (x ∷ xs) each = (each x, Pairs-update P q f xs each)
