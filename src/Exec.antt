-- ===== src/Exec.antt =====
-- Go functions that run statements and may fail: the database is passed on, and what was written
-- before a failure stays written. A Go `error` and an HTTP error response are two error types.
pub mod Within
pub mod Inversion
pub mod Forward
pub mod Errors
use autentico.Prelude.{ℕ, String, Bool, true, false, Option, none, some}
use autentico.Schema.{Db}

-- What the callers tell apart in a Go `error`.
pub data GoError : Type 0 where
  no_rows db_failed constraint account_locked : GoError
  message : String → GoError

-- `utils.WriteErrorResponse` with its status and its error code (the description is left out).
-- `twice` is a handler that has written an error response, goes on and writes another one.
pub data HttpError : Type 0 where
  http : ℕ → String → HttpError
  twice : HttpError → HttpError → HttpError

pub data Result {ℓ κ} (E : Type ℓ) (A : Type κ) : Type (ℓ ⊔ κ) where
  ok : A → Result E A
  err : E → Result E A

abbrev pub Exec : Type 0 → Type 0 → Type 0
Exec E A = Db → Result E A × Db

module _ {E A : Type 0} where
  abbrev pub pure : A → Exec E A
  pure a s = (ok a, s)

  abbrev pub raise : E → Exec E A
  raise e s = (err e, s)

  abbrev pub lift : Result E A → Exec E A
  lift r s = (r, s)

  -- `_ = f()`, and an error that is only logged.
  abbrev pub settle : {F : Type 0} → Result E A × Db → Result F (Unit {0}) × Db
  settle (r, s) = (ok tt, s)

  abbrev pub attempt : {F : Type 0} → Exec E A → Exec F (Unit {0})
  attempt m s = settle (m s)

  -- `if err != nil { return f }`.
  abbrev pub relabel : {F : Type 0} → F → Result E A × Db → Result F A × Db
  relabel f (ok a, s) = (ok a, s)
  relabel f (err e, s) = (err f, s)

  abbrev pub on_error : {F : Type 0} → F → Exec E A → Exec F A
  on_error f m s = relabel f (m s)

  -- A read whose error is not an error of the caller.
  abbrev pub as_option : {F : Type 0} → Result E A × Db → Result F (Option A) × Db
  as_option (ok a, s) = (ok (some a), s)
  as_option (err e, s) = (ok none, s)

  abbrev pub optional : {F : Type 0} → Exec E A → Exec F (Option A)
  optional m s = as_option (m s)

  -- An error wrapped or replaced by another one.
  abbrev pub recast : {F : Type 0} → (E → F) → Result E A × Db → Result F A × Db
  recast f (ok a, s) = (ok a, s)
  recast f (err e, s) = (err (f e), s)

  abbrev pub map_error : {F : Type 0} → (E → F) → Exec E A → Exec F A
  map_error f m s = recast f (m s)

module _ {E F A : Type 0} where
  abbrev pub resume : Result E A × Db → (E → Exec F A) → Result F A × Db
  resume (ok a, s) f = (ok a, s)
  resume (err e, s) f = f e s

  -- What is done with an early return that is not the answer yet.
  abbrev pub recover : Exec E A → (E → Exec F A) → Exec F A
  recover m f s = resume (m s) f

abbrev pub continue : {E A B : Type 0} → Result E A × Db → (A → Exec E B) → Result E B × Db
continue (ok a, s) f = f a s
continue (err e, s) f = (err e, s)

infixl 10 ◌>>=◌ ◌>>◌
abbrev pub ◌>>=◌ : {E A B : Type 0} → Exec E A → (A → Exec E B) → Exec E B
◌>>=◌ m f s = continue (m s) f

abbrev pub ◌>>◌ : {E B : Type 0} → Exec E (Unit {0}) → Exec E B → Exec E B
m >> k = m >>= λ _. k

-- A guard: `if !b { return e }`.
abbrev pub require : {E : Type 0} → Bool → E → Exec E (Unit {0})
require true e s = (ok tt, s)
require false e s = (err e, s)
