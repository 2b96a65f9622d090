-- ===== src/Exec/Errors.antt =====
-- The answers of a handler that are early returns: one rule for each way in which the code composes
-- statements.
use mathlib.Core.Path.{subst}
use autentico.Prelude.{◌≡◌, ◌≢◌, refl, Bool, true, false, arith, if◌then◌else◌}
use autentico.Schema.{Db}
use autentico.Exec.{
  Exec, Result, ok, err, pure, raise, require, on_error, optional, as_option, recover, resume,
  relabel, continue, ◌>>=◌,
}

-- Every error that `m` can end with satisfies `P`.
pub record Errors {E : Type 0} (P : E → Type 0) {A : Type 0} (m : Exec E A) : Type 0 where
  pub at : (s : Db) (e : E) (t : Db) → m s ≡ (err e, t) → P e

module _ {E F A : Type 0} where
  relabelled : (f : E) (r : Result F A × Db) (e : E) (t : Db) → relabel f r ≡ (err e, t) → f ≡ e
  relabelled f (ok a, s) e t h = absurd (ground arith)
  relabelled f (err x, s) e t h = ground arith

  optioned : (r : Result F A × Db) (e : E) (t : Db) → as_option r ≢ (err e, t)
  optioned (ok a, s) e t h = ground arith
  optioned (err x, s) e t h = ground arith

module _ {E : Type 0} {P : E → Type 0} where
  module _ {A : Type 0} where
    pub Errors-pure : (a : A) → Errors P (pure {E = E} a)
    Errors-pure a = record { at = λ s e t h. absurd (ground arith) }

    pub Errors-raise : (e : E) → P e → Errors P (raise {A = A} e)
    Errors-raise e p = record { at = λ s f t h. subst P (ground arith) p }

    pub Errors-if :
        (b : Bool) (m n : Exec E A) → Errors P m → Errors P n → Errors P (if b then m else n)
    Errors-if true m n wm wn = wm
    Errors-if false m n wm wn = wn

    pub Errors-on_error : {F : Type 0} (f : E) (m : Exec F A) → P f → Errors P (on_error f m)
    Errors-on_error f m p = record { at = λ s e t h. subst P (relabelled f (m s) e t h) p }

    pub Errors-optional : {F : Type 0} (m : Exec F A) → Errors P (optional m)
    Errors-optional m = record { at = λ s e t h. absurd (optioned (m s) e t h) }

    resumed :
        {F : Type 0} (f : F → Exec E A) (r : Result F A × Db) (e : E) (t : Db)
        → ((x : F) → Errors P (f x))
        → resume r f ≡ (err e, t)
        → P e
    resumed f (ok a, s) e t w h = absurd (ground arith)
    resumed f (err x, s) e t w h = (w x).at s e t h

    pub Errors-recover :
        {F : Type 0} (m : Exec F A) (f : F → Exec E A)
        → ((x : F) → Errors P (f x))
        → Errors P (recover m f)
    Errors-recover m f w = record { at = λ s e t h. resumed f (m s) e t w h }

  pub Errors-require : (b : Bool) (e : E) → P e → Errors P (require b e)
  Errors-require true e p = record { at = λ s f t h. absurd (ground arith) }
  Errors-require false e p = record { at = λ s f t h. subst P (ground arith) p }

  module _ {A B : Type 0} where
    continued :
        (f : A → Exec E B) (r : Result E A × Db) (e : E) (t : Db)
        → ((s : Db) → (x : E) → r ≡ (err x, s) → P x)
        → ((a : A) → Errors P (f a))
        → continue r f ≡ (err e, t)
        → P e
    continued f (ok a, s) e t p w h = (w a).at s e t h
    continued f (err x, s) e t p w h = subst P (ground arith) (p s x refl)

    pub Errors-bind :
        (m : Exec E A) (f : A → Exec E B)
        → Errors P m
        → ((a : A) → Errors P (f a))
        → Errors P (m >>= f)
    Errors-bind m f wm wf = record {
      at = λ s e t h. continued f (m s) e t (λ u x k. wm.at s x u k) wf h;
    }

pub ruleset errors_rules = (
  Errors-pure, Errors-raise, Errors-if, Errors-on_error, Errors-optional, Errors-recover,
  Errors-require, Errors-bind,
)
