-- ===== src/Exec/Inversion.antt =====
-- What a successful run of a composed function says about its parts.
use autentico.Prelude.{◌≡◌, refl, Bool, true, false, Option, some, arith, ◌⊎◌, inl, inr}
use autentico.Schema.{Db}
use autentico.Env.{Env, Stmt, query}
use autentico.Exec.{
  Exec, Result, ok, err, continue, relabel, on_error, require, resume, recover, recast, map_error,
  ◌>>=◌,
}

module _ {E A : Type 0} where
  continue-ok :
      {B : Type 0} (r : Result E A × Db) (f : A → Exec E B) (b : B) (t : Db)
      → continue r f ≡ (ok b, t)
      → (a : A) × (u : Db) × (r ≡ (ok a, u)) × (f a u ≡ (ok b, t))
  continue-ok (ok a, u) f b t h = (a, u, refl, h)
  continue-ok (err e, u) f b t h = absurd (ground arith)

  pub bind-ok :
      {B : Type 0} (m : Exec E A) (f : A → Exec E B) (s : Db) (b : B) (t : Db)
      → (m >>= f) s ≡ (ok b, t)
      → (a : A) × (u : Db) × (m s ≡ (ok a, u)) × (f a u ≡ (ok b, t))
  bind-ok m f s b t h = continue-ok (m s) f b t h

  relabel-ok :
      {F : Type 0} (e : F) (r : Result E A × Db) (a : A) (t : Db)
      → relabel e r ≡ (ok a, t)
      → r ≡ (ok a, t)
  relabel-ok e (ok x, u) a t h = ground arith
  relabel-ok e (err x, u) a t h = absurd (ground arith)

  pub on_error-ok :
      {F : Type 0} (e : F) (m : Exec E A) (s : Db) (a : A) (t : Db)
      → on_error e m s ≡ (ok a, t)
      → m s ≡ (ok a, t)
  on_error-ok e m s a t h = relabel-ok e (m s) a t h

module _ {E F A : Type 0} where
  recast-ok :
      (f : E → F) (r : Result E A × Db) (a : A) (t : Db) → recast f r ≡ (ok a, t) → r ≡ (ok a, t)
  recast-ok f (ok x, u) a t h = ground arith
  recast-ok f (err x, u) a t h = absurd (ground arith)

  pub map_error-ok :
      (f : E → F) (m : Exec E A) (s : Db) (a : A) (t : Db)
      → map_error f m s ≡ (ok a, t)
      → m s ≡ (ok a, t)
  map_error-ok f m s a t h = recast-ok f (m s) a t h

  resume-ok :
      (r : Result E A × Db) (f : E → Exec F A) (a : A) (t : Db)
      → resume r f ≡ (ok a, t)
      → (r ≡ (ok a, t)) ⊎ ((e : E) × (u : Db) × (r ≡ (err e, u)) × (f e u ≡ (ok a, t)))
  resume-ok (ok x, u) f a t h = inl (ground arith)
  resume-ok (err e, u) f a t h = inr (e, u, refl, h)

  pub recover-ok :
      (m : Exec E A) (f : E → Exec F A) (s : Db) (a : A) (t : Db)
      → recover m f s ≡ (ok a, t)
      → (m s ≡ (ok a, t)) ⊎ ((e : E) × (u : Db) × (m s ≡ (err e, u)) × (f e u ≡ (ok a, t)))
  recover-ok m f s a t h = resume-ok (m s) f a t h

pub query-ok :
    {A : Type 0} (env : Env) (stmt : Stmt) (f : Db → Option A) (s : Db) (a : A) (t : Db)
    → query env stmt f s ≡ (ok a, t)
    → (f s ≡ some a) × (t ≡ s)
unfolding query
query-ok env stmt f s a t h = ground arith

pub require-ok :
    {E : Type 0} (b : Bool) (e : E) (s t : Db) → require b e s ≡ (ok tt, t) → (b ≡ true) × (t ≡ s)
require-ok true e s t h = (refl, ground arith)
require-ok false e s t h = absurd (ground arith)
