-- ===== src/Exec/Forward.antt =====
-- The run of a composed function from the runs of its parts.
use autentico.Prelude.{◌≡◌, refl, ap, Bool, true, false, Option, some, arith}
use autentico.Schema.{Db}
use autentico.Env.{Env, Stmt, query}
use autentico.Exec.{Exec, ok, err, continue, relabel, resume, recover, on_error, require, ◌>>=◌}

module _ {E A : Type 0} where
  pub bind_of_ok :
      {B : Type 0} (m : Exec E A) (f : A → Exec E B) (s : Db) (a : A) (t : Db)
      → m s ≡ (ok a, t)
      → (m >>= f) s ≡ f a t
  bind_of_ok m f s a t h = ap (λ r. continue r f) h

  pub bind_of_err :
      {B : Type 0} (m : Exec E A) (f : A → Exec E B) (s : Db) (e : E) (t : Db)
      → m s ≡ (err e, t)
      → (m >>= f) s ≡ (err e, t)
  bind_of_err m f s e t h = ap (λ r. continue r f) h

  pub on_error_of_ok :
      {F : Type 0} (e : F) (m : Exec E A) (s : Db) (a : A) (t : Db)
      → m s ≡ (ok a, t)
      → on_error e m s ≡ (ok a, t)
  on_error_of_ok e m s a t h = ap (λ r. relabel e r) h

  pub recover_of_ok :
      {F : Type 0} (m : Exec E A) (f : E → Exec F A) (s : Db) (a : A) (t : Db)
      → m s ≡ (ok a, t)
      → recover m f s ≡ (ok a, t)
  recover_of_ok m f s a t h = ap (λ r. resume r f) h

pub require_of_true :
    {E : Type 0} (b : Bool) (e : E) (s : Db) → b ≡ true → require b e s ≡ (ok tt, s)
require_of_true true e s h = refl
require_of_true false e s h = absurd (ground arith)

pub require_of_false :
    {E : Type 0} (b : Bool) (e : E) (s : Db) → b ≡ false → require b e s ≡ (err e, s)
require_of_false true e s h = absurd (ground arith)
require_of_false false e s h = refl

pub query_of_some :
    {A : Type 0} (env : Env) (stmt : Stmt) (f : Db → Option A) (s : Db) (a : A)
    → env.fails stmt ≡ false
    → f s ≡ some a
    → query env stmt f s ≡ (ok a, s)
unfolding query
query_of_some env stmt f s a up found = rw (up, query) (rw found refl)
