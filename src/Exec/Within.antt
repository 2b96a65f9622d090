-- ===== src/Exec/Within.antt =====
-- What a Go function does to the database, as a preorder on databases that every statement keeps:
-- one rule for each way in which the code composes statements.
use autentico.Prelude.{
  Bool, true, false, Option, ◌≡◌, Bool-cases, Option-cases, inl, inr, if◌then◌else◌,
}
use autentico.Schema.{Db}
use autentico.Env.{Env, Stmt, query, exec, exec_if}
use autentico.Exec.{
  Exec, Result, ok, err, pure, raise, require, attempt, on_error, map_error, continue, relabel,
  recast, ◌>>=◌,
}

pub record IsPreorder (R : Db → Db → Type 0) : Type 0 where
  pub same : (s : Db) → R s s
  pub chain : (s t u : Db) → R s t → R t u → R s u

-- From every database, `m` ends in one that `R` relates to it, whether it fails or not.
pub record Within (R : Db → Db → Type 0) {E A : Type 0} (m : Exec E A) : Type 0 where
  pub at : (s : Db) → R s (m s).1

module _ {R : Db → Db → Type 0} (p : IsPreorder R) where
  module _ {E A : Type 0} where
    pub Within-pure : (a : A) → Within R (pure {E = E} a)
    Within-pure a = record { at = p.same }

    pub Within-raise : (e : E) → Within R (raise {A = A} e)
    Within-raise e = record { at = p.same }

    pub Within-attempt : {F : Type 0} (m : Exec E A) → Within R m → Within R (attempt {F = F} m)
    Within-attempt m w = record { at = λ s. w.at s }

    relabelled : {F : Type 0} (f : F) (s : Db) (r : Result E A × Db) → R s r.1 → R s (relabel f r).1
    relabelled f s (ok a, t) h = h
    relabelled f s (err e, t) h = h

    pub Within-on_error : {F : Type 0} (f : F) (m : Exec E A) → Within R m → Within R (on_error f m)
    Within-on_error f m w = record { at = λ s. relabelled f s (m s) (w.at s) }

    recasted :
        {F : Type 0} (f : E → F) (s : Db) (r : Result E A × Db) → R s r.1 → R s (recast f r).1
    recasted f s (ok a, t) h = h
    recasted f s (err e, t) h = h

    pub Within-map_error :
        {F : Type 0} (f : E → F) (m : Exec E A) → Within R m → Within R (map_error f m)
    Within-map_error f m w = record { at = λ s. recasted f s (m s) (w.at s) }

    pub Within-if :
        (b : Bool) (m n : Exec E A) → Within R m → Within R n → Within R (if b then m else n)
    Within-if true m n wm wn = wm
    Within-if false m n wm wn = wn

  pub Within-require : {E : Type 0} (b : Bool) (e : E) → Within R (require b e)
  Within-require true e = record { at = p.same }
  Within-require false e = record { at = p.same }

  module _ {E A B : Type 0} where
    continued :
        (f : A → Exec E B) (s : Db) (r : Result E A × Db)
        → ((a : A) → Within R (f a))
        → R s r.1
        → R s (continue r f).1
    continued f s (ok a, t) wf h = p.chain s t _ h ((wf a).at t)
    continued f s (err e, t) wf h = h

    pub Within-bind :
        (m : Exec E A) (f : A → Exec E B)
        → Within R m
        → ((a : A) → Within R (f a))
        → Within R (m >>= f)
    Within-bind m f wm wf = record { at = λ s. continued f s (m s) wf (wm.at s) }

  pub Within-query :
      {A : Type 0} (env : Env) (stmt : Stmt) (f : Db → Option A) → Within R (query env stmt f)
  unfolding query
  Within-query env stmt f = record {
    at = λ s. elim (Bool-cases (env.fails stmt)) [
      | inl e ↦ rw e (p.same s)
      | inr e ↦ rw e (elim (Option-cases (f s)) [
        | inl missing ↦ rw missing (p.same s)
        | inr (a, found) ↦ rw found (p.same s)
      ])
    ];
  }

  pub Within-exec :
      (env : Env) (stmt : Stmt) (f : Db → Db) → ((s : Db) → R s (f s)) → Within R (exec env stmt f)
  unfolding exec
  Within-exec env stmt f keep = record {
    at =
        λ s. elim (Bool-cases (env.fails stmt)) [ inl e ↦ rw e (p.same s) | inr e ↦ rw e (keep s) ];
  }

  pub Within-exec_if :
      (env : Env) (stmt : Stmt) (fits : Db → Bool) (f : Db → Db)
      → ((s : Db) → fits s ≡ true → R s (f s))
      → Within R (exec_if env stmt fits f)
  unfolding exec_if
  Within-exec_if env stmt fits f keep = record {
    at = λ s. elim (Bool-cases (env.fails stmt)) [
      | inl e ↦ rw e (p.same s)
      | inr e ↦ rw e (elim (Bool-cases (fits s)) [
        | inl fit ↦ rw fit (keep s fit)
        | inr unfit ↦ rw unfit (p.same s)
      ])
    ];
  }

pub ruleset within_rules = (
  Within-pure, Within-raise, Within-attempt, Within-on_error, Within-map_error, Within-if,
  Within-require, Within-bind, Within-query,
)
