-- ===== src/Mfa/Post/Bounds.antt =====
-- The number of codes that can be tried for one challenge.
use mathlib.Core.Path.{subst}
use autentico.Prelude.{
  ℕ, ◌+◌, ◌≤◌, ◌≡◌, refl, sym, ap, false, some, List, [], ◌∷◌, arith, leb, length, All, Bool-cases,
  inl, inr, if◌then◌else◌,
}
use autentico.Schema.{MfaChallenge, User, Db}
use autentico.Env.{Env}
use autentico.Exec.{err}
use autentico.Sql.{find_row}
use autentico.Web.{Request}
use autentico.Browser.{Answer}
use autentico.Mfa.{has_id}
use autentico.Mfa.Post.{handle_mfa_post}
use autentico.Mfa.Post.Attempts.{
  after, counted, counted-lookup, closed-run, wrong-run, Tries, Stands,
}

-- One request after the other, each under its own clock.
pub posts : List (Env × Request) → Db → Db
posts [] db = db
posts ((env, req) ∷ ts) db = posts ts (handle_mfa_post env req db).1

-- At most five.
abbrev pub at_most_five : ℕ → ℕ
at_most_five n = if leb n 5 then n else 5

abbrev pub TriesIt : MfaChallenge → User → Env × Request → Type 0
TriesIt c u (env, req) = Tries env req c u

counted-Stands :
    (n : ℕ) (c : MfaChallenge) (u : User) (db : Db)
    → leb 5 n ≡ false
    → Stands n c u db
    → Stands (n + 1) c u (counted c.id (n + 1) db)
counted-Stands n c u db few s = record {
  listed = counted-lookup n c c.id db few refl s.listed;
  owner = elim (Bool-cases (leb 5 (n + 1))) [
    | inl many ↦ rw many s.owner
    | inr still ↦ rw still s.owner
  ];
}

posts-Stands :
    (ts : List (Env × Request)) (n : ℕ) (c : MfaChallenge) (u : User) (db : Db)
    → n ≤ 5
    → All (TriesIt c u) ts
    → Stands n c u db
    → Stands (at_most_five (n + length ts)) c u (posts ts db)
unfolding posts
posts-Stands [] n c u db bound _ s = subst (λ k. Stands k c u db) (ground arith) s
posts-Stands ((env, req) ∷ ts) n c u db bound (t, rest) s = elim (Bool-cases (leb 5 n)) [
  | inl many ↦
      let (a, refused) = closed-run env req n c u db many t s in
      subst (λ k. Stands k c u (posts ts (handle_mfa_post env req db).1)) (ground arith)
        (posts-Stands ts n c u (handle_mfa_post env req db).1 bound rest
          (subst (λ d. Stands n c u d) (sym (ap (λ r. r.1) refused)) s))
  | inr few ↦
      subst (λ k. Stands k c u (posts ts (handle_mfa_post env req db).1)) (ground arith)
        (posts-Stands ts (n + 1) c u (handle_mfa_post env req db).1 (ground (arith, few)) rest (
          subst (λ d. Stands (n + 1) c u d) (sym (wrong-run env req n c u db few t s))
            (counted-Stands n c u db few s)))
]

posts-from_zero :
    (ts : List (Env × Request)) (c : MfaChallenge) (u : User) (db : Db)
    → All (TriesIt c u) ts
    → Stands 0 c u db
    → Stands (at_most_five (length ts)) c u (posts ts db)
posts-from_zero ts c u db tries s =
    let same : 0 + length ts ≡ length ts = ground arith in
    subst (λ k. Stands (at_most_five k) c u (posts ts db)) same
      (posts-Stands ts 0 c u db (ground arith) tries s)

-- Any number of wrong codes for a fresh challenge of an enrolled user, sent one after the other in
-- time to a database that refuses no statement, leaves the challenge with that many failed
-- attempts, but never more than five, and used exactly if it is five; nothing else of it changes.
pub posts-at_most_five :
    (ts : List (Env × Request)) (c : MfaChallenge) (u : User) (db : Db)
    → All (TriesIt c u) ts
    → Stands 0 c u db
    → find_row (has_id c.id) (posts ts db).mfa_challenges
      ≡ some (after (at_most_five (length ts)) c)
posts-at_most_five ts c u db tries s = (posts-from_zero ts c u db tries s).listed

-- After five wrong codes, or more, the challenge takes no further code: a request that is well
-- formed and in time is refused, and changes nothing.
pub posts-closed :
    (ts : List (Env × Request)) (env : Env) (req : Request) (c : MfaChallenge) (u : User) (db : Db)
    → All (TriesIt c u) ts
    → Stands 0 c u db
    → 5 ≤ length ts
    → Tries env req c u
    → (a : Answer) × (handle_mfa_post env req (posts ts db) ≡ (err a, posts ts db))
posts-closed ts env req c u db tries s enough t =
    closed-run env req (at_most_five (length ts)) c u (posts ts db) (ground (arith, enough)) t
      (posts-from_zero ts c u db tries s)
