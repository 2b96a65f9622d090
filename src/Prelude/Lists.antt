-- ===== src/Prelude/Lists.antt =====
-- Lists over the native numbers, and predicates on all elements.
use Prim.Native.Nat.{ℕ, suc}
use Prim.Native.String.{String}
use mathlib.Core.Path.{◌≡◌, refl}
use mathlib.Core.Bool.{Bool, true, false, ◌&&◌, ◌||◌}
use mathlib.Core.List.{List, [], ◌∷◌}
use native.Mathlib.Omega.{arith}
use text.Mathlib.Text.{◌==◌}
use text.Mathlib.TextEquality.{eq_iff}
use autentico.Prelude.Tests.{if◌then◌else◌}

-- Membership in a list of texts, as the loops over an allowed list compute it.
abbrev pub member : String → List String → Bool
member s [] = false
member s (x ∷ xs) = x == s || member s xs

module _ {ℓ} {A : Type ℓ} where
  abbrev pub length : List A → ℕ
  length [] = 0
  length (x ∷ xs) = suc (length xs)

  abbrev pub filter : (A → Bool) → List A → List A
  filter p [] = []
  filter p (x ∷ xs) = let rest = filter p xs in if p x then x ∷ rest else rest

  abbrev pub all : (A → Bool) → List A → Bool
  all p [] = true
  all p (x ∷ xs) = p x && all p xs

module _ {ℓ κ} {A : Type ℓ} (P : A → Type κ) where
  abbrev pub All : List A → Type κ
  All [] = Unit
  All (x ∷ xs) = P x × All xs

-- Two lists of one length whose elements are related one by one.
abbrev pub Pairs {ℓ} : {A : Type ℓ} → (A → A → Type 0) → List A → List A → Type 0
Pairs P [] [] = Unit
Pairs P (x ∷ xs) (y ∷ ys) = P x y × Pairs P xs ys
Pairs P [] (y ∷ ys) = ⊥
Pairs P (x ∷ xs) [] = ⊥

pub member-filter :
    (p : String → Bool) (s : String) (xs : List String)
    → member s (filter p xs) ≡ (p s && member s xs)
member-filter p s [] = ground arith
member-filter p s (x ∷ xs) = ground (arith, member-filter p s xs, eq_iff x s)

pub all-filter {ℓ} : {A : Type ℓ} (p : A → Bool) (xs : List A) → all p (filter p xs) ≡ true
all-filter p [] = refl
all-filter p (x ∷ xs) = ground (arith, all-filter p xs)

pub filter_of_all {ℓ} :
    {A : Type ℓ} (p : A → Bool) (xs : List A) → all p xs ≡ true → filter p xs ≡ xs
filter_of_all p [] h = refl
filter_of_all p (x ∷ xs) h = ground (arith, filter_of_all p xs)

-- A filter keeps what holds of all elements.
pub all-filter_other :
    (p q : String → Bool) (xs : List String) → all p xs ≡ true → all p (filter q xs) ≡ true
all-filter_other p q [] h = refl
all-filter_other p q (x ∷ xs) h = ground (arith, all-filter_other p q xs)
