-- ===== src/Text/Affixes.antt =====
-- What strings.HasPrefix, HasSuffix and Index say about a text.
use Prim.Native.Char.{Char, code}
use text.Mathlib.TextEquality.{Char-path}
use autentico.Prelude.{
  ℕ, String, ◌≡◌, refl, sym, ap, ◌∙◌, Bool, true, false, ◌&&◌, some, inl, inr, arith, eq_iff,
  eq_refl, ◌==◌, nat_eq, Bool-cases, Option-cases,
}
use autentico.Text.{append, has_prefix, has_suffix, cut_at}

nat_eq→eq : (a b : ℕ) → nat_eq a b ≡ true → a ≡ b
nat_eq→eq a b h = ground arith

nat_eq_refl : (a : ℕ) → nat_eq a a ≡ true
nat_eq_refl a = ground arith

&&-true : (a b : Bool) → (a && b) ≡ true → (a ≡ true) × (b ≡ true)
&&-true true b h = (refl, h)
&&-true false b h = ground arith

-- HasPrefix is true of a text only if the prefix and some rest make up the text.
pub has_prefix_sound :
    (s p : String) → has_prefix s p ≡ true → (rest : String) × (append p rest ≡ s)
unfolding has_prefix append
has_prefix_sound s String.[] h = (s, refl)
has_prefix_sound String.[] (String.◌∷◌ d p) h = absurd (ground arith)
has_prefix_sound (String.◌∷◌ c s) (String.◌∷◌ d p) h =
    let (same, more) = &&-true _ _ h in
    let (rest, e) = has_prefix_sound s p more in
    (
      rest,
      ap (String.◌∷◌ d) e ∙ ap (λ x. String.◌∷◌ x s) (sym (Char-path c d (nat_eq→eq _ _ same))),
    )

pub has_prefix-append : (p rest : String) → has_prefix (append p rest) p ≡ true
unfolding has_prefix append
has_prefix-append String.[] rest = refl
has_prefix-append (String.◌∷◌ d p) rest = rw (nat_eq_refl (code d)) (has_prefix-append p rest)

-- HasSuffix is true of a text only if some front and the suffix make up the text.
pub has_suffix_sound :
    (s p : String) → has_suffix s p ≡ true → (front : String) × (append front p ≡ s)
unfolding has_suffix append
has_suffix_sound String.[] p h = ("", sym ((eq_iff "" p).0 h))
has_suffix_sound (String.◌∷◌ c s) p h = elim (Bool-cases (String.◌∷◌ c s == p)) [
  | inl same ↦ ("", sym ((eq_iff (String.◌∷◌ c s) p).0 same))
  | inr other ↦
      let (front, e) = has_suffix_sound s p (ground arith) in
      (String.◌∷◌ c front, ap (String.◌∷◌ c) e)
]

has_suffix_self : (p : String) → has_suffix p p ≡ true
unfolding has_suffix
has_suffix_self String.[] = refl
has_suffix_self (String.◌∷◌ c p) = rw (eq_refl (String.◌∷◌ c p))

pub has_suffix-append : (front p : String) → has_suffix (append front p) p ≡ true
unfolding has_suffix append
has_suffix-append String.[] p = has_suffix_self p
has_suffix-append (String.◌∷◌ c front) p = ground (arith, has_suffix-append front p)

-- Whether a text holds no separator.
pub free_of : ℕ → String → Bool
free_of sep String.[] = true
free_of sep (String.◌∷◌ c s) = elim (nat_eq (code c) sep) [ true ↦ false | false ↦ free_of sep s ]

-- The cut is at the first separator.
pub cut_at_sound :
    (sep : ℕ) (s p q : String)
    → cut_at sep s ≡ some (p, q)
    → (free_of sep p ≡ true) × ((c : Char) × (code c ≡ sep) × (append p (String.◌∷◌ c q) ≡ s))
unfolding cut_at append free_of
cut_at_sound sep String.[] p q h = absurd (cc)
cut_at_sound sep (String.◌∷◌ c s) p q h = elim (Bool-cases (nat_eq (code c) sep)) [
  | inl here ↦
      let ep : p ≡ "" = ground arith in
      let eq : q ≡ s = ground arith in rw (ep, eq) (refl, (c, nat_eq→eq _ _ here, refl))
  | inr later ↦ elim (Option-cases (cut_at sep s)) [
    | inl missing ↦ absurd (ground arith)
    | inr (r, found) ↦
        let (free, (d, is_sep, e)) = cut_at_sound sep s r.0 r.1 found in
        let ep : p ≡ String.◌∷◌ c r.0 = ground arith in
        let eq : q ≡ r.1 = ground arith in
        rw (ep, eq) (rw (later, free_of) free, (d, is_sep, ap (String.◌∷◌ c) e))
  ]
]

pub cut_at-append :
    (sep : ℕ) (c : Char) (p q : String)
    → code c ≡ sep
    → free_of sep p ≡ true
    → cut_at sep (append p (String.◌∷◌ c q)) ≡ some (p, q)
unfolding cut_at append free_of
cut_at-append sep c String.[] q e h = rw (e, nat_eq_refl sep)
cut_at-append sep c (String.◌∷◌ d p) q e h = ground (arith, cut_at-append sep c p q)
