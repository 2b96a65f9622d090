-- ===== src/Token/Scopes.antt =====
-- The scope helpers of pkg/token: containsScope and removeScope of generate.go, isScopeSubset of
-- handler.go.
use autentico.Prelude.{
  String, ◌≡◌, refl, ap, ◌∙◌, Bool, true, not, List, [], ◌∷◌, ◌==◌, ◌&&◌, arith, member, filter,
  all, member-filter, all-filter_other, eq_iff,
}
use autentico.Text.{fields, split, join}
use autentico.Text.Laws.{is_word, fields-join, fields-words}

-- The scope string is cut at single spaces only.
unfoldable pub contains_scope : String → String → Bool
contains_scope scopes target = member target (split b' ' scopes)

abbrev is_other : String → String → Bool
is_other target s = not (s == target)

unfoldable pub remove_scope : String → String → String
remove_scope scopes target = join (filter (is_other target) (fields scopes))

abbrev pub is_original : String → String → Bool
is_original original s = member s (fields original)

unfoldable pub is_scope_subset : String → String → Bool
is_scope_subset requested original = all (is_original original) (fields requested)

-- The words of the shortened scope are the words of the scope other than the removed one.
pub member-remove_scope :
    (scopes target s : String)
    → member s (fields (remove_scope scopes target))
      ≡ (not (s == target) && member s (fields scopes))
unfolding remove_scope
member-remove_scope scopes target s =
    ap (member s) (
      fields-join (filter (is_other target) (fields scopes))
        (all-filter_other is_word (is_other target) (fields scopes) (fields-words scopes)))
    ∙ member-filter (is_other target) s (fields scopes)

all-member :
    (p : String → Bool) (s : String) (xs : List String)
    → all p xs ≡ true
    → member s xs ≡ true
    → p s ≡ true
all-member p s [] h m = absurd (cc)
all-member p s (x ∷ xs) h m = ground (arith, eq_iff x s, all-member p s xs)

-- Downscoping twice stays within the first scope: the subset test is transitive.
pub is_scope_subset_trans :
    (a b c : String)
    → is_scope_subset a b ≡ true
    → is_scope_subset b c ≡ true
    → is_scope_subset a c ≡ true
unfolding is_scope_subset
is_scope_subset_trans a b c h k = go (fields a) h
  where
    go : (xs : List String) → all (is_original b) xs ≡ true → all (is_original c) xs ≡ true
    go [] e = refl
    go (x ∷ xs) e = ground (arith, go xs, all-member (is_original c) x (fields b) k)

-- A word of an accepted request is a word of the original scope.
pub member-is_scope_subset :
    (requested original s : String)
    → is_scope_subset requested original ≡ true
    → member s (fields requested) ≡ true
    → member s (fields original) ≡ true
unfolding is_scope_subset
member-is_scope_subset requested original s h m =
    all-member (is_original original) s (fields requested) h m
