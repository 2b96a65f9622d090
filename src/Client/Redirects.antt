-- ===== src/Client/Redirects.antt =====
-- Which redirect URIs a client's list allows (IsValidRedirectURI of pkg/client/authenticate.go).
use Prim.Native.Char.{Char, code}
use mathlib.Core.List.{Memᴰ}
use autentico.Prelude.{
  String, ◌≡◌, refl, sym, ◌∙◌, ap, true, some, List, [], ◌∷◌, ◌⊎◌, ◌↔◌, arith, inl, inr, eq_iff,
  eq_refl, ◌==◌, Bool-cases, Option-cases,
}
use autentico.Env.{Env}
use autentico.Schema.{Client}
use autentico.Text.{append, has_prefix, has_suffix, cut_at}
use autentico.Text.Affixes.{
  free_of, has_prefix_sound, has_prefix-append, has_suffix_sound, has_suffix-append, cut_at_sound,
  cut_at-append,
}
use autentico.Client.{allows_uri, any_allows, is_valid_redirect_uri, get_redirect_uris}

-- A listed URI of the form prefix * suffix, cut at its first star, and a URI that begins with the
-- prefix and ends with the suffix.
pub record IsWildcard (uri redirect_uri : String) : Type 0 where
  pub prefix : String
  pub suffix : String
  pub star : Char
  pub is_star : code star ≡ b'*'
  pub first : free_of b'*' prefix ≡ true
  pub pattern : append prefix (String.◌∷◌ star suffix) ≡ uri
  pub rest : String
  pub begins : append prefix rest ≡ redirect_uri
  pub front : String
  pub ends : append front suffix ≡ redirect_uri

abbrev pub Matches : String → String → Type 0
Matches uri redirect_uri = (uri ≡ redirect_uri) ⊎ IsWildcard uri redirect_uri

allows_uri_sound : (r u : String) → allows_uri r u ≡ true → Matches u r
unfolding allows_uri
allows_uri_sound r u h = elim (Bool-cases (u == r)) [
  | inl same ↦ inl ((eq_iff u r).0 same)
  | inr other ↦ elim (Option-cases (cut_at b'*' u)) [
    | inl missing ↦ absurd (ground arith)
    | inr (c, found) ↦
        let (first, (star, is_star, pattern)) = cut_at_sound b'*' u c.0 c.1 found in
        let (rest, begins) = has_prefix_sound r c.0 (ground arith) in
        let (front, ends) = has_suffix_sound r c.1 (ground arith) in
        inr (record {
          prefix = c.0;
          suffix = c.1;
          star = star;
          is_star = is_star;
          first = first;
          pattern = pattern;
          rest = rest;
          begins = begins;
          front = front;
          ends = ends;
        })
  ]
]

allows_uri_complete : (r u : String) → Matches u r → allows_uri r u ≡ true
unfolding allows_uri
allows_uri_complete r u (inl same) = rw (same, eq_refl r)
allows_uri_complete r u (inr w) =
    let cut : cut_at b'*' u ≡ some (w.prefix, w.suffix) =
      ap (cut_at b'*') (sym w.pattern)
      ∙ cut_at-append b'*' w.star w.prefix w.suffix w.is_star w.first in
    let begins : has_prefix r w.prefix ≡ true =
      ap (λ x. has_prefix x w.prefix) (sym w.begins) ∙ has_prefix-append w.prefix w.rest in
    let ends : has_suffix r w.suffix ≡ true =
      ap (λ x. has_suffix x w.suffix) (sym w.ends) ∙ has_suffix-append w.front w.suffix in
    ground arith

any_allows_sound :
    (r : String) (uris : List String)
    → any_allows r uris ≡ true
    → (u : String) × Memᴰ u uris × Matches u r
unfolding any_allows
any_allows_sound r [] h = absurd (ground arith)
any_allows_sound r (u ∷ uris) h = elim (Bool-cases (allows_uri r u)) [
  | inl here ↦ (u, Memᴰ.head refl, allows_uri_sound r u here)
  | inr other ↦
      let (v, listed, m) = any_allows_sound r uris (ground arith) in (v, Memᴰ.tail listed, m)
]

any_allows_complete :
    (r u : String) {uris : List String} → Memᴰ u uris → Matches u r → any_allows r uris ≡ true
unfolding any_allows
any_allows_complete r u (Memᴰ.head e) m = rw (← e, allows_uri_complete r u m)
any_allows_complete r u (Memᴰ.tail listed) m = ground (arith, any_allows_complete r u listed m)

-- A redirect URI is accepted for a registered client exactly when some listed URI is equal to it,
-- or has a star and the URI begins with what precedes its first star and ends with what follows.
pub is_valid_redirect_uri_iff :
    (env : Env) (c : Client) (redirect_uri : String)
    → (is_valid_redirect_uri env (some c) redirect_uri ≡ true)
      ↔ ((u : String) × Memᴰ u (get_redirect_uris env c) × Matches u redirect_uri)
unfolding is_valid_redirect_uri
is_valid_redirect_uri_iff env c r = (
  any_allows_sound r (get_redirect_uris env c),
  λ (u, listed, m). any_allows_complete r u listed m,
)
