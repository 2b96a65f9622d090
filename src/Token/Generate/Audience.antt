-- ===== src/Token/Generate/Audience.antt =====
-- The audience of an access token: buildAudience of pkg/token/generate.go.
use autentico.Prelude.{
  String, Bool, ◌≡◌, refl, true, false, not, List, [], ◌∷◌, ◌++◌, arith, eq_iff, ◌==◌, ◌||◌, ◌&&◌,
  member, if◌then◌else◌,
}
use autentico.Token.Generate.{build_audience, extend_audience}

member-append :
    (x : String) (xs ys : List String) → member x (xs ++ ys) ≡ (member x xs || member x ys)
member-append x [] ys = refl
member-append x (y ∷ xs) ys = ground (arith, member-append x xs ys)

-- Whether no text stands twice in a list.
abbrev pub distinct : List String → Bool
distinct [] = true
distinct (x ∷ xs) = not (member x xs) && distinct xs

distinct-append :
    (a : String) (xs : List String)
    → distinct xs ≡ true
    → member a xs ≡ false
    → distinct (xs ++ (a ∷ [])) ≡ true
distinct-append a [] h m = refl
distinct-append a (x ∷ xs) h m =
    ground (arith, distinct-append a xs, member-append x xs (a ∷ []), eq_iff a x, eq_iff x a)

member-extend :
    (x : String) (aud more : List String)
    → member x (extend_audience aud more) ≡ (member x aud || member x more)
unfolding extend_audience
member-extend x aud [] = ground arith
member-extend x aud (a ∷ more) = ground (
  arith,
  member-extend x (if member a aud then aud else aud ++ (a ∷ [])) more,
  member-append x aud (a ∷ []),
  eq_iff a x,
)

distinct-extend :
    (aud more : List String) → distinct aud ≡ true → distinct (extend_audience aud more) ≡ true
unfolding extend_audience
distinct-extend aud [] h = h
distinct-extend aud (a ∷ more) h = ground (
  arith,
  distinct-extend (if member a aud then aud else aud ++ (a ∷ [])) more,
  distinct-append a aud h,
)

-- A text is in the audience exactly when it is the issuer, the client or a custom audience.
pub member-build_audience :
    (issuer client_id : String) (custom : List String) (x : String)
    → member x (build_audience issuer client_id custom)
      ≡ (issuer == x || client_id == x || member x custom)
unfolding build_audience
member-build_audience issuer client_id custom x =
    ground (arith, member-extend x (issuer ∷ client_id ∷ []) custom)

-- Where the issuer is not the client's identifier, no text stands in the audience twice.
pub distinct-build_audience :
    (issuer client_id : String) (custom : List String)
    → (issuer == client_id) ≡ false
    → distinct (build_audience issuer client_id custom) ≡ true
unfolding build_audience
distinct-build_audience issuer client_id custom h =
    distinct-extend (issuer ∷ client_id ∷ []) custom
      (ground (arith, eq_iff issuer client_id, eq_iff client_id issuer))
