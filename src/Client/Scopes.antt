-- ===== src/Client/Scopes.antt =====
-- What FilterScopes and ValidateScopes of pkg/client/authenticate.go promise one another.
use autentico.Prelude.{
  String, ◌≡◌, refl, Bool, true, false, Option, none, some, ◌&&◌, arith, member, filter,
  member-filter, all-filter, all-filter_other, filter_of_all, is_empty,
}
use autentico.Schema.{Client}
use autentico.Text.{fields, join}
use autentico.Text.Laws.{is_word, fields-join, fields-words}
use autentico.Client.{is_allowed, filter_scopes, validate_scopes}

-- The words of a filtered text are the allowed words of the text.
fields-filter :
    (p : String → Bool) (s : String) → fields (join (filter p (fields s))) ≡ filter p (fields s)
fields-filter p s =
    fields-join (filter p (fields s)) (all-filter_other is_word p (fields s) (fields-words s))

-- For every client and every requested text, the filtered text passes the validation.
pub validate-filter :
    (c : Option Client) (requested : String) → validate_scopes c (filter_scopes c requested) ≡ true
unfolding validate_scopes filter_scopes
validate-filter none requested = refl
validate-filter (some c) requested = ground (
  arith,
  fields-filter (is_allowed c.scopes) requested,
  all-filter (is_allowed c.scopes) (fields requested),
)

-- With a client that lists scopes, a scope is in the filtered text exactly when it is in the
-- requested text and among the client's scopes.
pub member-filter_scopes :
    (c : Client) (requested s : String)
    → is_empty c.scopes ≡ false
    → member s (fields (filter_scopes (some c) requested))
      ≡ (is_allowed c.scopes s && member s (fields requested))
unfolding filter_scopes
member-filter_scopes c requested s listed = ground (
  arith,
  fields-filter (is_allowed c.scopes) requested,
  member-filter (is_allowed c.scopes) s (fields requested),
)

-- Filtering a second time changes no word.
pub filter-filter :
    (c : Option Client) (requested : String)
    → fields (filter_scopes c (filter_scopes c requested)) ≡ fields (filter_scopes c requested)
unfolding filter_scopes
filter-filter none requested = refl
filter-filter (some c) requested = ground (
  arith,
  fields-filter (is_allowed c.scopes) requested,
  fields-filter (is_allowed c.scopes) (join (filter (is_allowed c.scopes) (fields requested))),
  filter_of_all (is_allowed c.scopes) (filter (is_allowed c.scopes) (fields requested))
      (all-filter (is_allowed c.scopes) (fields requested)),
)
