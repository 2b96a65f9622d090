-- ===== src/Authzsig.antt =====
-- pkg/authzsig: the signature on the parameters of an authorization request, which the login and
-- sign-up forms carry.
pub mod Tampering
use autentico.Prelude.{String, Bool, List, [], ◌∷◌, ◌==◌}
use autentico.Env.{Env}
use autentico.Text.{join_lines}

pub record AuthorizeParams : Type 0 where
  pub client_id : String
  pub redirect_uri : String
  pub scope : String
  pub nonce : String
  pub code_challenge : String
  pub code_challenge_method : String
  pub state : String

abbrev pub texts : AuthorizeParams → List String
texts p =
    p.client_id ∷ p.redirect_uri ∷ p.scope ∷ p.nonce ∷ p.code_challenge ∷ p.code_challenge_method
    ∷ p.state ∷ []

unfoldable pub canonicalize : AuthorizeParams → String
canonicalize p = join_lines (texts p)

unfoldable pub sign : Env → AuthorizeParams → String
unfolding canonicalize
sign env p = env.hmac (canonicalize p)

unfoldable pub verify : Env → AuthorizeParams → String → Bool
unfolding sign
verify env p signature = sign env p == signature
