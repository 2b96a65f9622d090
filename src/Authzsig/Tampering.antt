-- ===== src/Authzsig/Tampering.antt =====
-- What a signature on an authorization request pins down.
use autentico.Prelude.{String, ◌≡◌, sym, ap, ◌∙◌, true, arith, all, eq_iff}
use autentico.Env.{Env}
use autentico.Text.{split}
use autentico.Text.Lines.{is_line, split-join_lines}
use autentico.Authzsig.{AuthorizeParams, texts, canonicalize, sign, verify}

-- No parameter has a newline.
abbrev pub IsClean : AuthorizeParams → Type 0
IsClean p = all is_line (texts p) ≡ true

texts-eq : (p q : AuthorizeParams) → texts p ≡ texts q → p ≡ q
texts-eq p q h = ground arith

canonicalize-split : (p : AuthorizeParams) → IsClean p → split 10 (canonicalize p) ≡ texts p
unfolding canonicalize
canonicalize-split p clean = split-join_lines p.client_id _ clean

-- A signature that two requests pass is on one request: when no parameter of either has a newline,
-- and the HMAC tells their two canonical texts apart.
pub verify-same :
    (env : Env) (p q : AuthorizeParams) (signature : String)
    → (env.hmac (canonicalize p) ≡ env.hmac (canonicalize q) → canonicalize p ≡ canonicalize q)
    → IsClean p
    → IsClean q
    → verify env p signature ≡ true
    → verify env q signature ≡ true
    → p ≡ q
unfolding verify sign
verify-same env p q signature distinct clean_p clean_q first second =
    let left : sign env p ≡ signature = (eq_iff (sign env p) signature).0 first in
    let right : sign env q ≡ signature = (eq_iff (sign env q) signature).0 second in
    texts-eq p q (
      sym (canonicalize-split p clean_p)
      ∙ ap (split 10) (distinct (left ∙ sym right))
      ∙ canonicalize-split q clean_q)
