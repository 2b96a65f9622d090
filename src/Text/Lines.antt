-- ===== src/Text/Lines.antt =====
-- Lines joined to one text can be told apart again.
use Prim.Native.Char.{code}
use autentico.Prelude.{
  String, ◌≡◌, refl, ap, ◌∙◌, Bool, true, not, List, [], ◌∷◌, ◌&&◌, arith, all, nat_eq,
}
use autentico.Text.{append, pieces, split, join_lines}

-- A text without a newline.
unfoldable pub is_line : String → Bool
is_line String.[] = true
is_line (String.◌∷◌ c s) = not (nat_eq (code c) 10) && is_line s

pieces-line : (w : String) → is_line w ≡ true → pieces 10 w ≡ (w, [])
unfolding pieces is_line
pieces-line String.[] h = refl
pieces-line (String.◌∷◌ c w) h = ground (arith, pieces-line w)

pieces-append :
    (w s : String)
    → is_line w ≡ true
    → pieces 10 (append w (append "\n" s)) ≡ (w, (pieces 10 s).0 ∷ (pieces 10 s).1)
unfolding pieces is_line append
pieces-append String.[] s h = refl
pieces-append (String.◌∷◌ c w) s h = ground (arith, pieces-append w s)

-- Lines are read back as they were joined.
pub split-join_lines :
    (w : String) (ws : List String)
    → all is_line (w ∷ ws) ≡ true
    → split 10 (join_lines (w ∷ ws)) ≡ w ∷ ws
unfolding split join_lines
split-join_lines w [] h =
    let is : is_line w ≡ true = ground arith in ap (λ r. r.0 ∷ r.1) (pieces-line w is)
split-join_lines w (v ∷ ws) h =
    let is : is_line w ≡ true = ground arith in
    let rest : all is_line (v ∷ ws) ≡ true = ground arith in
    ap (λ r. r.0 ∷ r.1) (pieces-append w (join_lines (v ∷ ws)) is)
    ∙ ap (λ r. w ∷ r) (split-join_lines v ws rest)
