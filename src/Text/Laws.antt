-- ===== src/Text/Laws.antt =====
-- Splitting a text into words and joining them again.
use Prim.Native.Char.{code}
use autentico.Prelude.{
  String, ◌≡◌, refl, sym, ap, ◌∙◌, Bool, true, false, not, List, [], ◌∷◌, ◌&&◌, arith, all,
  Bool-cases, inl, inr,
}
use autentico.Text.{is_space, push, close, finish, words, fields, append, join}

pub no_space : String → Bool
no_space String.[] = true
no_space (String.◌∷◌ c s) = not (is_space (code c)) && no_space s

-- A word: a text that is not empty and has no white space.
pub is_word : String → Bool
unfolding no_space
is_word String.[] = false
is_word (String.◌∷◌ c s) = no_space (String.◌∷◌ c s)

append-nil : (w : String) → append w "" ≡ w
unfolding append
append-nil String.[] = refl
append-nil (String.◌∷◌ c w) = ap (String.◌∷◌ c) (append-nil w)

abbrev before : String → String × List String → String × List String
before w r = (append w r.0, r.1)

words-append : (w s : String) → no_space w ≡ true → words (append w s) ≡ before w (words s)
unfolding words append no_space
words-append String.[] s h = refl
words-append (String.◌∷◌ c w) s h = ground (arith, words-append w s)

words-space : (s : String) → words (append " " s) ≡ close (words s)
unfolding words append is_space
words-space s = refl

no_space_of_word : (w : String) → is_word w ≡ true → no_space w ≡ true
unfolding is_word
no_space_of_word String.[] h = refl
no_space_of_word (String.◌∷◌ c w) h = h

push_word : (w : String) (ws : List String) → is_word w ≡ true → push w ws ≡ w ∷ ws
unfolding is_word push
push_word String.[] ws h = ground arith
push_word (String.◌∷◌ c w) ws h = refl

finish-before-close :
    (w : String) (r : String × List String)
    → is_word w ≡ true
    → finish (before w (close r)) ≡ w ∷ finish r
finish-before-close w r h = ap (λ u. push u (finish r)) (append-nil w) ∙ push_word w _ h

finish-before-nil : (w : String) → is_word w ≡ true → finish (before w ("", [])) ≡ w ∷ []
finish-before-nil w h = ap (λ u. push u []) (append-nil w) ∙ push_word w [] h

-- Words joined by spaces are read back as they were.
pub fields-join : (ws : List String) → all is_word ws ≡ true → fields (join ws) ≡ ws
unfolding fields join words
fields-join [] h = unfold push in refl
fields-join (w ∷ []) h =
    let is : is_word w ≡ true = ground arith in
    ap fields (sym (append-nil w))
    ∙ ap finish (words-append w "" (no_space_of_word w is))
    ∙ finish-before-nil w is
fields-join (w ∷ v ∷ ws) h =
    let is : is_word w ≡ true = ground arith in
    rw (words-append w _ (no_space_of_word w is), words-space _)
      (finish-before-close w _ is ∙ ap (λ r. w ∷ r) (fields-join (v ∷ ws) (ground arith)))

no_space-words : (s : String) → no_space (words s).0 ≡ true
unfolding words no_space
no_space-words String.[] = refl
no_space-words (String.◌∷◌ c s) = elim (Bool-cases (is_space (code c))) [
  | inl space ↦ rw space
  | inr other ↦ rw other (rw other (no_space-words s))
]

all-push :
    (w : String) (ws : List String)
    → no_space w ≡ true
    → all is_word ws ≡ true
    → all is_word (push w ws) ≡ true
unfolding push is_word
all-push String.[] ws h k = k
all-push (String.◌∷◌ c w) ws h k = ground arith

all-words : (s : String) → all is_word (words s).1 ≡ true
unfolding words
all-words String.[] = refl
all-words (String.◌∷◌ c s) = elim (Bool-cases (is_space (code c))) [
  | inl space ↦ rw space (all-push (words s).0 (words s).1 (no_space-words s) (all-words s))
  | inr other ↦ rw other (all-words s)
]

-- What strings.Fields returns are words.
pub fields-words : (s : String) → all is_word (fields s) ≡ true
unfolding fields
fields-words s = all-push (words s).0 (words s).1 (no_space-words s) (all-words s)
