-- ===== src/Text.antt =====
-- The functions of Go's `strings` package that the code uses, over the characters of a text.
pub mod Laws
pub mod Affixes
pub mod Lines
use Prim.Native.Char.{Char, code}
use autentico.Prelude.{
  ℕ, ◌+◌, String, Bool, true, false, List, [], ◌∷◌, ◌||◌, ◌&&◌, leb, nat_eq, if◌then◌else◌, ◌==◌,
  Option, none, some,
}

-- unicode.IsSpace.
unfoldable pub is_space : ℕ → Bool
is_space c =
    (leb 9 c && leb c 13)
    || nat_eq c 0x20
    || nat_eq c 0x85
    || nat_eq c 0xa0
    || nat_eq c 0x1680
    || (leb 0x2000 c && leb c 0x200a)
    || nat_eq c 0x2028
    || nat_eq c 0x2029
    || nat_eq c 0x202f
    || nat_eq c 0x205f
    || nat_eq c 0x3000

-- Puts a word in front of the words, unless it is empty.
unfoldable pub push : String → List String → List String
push String.[] rest = rest
push (String.◌∷◌ c w) rest = String.◌∷◌ c w ∷ rest

-- The text up to the first separator, and the words behind it.
abbrev pub extend : Char → String × List String → String × List String
extend c r = (String.◌∷◌ c r.0, r.1)

abbrev pub close : String × List String → String × List String
close r = ("", push r.0 r.1)

abbrev pub finish : String × List String → List String
finish r = push r.0 r.1

unfoldable pub words : String → String × List String
words String.[] = ("", [])
words (String.◌∷◌ c s) = let r = words s in if is_space (code c) then close r else extend c r

-- strings.Fields.
unfoldable pub fields : String → List String
fields s = finish (words s)

abbrev cut : String × List String → String × List String
cut r = ("", r.0 ∷ r.1)

abbrev whole : String × List String → List String
whole r = r.0 ∷ r.1

unfoldable pub pieces : ℕ → String → String × List String
pieces sep String.[] = ("", [])
pieces sep (String.◌∷◌ c s) =
    let r = pieces sep s in if nat_eq (code c) sep then cut r else extend c r

-- strings.Split(s, sep) at a separator of one character.
unfoldable pub split : ℕ → String → List String
unfolding pieces
split sep s = whole (pieces sep s)

-- The text `a` followed by `b`.
unfoldable pub append : String → String → String
append String.[] b = b
append (String.◌∷◌ c a) b = String.◌∷◌ c (append a b)

-- strings.Join(words, " ").
unfoldable pub join : List String → String
join [] = ""
join (w ∷ []) = w
join (w ∷ v ∷ ws) = append w (append " " (join (v ∷ ws)))

-- strings.Join(words, "\n").
unfoldable pub join_lines : List String → String
join_lines [] = ""
join_lines (w ∷ []) = w
join_lines (w ∷ v ∷ ws) = append w (append "\n" (join_lines (v ∷ ws)))

-- strings.HasPrefix(s, prefix).
unfoldable pub has_prefix : String → String → Bool
has_prefix s String.[] = true
has_prefix String.[] (String.◌∷◌ d p) = false
has_prefix (String.◌∷◌ c s) (String.◌∷◌ d p) = nat_eq (code c) (code d) && has_prefix s p

-- strings.HasSuffix(s, suffix).
unfoldable pub has_suffix : String → String → Bool
has_suffix String.[] suffix = "" == suffix
has_suffix (String.◌∷◌ c s) suffix = String.◌∷◌ c s == suffix || has_suffix s suffix

abbrev after : Char → Option (String × String) → Option (String × String)
after c none = none
after c (some r) = some (String.◌∷◌ c r.0, r.1)

-- strings.Index at a separator of one character: the text before its first place and the text
-- behind it, none where the code reads the index -1.
unfoldable pub cut_at : ℕ → String → Option (String × String)
cut_at sep String.[] = none
cut_at sep (String.◌∷◌ c s) = if nat_eq (code c) sep then some ("", s) else after c (cut_at sep s)

-- The lower case of an ASCII letter.
unfoldable pub lower : ℕ → ℕ
lower c = if leb 65 c && leb c 90 then c + 32 else c

-- What follows a prefix in lower case, whatever the case of the text.
unfoldable pub after_fold : String → String → Option String
unfolding lower
after_fold String.[] s = some s
after_fold (String.◌∷◌ p ps) String.[] = none
after_fold (String.◌∷◌ p ps) (String.◌∷◌ c s) =
    if nat_eq (lower (code c)) (code p) then after_fold ps s else none

-- strings.TrimSpace.
unfoldable pub trim_left : String → String
trim_left String.[] = ""
trim_left (String.◌∷◌ c s) = if is_space (code c) then trim_left s else String.◌∷◌ c s

unfoldable pub trim_right : String → String
trim_right String.[] = ""
trim_right (String.◌∷◌ c s) =
    let r = trim_right s in if is_space (code c) && r == "" then "" else String.◌∷◌ c r

unfoldable pub trim_space : String → String
unfolding trim_left trim_right
trim_space s = trim_right (trim_left s)
