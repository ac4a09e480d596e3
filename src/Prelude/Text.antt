-- ===== src/Prelude/Text.antt =====
-- What the program uses of Go's `strings`, over the code points of a text. A Go string is taken to
-- be valid UTF-8, where searching by bytes and by code points agree; `len` counts bytes.
use Prim.Native.Nat.{ℕ, zero, suc, ◌-◌, Ordering}
use Prim.Native.Char.{Char, code}
use Prim.Native.String
use Prim.Native.String.{String, char_at, compare}
use mathlib.Core.Bool.{Bool, true, false, ◌&&◌, ◌||◌}
use mathlib.Core.Option
use mathlib.Core.Option.{Option, none, some}
use mathlib.Core.List.{List, [], ◌∷◌}
use text.Mathlib.Text.{◌==◌}
use remnaguard.Prelude.Tests.{leb, nat_eq, if◌then◌else◌}
use remnaguard.Prelude.Lists.{any}

-- The code points of a text.
abbrev pub codes : String → List ℕ
codes String.[] = []
codes (String.◌∷◌ c s) = code c ∷ codes s

abbrev pub cons : Char → String → String
cons c s = String.◌∷◌ c s

infixr 65 ◌+++◌
abbrev pub ◌+++◌ : String → String → String
s +++ t = String.◌++◌ s t

abbrev pub between : ℕ → ℕ → ℕ → Bool
between lo hi c = leb lo c && leb c hi

-- unicode.IsSpace
unfoldable pub is_space : ℕ → Bool
is_space c =
    between 9 13 c
    || nat_eq c 32
    || nat_eq c 0x85
    || nat_eq c 0xa0
    || nat_eq c 0x1680
    || between 0x2000 0x200a c
    || nat_eq c 0x2028
    || nat_eq c 0x2029
    || nat_eq c 0x202f
    || nat_eq c 0x205f
    || nat_eq c 0x3000

-- strings.HasPrefix
unfoldable pub has_prefix : String → String → Bool
has_prefix s String.[] = true
has_prefix String.[] (String.◌∷◌ d p) = false
has_prefix (String.◌∷◌ c s) (String.◌∷◌ d p) = nat_eq (code c) (code d) && has_prefix s p

-- The first n code points of a text.
unfoldable pub first_codes : ℕ → String → String
first_codes n String.[] = String.[]
first_codes zero (String.◌∷◌ c s) = String.[]
first_codes (suc n) (String.◌∷◌ c s) = cons c (first_codes n s)

-- What follows a prefix, if the text has it.
unfoldable pub after_prefix : String → String → Option String
after_prefix s String.[] = some s
after_prefix String.[] (String.◌∷◌ d p) = none
after_prefix (String.◌∷◌ c s) (String.◌∷◌ d p) =
    if nat_eq (code c) (code d) then after_prefix s p else none

-- strings.TrimPrefix
unfoldable pub trim_prefix : String → String → String
unfolding after_prefix
trim_prefix s p = Option.get_or (after_prefix s p) s

-- strings.HasSuffix
unfoldable pub has_suffix : String → String → Bool
has_suffix String.[] p = String.[] == p
has_suffix (String.◌∷◌ c s) p = cons c s == p || has_suffix s p

-- strings.Contains
unfoldable pub contains_text : String → String → Bool
unfolding has_prefix
contains_text String.[] t = has_prefix String.[] t
contains_text (String.◌∷◌ c s) t = has_prefix (cons c s) t || contains_text s t

-- strings.ContainsAny, the characters given by their code points
unfoldable pub contains_any : List ℕ → String → Bool
contains_any cs s = any (λ c. any (nat_eq c) cs) (codes s)

abbrev pub push_front : Char → List String → List String
push_front c [] = cons c String.[] ∷ []
push_front c (p ∷ ps) = cons c p ∷ ps

-- strings.Split at one character
unfoldable pub split : ℕ → String → List String
split sep String.[] = String.[] ∷ []
split sep (String.◌∷◌ c s) =
    let rest = split sep s in if nat_eq (code c) sep then String.[] ∷ rest else push_front c rest

-- strings.Cut and strings.SplitN(s, sep, 2) at one character; `none` where it does not occur
unfoldable pub cut : ℕ → String → Option (String × String)
cut sep String.[] = none
cut sep (String.◌∷◌ c s) =
    let rest = cut sep s in
    if nat_eq (code c) sep then some (String.[], s) else Option.map (λ r. (cons c r.0, r.1)) rest

-- strings.TrimLeftFunc and strings.TrimRightFunc
unfoldable pub trim_left : (ℕ → Bool) → String → String
trim_left drop String.[] = String.[]
trim_left drop (String.◌∷◌ c s) =
    let rest = trim_left drop s in if drop (code c) then rest else cons c s

abbrev cons_kept : Bool → Char → String → String
cons_kept dropped c String.[] = if dropped then String.[] else cons c String.[]
cons_kept dropped c (String.◌∷◌ d s) = cons c (cons d s)

unfoldable pub trim_right : (ℕ → Bool) → String → String
trim_right drop String.[] = String.[]
trim_right drop (String.◌∷◌ c s) = cons_kept (drop (code c)) c (trim_right drop s)

-- strings.TrimSpace
unfoldable pub trim_space : String → String
unfolding trim_left trim_right is_space
trim_space s = trim_right is_space (trim_left is_space s)

-- strings.ToLower on ASCII letters
abbrev lower_char : Char → Char
lower_char c =
    if between b'A' b'Z' (code c) then char_at "abcdefghijklmnopqrstuvwxyz" (code c - b'A') else c

unfoldable pub to_lower : String → String
to_lower String.[] = String.[]
to_lower (String.◌∷◌ c s) = cons (lower_char c) (to_lower s)

abbrev upper_char : Char → Char
upper_char c =
    if between b'a' b'z' (code c) then char_at "ABCDEFGHIJKLMNOPQRSTUVWXYZ" (code c - b'a') else c

-- strings.ToUpper on ASCII letters
unfoldable pub to_upper : String → String
to_upper String.[] = String.[]
to_upper (String.◌∷◌ c s) = cons (upper_char c) (to_upper s)

-- `s < t` on texts
abbrev pub text_lt : String → String → Bool
text_lt s t = elim (compare s t) [ Ordering.lt ↦ true | _ ↦ false ]

unfoldable pub text_functions : Unit {0}
unfolding has_prefix trim_prefix has_suffix contains_text contains_any split cut trim_space to_lower
    to_upper
text_functions = tt
