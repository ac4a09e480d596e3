-- ===== src/Httputil/Paths.antt =====
-- internal/httputil/validate.go: what a path that ValidateRawRequest accepts looks like.
pub mod Segments
use Prim.Native.Char.{char}
use Prim.Native.String
use remnaguard.Prelude.{
  ℕ, String, Bool, true, false, Option, List, [], ◌∷◌, ◌||◌, ◌&&◌, if◌then◌else◌, ◌≡◌, ◌≢◌, refl,
  ap, arith, code, Char, cons, codes, nat_eq, has_prefix, has_suffix, contains_text, split, All,
  Bool-cases, inl, inr, or_false, text_functions, eq_of_nat_eq, subst, sym, push_front,
}
use text.Mathlib.TextEquality.{Char-path}

-- A segment that a server cannot take for the directory itself or the one above it.
abbrev pub IsPlain : String → Type 0
IsPlain seg = (seg ≢ ".") × (seg ≢ "..")

abbrev is_dot : Char → Bool
is_dot c = nat_eq (code c) b'.'

abbrev is_slash : Char → Bool
is_slash c = nat_eq (code c) b'/'

abbrev pub slash : Char
slash = char 47 tt

abbrev dot : Char
dot = char 46 tt

dot_of : (c : Char) → is_dot c ≡ true → c ≡ dot
dot_of c h = Char-path c dot (eq_of_nat_eq (code c) 46 h)

pub slash_of : (c : Char) → is_slash c ≡ true → c ≡ slash
slash_of c h = Char-path c slash (eq_of_nat_eq (code c) 47 h)

pub blank-IsPlain : IsPlain ""
blank-IsPlain = (
  λ e. let k : codes "" ≡ codes "." = ap codes e in cc,
  λ e. let k : codes "" ≡ codes ".." = ap codes e in cc,
)

one-IsPlain : (c : Char) → is_dot c ≡ false → IsPlain (cons c "")
one-IsPlain c h = (
  λ e. let k : codes (cons c "") ≡ codes "." = ap codes e in ground arith,
  λ e. let k : codes (cons c "") ≡ codes ".." = ap codes e in ground arith,
)

two-IsPlain : (c d : Char) → (is_dot c && is_dot d) ≡ false → IsPlain (cons c (cons d ""))
two-IsPlain c d h = (
  λ e. let k : codes (cons c (cons d "")) ≡ codes "." = ap codes e in ground arith,
  λ e. let k : codes (cons c (cons d "")) ≡ codes ".." = ap codes e in ground arith,
)

three-IsPlain : (c d e : Char) (s : String) → IsPlain (cons c (cons d (cons e s)))
three-IsPlain c d e s = (
  λ p. let k : codes (cons c (cons d (cons e s))) ≡ codes "." = ap codes p in ground arith,
  λ p. let k : codes (cons c (cons d (cons e s))) ≡ codes ".." = ap codes p in ground arith,
)

abbrev FirstPlain : List String → Type 0
FirstPlain [] = Unit
FirstPlain (x ∷ xs) = IsPlain x

abbrev RestPlain : List String → Type 0
RestPlain [] = Unit
RestPlain (x ∷ xs) = All IsPlain xs

-- What the tests of the source say of a part of the path.
pub record IsClean (s : String) : Type 0 where
  pub inner_dot : contains_text s "/./" ≡ false
  pub inner_dots : contains_text s "/../" ≡ false
  pub last_dot : has_suffix s "/." ≡ false
  pub last_dots : has_suffix s "/.." ≡ false

IsClean-tail : (c : Char) (s : String) → IsClean (cons c s) → IsClean s
unfolding contains_text has_suffix
IsClean-tail c s h = record {
  inner_dot = (or_false _ _ h.inner_dot).1;
  inner_dots = (or_false _ _ h.inner_dots).1;
  last_dot = (or_false _ _ h.last_dot).1;
  last_dots = (or_false _ _ h.last_dots).1;
}
