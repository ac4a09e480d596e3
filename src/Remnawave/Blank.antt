-- ===== src/Remnawave/Blank.antt =====
-- internal/remnawave/user.go: a blank text beside the tests of OwnsUser.
use remnaguard.Prelude.{
  String, Bool, true, false, ◌≡◌, refl, arith, eq_iff, has_prefix, has_suffix, contains_text,
  to_lower, cons, ap,
}

pub has_prefix-blank : (s : String) → has_prefix s "" ≡ true
unfolding has_prefix
has_prefix-blank String.[] = refl
has_prefix-blank (String.◌∷◌ c s) = refl

pub has_suffix-blank : (s : String) → has_suffix s "" ≡ true
unfolding has_suffix
has_suffix-blank String.[] = refl
has_suffix-blank (String.◌∷◌ c s) = ground (arith, has_suffix-blank s)

pub contains_text-blank : (s : String) → contains_text s "" ≡ true
unfolding contains_text
contains_text-blank String.[] = has_prefix-blank ""
contains_text-blank (String.◌∷◌ c s) = ground (arith, has_prefix-blank (cons c s))

blank_prefix : (p : String) → has_prefix "" p ≡ true → p ≡ ""
unfolding has_prefix
blank_prefix String.[] h = refl
blank_prefix (String.◌∷◌ c p) h = ground (arith, h)

blank_suffix : (p : String) → has_suffix "" p ≡ true → p ≡ ""
unfolding has_suffix
blank_suffix p h = ground (arith, eq_iff "" p, h)

blank_text : (t : String) → contains_text "" t ≡ true → t ≡ ""
unfolding contains_text
blank_text t h = blank_prefix t h

abbrev is_blank : String → Bool
is_blank String.[] = true
is_blank (String.◌∷◌ c s) = false

lower_blank : (s : String) → to_lower s ≡ "" → s ≡ ""
unfolding to_lower
lower_blank String.[] h = refl
lower_blank (String.◌∷◌ c s) h = absurd (ground (arith, ap is_blank h))

pub blank_lower : to_lower "" ≡ ""
unfolding to_lower
blank_lower = refl
