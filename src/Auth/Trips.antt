-- ===== src/Auth/Trips.antt =====
-- internal/auth/auth.go: the bearers that ParseBearer reads back.
use Prim.Native.String.{char_at}
use mathlib.Core.Option
use text.Mathlib.TextLemmas.{nil-append, cons-append}
use remnaguard.Prelude.{
  split, [], ◌∷◌, ℕ, String, true, Option, none, some, ◌+++◌, ◌≡◌, ◌≢◌, refl, ap, ◌∙◌, arith,
  eq_iff, has_prefix, after_prefix, trim_prefix, trim_space, cut, cons, Char, code, nat_eq,
  Bool-cases, inl, inr,
}
use remnaguard.Auth.Bearer.{parse_bearer}

-- The text of a credential's token, as the command line makes it.
abbrev pub token_text : String → String → String
token_text id secret = "rg_" +++ (id +++ ("." +++ secret))

pub has_prefix-append : (p s : String) → has_prefix (p +++ s) p ≡ true
unfolding has_prefix
has_prefix-append String.[] s = refl
has_prefix-append (String.◌∷◌ c p) s =
    ap (λ t. has_prefix t (cons c p)) (cons-append c p s) ∙ ground (arith, has_prefix-append p s)

after_prefix-append : (p s : String) → after_prefix (p +++ s) p ≡ some s
unfolding after_prefix
after_prefix-append String.[] s = ap some (nil-append s)
after_prefix-append (String.◌∷◌ c p) s =
    ap (λ t. after_prefix t (cons c p)) (cons-append c p s)
    ∙ ground (arith, after_prefix-append p s)

pub trim_prefix-append : (p s : String) → trim_prefix (p +++ s) p ≡ s
unfolding trim_prefix
trim_prefix-append p s = rw (after_prefix-append p s) refl

cut-cons : (sep : ℕ) (c : Char) (s : String) → code c ≡ sep → cut sep (cons c s) ≡ some ("", s)
unfolding cut
cut-cons sep c s h = ground (arith, h)

dot_append : (s : String) → "." +++ s ≡ cons (char_at "." 0) s
dot_append s = cons-append (char_at "." 0) "" s ∙ ap (cons (char_at "." 0)) (nil-append s)

cut-append :
    (id secret : String)
    → cut b'.' id ≡ none
    → cut b'.' (id +++ ("." +++ secret)) ≡ some (id, secret)
unfolding cut
cut-append String.[] secret h =
    ap (cut b'.') (nil-append ("." +++ secret) ∙ dot_append secret)
    ∙ cut-cons b'.' (char_at "." 0) secret refl
cut-append (String.◌∷◌ c id) secret h =
    ap (cut b'.') (cons-append c id ("." +++ secret)) ∙ elim (Bool-cases (nat_eq (code c) b'.')) [
      | inl e ↦ absurd (ground (arith, h, e))
      | inr e ↦
          ground (arith, e, cut-append id secret (rest_none (cut b'.' id) (ground (arith, h, e))))
    ]
  where
    rest_none :
        (o : Option (String × String))
        → Option.map {B = String × String} (λ r. (cons c r.0, r.1)) o ≡ none
        → o ≡ none
    rest_none none h = refl
    rest_none (some r) h = absurd (ground (arith, h))

-- ParseBearer reads the token that the command line makes of an id and a secret back as that id and that
-- secret, if neither is blank, the id has no dot, and the token has no white space at its ends.
pub parse_bearer-token_text :
    (id secret : String)
    → id ≢ ""
    → secret ≢ ""
    → cut b'.' id ≡ none
    → trim_space (token_text id secret) ≡ token_text id secret
    → parse_bearer ("Bearer " +++ token_text id secret)
      ≡ some (record { credential_id = id; secret = secret })
unfolding parse_bearer
parse_bearer-token_text id secret some_id some_secret no_dot trimmed =
    let token = token_text id secret in
    let rest = id +++ ("." +++ secret) in
    let raw : trim_space (trim_prefix ("Bearer " +++ token) "Bearer ") ≡ token =
      ap trim_space (trim_prefix-append "Bearer " token) ∙ trimmed in
    let parts : cut b'.' (trim_prefix token "rg_") ≡ some (id, secret) =
      ap (cut b'.') (trim_prefix-append "rg_" rest) ∙ cut-append id secret no_dot in
    rw (has_prefix-append "Bearer " token) (
      rw raw (
        rw (has_prefix-append "rg_" rest)
          (rw parts (ground (arith, eq_iff id "", eq_iff secret "", some_id, some_secret)))))

tail_none :
    (c : Char) (o : Option (String × String))
    → Option.map {B = String × String} (λ r. (cons c r.0, r.1)) o ≡ none
    → o ≡ none
tail_none c none h = refl
tail_none c (some r) h = absurd (ground (arith, h))

split-plain : (sep : ℕ) (s : String) → cut sep s ≡ none → split sep s ≡ s ∷ []
unfolding split cut
split-plain sep String.[] h = refl
split-plain sep (String.◌∷◌ c s) h = elim (Bool-cases (nat_eq (code c) sep)) [
  | inl e ↦ absurd (ground (arith, h, e))
  | inr e ↦ ground (arith, e, split-plain sep s (tail_none c (cut sep s) (ground (arith, h, e))))
]

split-cons :
    (sep : ℕ) (c : Char) (s : String) → code c ≡ sep → split sep (cons c s) ≡ "" ∷ split sep s
unfolding split
split-cons sep c s h = ground (arith, h)

-- Two texts without a dot, joined by one, are split into the two.
pub split-joined :
    (payload signature : String)
    → cut b'.' payload ≡ none
    → cut b'.' signature ≡ none
    → split b'.' (payload +++ ("." +++ signature)) ≡ payload ∷ signature ∷ []
unfolding split cut
split-joined String.[] signature h k =
    ap (split b'.') (nil-append ("." +++ signature) ∙ dot_append signature)
    ∙ split-cons b'.' (char_at "." 0) signature refl
    ∙ ap (λ ps. "" ∷ ps) (split-plain b'.' signature k)
split-joined (String.◌∷◌ c payload) signature h k =
    ap (split b'.') (cons-append c payload ("." +++ signature))
    ∙ elim (Bool-cases (nat_eq (code c) b'.')) [
      | inl e ↦ absurd (ground (arith, h, e))
      | inr e ↦ ground (
        arith,
        e,
        split-joined payload signature (tail_none c (cut b'.' payload) (ground (arith, h, e))) k,
      )
    ]
