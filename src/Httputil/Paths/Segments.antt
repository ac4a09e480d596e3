-- ===== src/Httputil/Paths/Segments.antt =====
-- internal/httputil/validate.go: the segments of a clean path are plain.

use remnaguard.Prelude.{
  String, true, false, List, [], ◌∷◌, ◌&&◌, ◌≡◌, Char, cons, has_prefix, has_suffix, contains_text,
  split, All, Bool-cases, inl, inr, push_front, subst, subst₂, and_true,
}
use remnaguard.Httputil.Paths.{
  IsPlain, is_dot, is_slash, slash, dot, dot_of, slash_of, blank-IsPlain, one-IsPlain, two-IsPlain,
  three-IsPlain, FirstPlain, RestPlain, IsClean, IsClean-tail,
}

first_three :
    (c d e : Char) (l : List String) → FirstPlain (push_front c (push_front d (push_front e l)))
first_three c d e [] = three-IsPlain c d e ""
first_three c d e (p ∷ ps) = three-IsPlain c d e p

not_last_dot : ¬ IsClean (cons slash (cons dot ""))
unfolding has_suffix
not_last_dot h = let e : true ≡ false = h.last_dot in cc

not_last_dots : ¬ IsClean (cons slash (cons dot (cons dot "")))
unfolding has_suffix
not_last_dots h = let e : true ≡ false = h.last_dots in cc

not_inner_dot : (s : String) → ¬ IsClean (cons slash (cons dot (cons slash s)))
unfolding contains_text has_prefix
not_inner_dot s h = let e : true ≡ false = h.inner_dot in cc

not_inner_dots : (s : String) → ¬ IsClean (cons slash (cons dot (cons dot (cons slash s))))
unfolding contains_text has_prefix
not_inner_dots s h = let e : true ≡ false = h.inner_dots in cc

one_end : (c : Char) → IsClean (cons slash (cons c "")) → IsPlain (cons c "")
one_end c h = elim (Bool-cases (is_dot c)) [
  | inl e ↦ absurd (not_last_dot (subst (λ x. IsClean (cons slash (cons x ""))) (dot_of c e) h))
  | inr e ↦ one-IsPlain c e
]

one_inner :
    (c : Char) (s : String) → IsClean (cons slash (cons c (cons slash s))) → IsPlain (cons c "")
one_inner c s h = elim (Bool-cases (is_dot c)) [
  | inl e ↦
      absurd
        (not_inner_dot s (subst (λ x. IsClean (cons slash (cons x (cons slash s)))) (dot_of c e) h))
  | inr e ↦ one-IsPlain c e
]

two_end : (c d : Char) → IsClean (cons slash (cons c (cons d ""))) → IsPlain (cons c (cons d ""))
two_end c d h = elim (Bool-cases (is_dot c && is_dot d)) [
  | inl e ↦
      let (p, q) = and_true _ _ e in
      absurd (
        not_last_dots
          (subst₂ (λ x y. IsClean (cons slash (cons x (cons y "")))) (dot_of c p) (dot_of d q) h))
  | inr e ↦ two-IsPlain c d e
]

two_inner :
    (c d : Char) (s : String)
    → IsClean (cons slash (cons c (cons d (cons slash s))))
    → IsPlain (cons c (cons d ""))
two_inner c d s h = elim (Bool-cases (is_dot c && is_dot d)) [
  | inl e ↦
      let (p, q) = and_true _ _ e in
      absurd (
        not_inner_dots s (
          subst₂ (λ x y. IsClean (cons slash (cons x (cons y (cons slash s))))) (dot_of c p)
            (dot_of d q) h))
  | inr e ↦ two-IsPlain c d e
]

first_plain : (s : String) → IsClean (cons slash s) → FirstPlain (split b'/' s)
unfolding split
first_plain String.[] h = blank-IsPlain
first_plain (String.◌∷◌ c String.[]) h = elim (Bool-cases (is_slash c)) [
  | inl e ↦ rw e blank-IsPlain
  | inr e ↦ rw e (one_end c h)
]
first_plain (String.◌∷◌ c (String.◌∷◌ d String.[])) h = elim (Bool-cases (is_slash c)) [
  | inl e ↦ rw e blank-IsPlain
  | inr e ↦ elim (Bool-cases (is_slash d)) [
    | inl f ↦
        rw (e, f)
          (one_inner c "" (subst (λ x. IsClean (cons slash (cons c (cons x "")))) (slash_of d f) h))
    | inr f ↦ rw (e, f) (two_end c d h)
  ]
]
first_plain (String.◌∷◌ c (String.◌∷◌ d (String.◌∷◌ k s))) h = elim (Bool-cases (is_slash c)) [
  | inl e ↦ rw e blank-IsPlain
  | inr e ↦ elim (Bool-cases (is_slash d)) [
    | inl f ↦
        rw (e, f)
          (one_inner c (cons k s)
            (subst (λ x. IsClean (cons slash (cons c (cons x (cons k s))))) (slash_of d f) h))
    | inr f ↦ elim (Bool-cases (is_slash k)) [
      | inl g ↦
          rw (e, f, g)
            (two_inner c d s
              (subst (λ x. IsClean (cons slash (cons c (cons d (cons x s))))) (slash_of k g) h))
      | inr g ↦ rw (e, f, g) (first_three c d k (split b'/' s))
    ]
  ]
]

rest_push : (c : Char) (l : List String) → RestPlain l → RestPlain (push_front c l)
rest_push c [] h = tt
rest_push c (p ∷ ps) h = h

All-of : (l : List String) → FirstPlain l → RestPlain l → All IsPlain l
All-of [] f r = tt
All-of (x ∷ xs) f r = (f, r)

rest_plain : (s : String) → IsClean s → RestPlain (split b'/' s)
unfolding split
rest_plain String.[] h = tt
rest_plain (String.◌∷◌ c s) h =
    let ih = rest_plain s (IsClean-tail c s h) in
    elim (Bool-cases (is_slash c)) [
      | inl e ↦
          let started = subst (λ x. IsClean (cons x s)) (slash_of c e) h in
          rw e (All-of (split b'/' s) (first_plain s started) ih)
      | inr e ↦ rw e (rest_push c (split b'/' s) ih)
    ]

-- After the slash at its front, a clean path has plain segments only.
pub clean_segments : (s : String) → IsClean (cons slash s) → All IsPlain (split b'/' s)
clean_segments s h = All-of (split b'/' s) (first_plain s h) (rest_plain s (IsClean-tail slash s h))
