-- ===== src/Tests/TextRuns.antt =====
-- Runs of the text functions on inputs with a known result.
use remnaguard.Prelude.{
  ◌≡◌, refl, true, false, some, none, [], ◌∷◌, has_prefix, trim_prefix, has_suffix, contains_text,
  split, cut, trim_space, to_lower, text_functions,
}

prefix_tests :
    (has_prefix "Bearer x" "Bearer " ≡ true)
    × (has_prefix "Bear" "Bearer" ≡ false)
    × (trim_prefix "rg_a" "rg_" ≡ "a")
    × (trim_prefix "xrg_a" "rg_" ≡ "xrg_a")
unfolding text_functions
prefix_tests = (refl, refl, refl, refl)

search_tests :
    (has_suffix "a/.." "/.." ≡ true)
    × (has_suffix ".." "/.." ≡ false)
    × (contains_text "/a//b" "//" ≡ true)
    × (contains_text "/a/b/" "//" ≡ false)
unfolding text_functions
search_tests = (refl, refl, refl, refl)

cut_tests :
    (split b'/' "/a/b" ≡ "" ∷ "a" ∷ "b" ∷ [])
    × (cut b'.' "a.b.c" ≡ some ("a", "b.c"))
    × (cut b'.' "abc" ≡ none)
    × (trim_space "  a b\t" ≡ "a b")
    × (to_lower "X-Éa" ≡ "x-Éa")
unfolding text_functions
cut_tests = (refl, refl, refl, refl, refl)
