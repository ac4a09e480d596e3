-- ===== src/Header.antt =====
-- Go's http.Header. Every key is a valid header name in its canonical form, and Get, Set, Add and Del
-- bring their argument to that form; so a key is kept here in lower case, which tells apart the same
-- names. A header's values stand in the order in which they came.
use remnaguard.Prelude.{
  String, Option, none, some, List, [], ◌∷◌, ◌++◌, to_lower, find, store, without,
}

abbrev pub Header : Type 0
Header = List (String × List String)

abbrev pub values_or_none : Option (List String) → List String
values_or_none none = []
values_or_none (some vs) = vs

abbrev first_or_blank : List String → String
first_or_blank [] = ""
first_or_blank (v ∷ vs) = v

-- Values, Get, Set, Add and Del
unfoldable pub header_values : Header → String → List String
header_values h name = values_or_none (find (to_lower name) h)

unfoldable pub header_get : Header → String → String
unfolding header_values
header_get h name = first_or_blank (header_values h name)

unfoldable pub header_set : String → String → Header → Header
header_set name value h = store (to_lower name) (value ∷ []) h

unfoldable pub header_add : String → String → Header → Header
unfolding header_values
header_add name value h = store (to_lower name) (header_values h name ++ value ∷ []) h

unfoldable pub header_del : String → Header → Header
header_del name h = without (to_lower name) h
