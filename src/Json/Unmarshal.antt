-- ===== src/Json/Unmarshal.antt =====
-- encoding/json: what json.Unmarshal stores for a value in the types that the server uses; none is an
-- error. A null leaves the variable at its zero value, without an error.
use remnaguard.Prelude.{
  ℕ, String, Bool, true, false, Option, none, some, List, [], ◌∷◌, ◌&&◌, ◌||◌, if◌then◌else◌, ◌==◌,
  nat_eq, between, codes, to_lower, is_empty, ℤ, atoi,
}
use remnaguard.Json.{
  Json, null, boolean, number, text, array, object, Items, no_items, item, Fields, no_fields, field,
}

-- var s string
unfoldable pub unmarshal_string : Json → Option String
unmarshal_string (text s) = some s
unmarshal_string null = some ""
unmarshal_string _ = none

-- var s *string
unfoldable pub unmarshal_string_pointer : Json → Option (Option String)
unmarshal_string_pointer (text s) = some (some s)
unmarshal_string_pointer null = some none
unmarshal_string_pointer _ = none

-- var b bool
unfoldable pub unmarshal_bool : Json → Option Bool
unmarshal_bool (boolean b) = some b
unmarshal_bool null = some false
unmarshal_bool _ = none

abbrev some_int : Option ℤ → Option (Option ℤ)
some_int none = none
some_int (some n) = some (some n)

-- var n *int64
unfoldable pub unmarshal_int_pointer : Json → Option (Option ℤ)
unmarshal_int_pointer (number n) = some_int (atoi n)
unmarshal_int_pointer null = some none
unmarshal_int_pointer _ = none

abbrev pub both {ℓ} : {A : Type ℓ} → Option A → Option (List A) → Option (List A)
both (some x) (some xs) = some (x ∷ xs)
both _ _ = none

unfoldable pub strings_of : Items → Option (List String)
strings_of no_items = some []
strings_of (item v vs) = both (unmarshal_string v) (strings_of vs)

-- var xs []string
unfoldable pub unmarshal_strings : Json → Option (List String)
unmarshal_strings (array items) = strings_of items
unmarshal_strings null = some []
unmarshal_strings _ = none

abbrev kept : String → Json → Option String
kept s null = some s
kept s (text t) = some t
kept s _ = none

-- The field tagged `uuid` of a struct: a key is taken in any case, and the last one stays.
unfoldable pub uuid_from : Option String → Fields → Option String
uuid_from acc no_fields = acc
uuid_from none (field k v fs) = none
uuid_from (some s) (field k v fs) = uuid_from (if to_lower k == "uuid" then kept s v else some s) fs

unfoldable pub ref_of : Json → Option String
ref_of (object fs) = uuid_from (some "") fs
ref_of null = some ""
ref_of _ = none

unfoldable pub refs_of : Items → Option (List String)
refs_of no_items = some []
refs_of (item v vs) = both (ref_of v) (refs_of vs)

-- var refs []struct{ UUID string }
unfoldable pub unmarshal_refs : Json → Option (List String)
unmarshal_refs (array items) = refs_of items
unmarshal_refs null = some []
unmarshal_refs _ = none

abbrev is_digit : ℕ → Bool
is_digit c = between b'0' b'9' c

unfoldable pub drop_digits : List ℕ → List ℕ
drop_digits [] = []
drop_digits (c ∷ cs) = let rest = drop_digits cs in if is_digit c then rest else c ∷ cs

abbrev some_digits : List ℕ → Bool
some_digits [] = false
some_digits (c ∷ cs) = is_digit c && is_empty (drop_digits cs)

abbrev unsigned_exponent : List ℕ → Bool
unsigned_exponent [] = false
unsigned_exponent (c ∷ cs) = some_digits (if nat_eq c b'+' || nat_eq c b'-' then cs else c ∷ cs)

abbrev is_exponent : List ℕ → Bool
is_exponent [] = true
is_exponent (c ∷ cs) = (nat_eq c b'e' || nat_eq c b'E') && unsigned_exponent cs

abbrev is_fraction : List ℕ → Bool
is_fraction (c ∷ d ∷ cs) =
    if nat_eq c b'.' && is_digit d then is_exponent (drop_digits cs) else is_exponent (c ∷ d ∷ cs)
is_fraction cs = is_exponent cs

abbrev is_unsigned : List ℕ → Bool
is_unsigned [] = false
is_unsigned (c ∷ cs) =
    if nat_eq c b'0' then is_fraction cs else is_digit c && is_fraction (drop_digits cs)

abbrev is_signed : List ℕ → Bool
is_signed [] = false
is_signed (c ∷ cs) = is_unsigned (if nat_eq c b'-' then cs else c ∷ cs)

-- A text that is a number of JSON.
unfoldable pub is_number_text : String → Bool
unfolding drop_digits
is_number_text s = is_signed (codes s)

-- var n json.Number, the number's text
unfoldable pub unmarshal_number : Json → Option String
unmarshal_number (number n) = some n
unmarshal_number (text s) = if is_number_text s then some s else none
unmarshal_number null = some ""
unmarshal_number _ = none
