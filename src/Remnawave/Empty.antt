-- ===== src/Remnawave/Empty.antt =====
-- internal/remnawave/user.go: responses without a user.
use remnaguard.Prelude.{String, Bool, true, false, Option, none, some, List, [], ◌∷◌, find}
use remnaguard.Json.{
  Json, null, boolean, number, text, array, object, Items, no_items, item, Fields, no_fields, field,
}
use remnaguard.Remnawave.Decode.{response_keys}

abbrev is_no_items : Items → Bool
is_no_items no_items = true
is_no_items (item v vs) = false

-- What the first of the keys that the object has gives.
unfoldable pub first_empty : List String → List (String × Bool) → Bool
first_empty [] children = false
first_empty (key ∷ keys) children =
    let later = first_empty keys children in elim (find key children) [ none ↦ later | some b ↦ b ]

unfoldable mutual
  -- isEmptyUserNode
  pub is_empty_user_node : Json → Bool
  is_empty_user_node (array items) = is_no_items items
  is_empty_user_node (object obj) = first_empty response_keys (empty_children obj)
  is_empty_user_node null = false
  is_empty_user_node (boolean b) = false
  is_empty_user_node (number n) = false
  is_empty_user_node (text s) = false

  pub empty_children : Fields → List (String × Bool)
  empty_children no_fields = []
  empty_children (field k v fs) = (k, is_empty_user_node v) ∷ empty_children fs

-- IsEmptyUserResponse, of the decoded body, none for a body that is no JSON
unfoldable pub is_empty_user_response : Option Json → Bool
is_empty_user_response none = false
is_empty_user_response (some root) = is_empty_user_node root
