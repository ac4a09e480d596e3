-- ===== src/Tests/Lists.antt =====
-- Pages of a filtered list.
use remnaguard.Prelude.{
  wrap_int, Option, none, some, ◌≡◌, refl, find, pos, [], ◌∷◌, text_functions, atoi, digits,
  decimal,
}
use remnaguard.Json.{Json, text, array, object, no_items, item, no_fields, field}
use remnaguard.Server.ListFilter.{
  ResponsePage, filter_list_node, keep_items, slice_page, drop_items, take_items, first_filtered,
  set_field,
}
use remnaguard.Server.Response.Pages.{
  panel_response_page, first_positive_int, first_non_negative_int, query_get,
}
use remnaguard.Server.ListFilter.Slices.{Shows}
use remnaguard.Server.ListFilter.Visible.{filter_list_node-Shows}

abbrev users : Json
users = object (
    field "response"
      (object (
        field "users" (array (item (text "u1") (item (text "u2") (item (text "u3") no_items))))
          no_fields))
      no_fields)

abbrev is_text : Json → Option Json
is_text (text s) = some (text s)
is_text _ = none

abbrev second_page : Option ResponsePage
second_page = some (record { start = pos 2; size = 2 })

abbrev shown : Json
shown = object (
    field "response" (object (field "users" (array (item (text "u3") no_items)) no_fields))
      no_fields)

users_filtered : filter_list_node second_page is_text users ≡ some (some shown, 3)
unfolding filter_list_node keep_items slice_page wrap_int drop_items take_items first_filtered
    set_field find
users_filtered = refl

filter_list_node-Shows_example : Shows is_text 3 users shown
filter_list_node-Shows_example =
    filter_list_node-Shows second_page is_text users shown 3 users_filtered

-- The product 4000000000 * 4000000000 is no int64: it wraps around to a negative start, at which a slice panics.
far_page : Option ResponsePage
unfolding panel_response_page first_positive_int first_non_negative_int query_get wrap_int
    text_functions atoi digits decimal find
far_page =
    panel_response_page (some (("page", "4000000001" ∷ []) ∷ ("size", "4000000000" ∷ []) ∷ []))

far_page_panics : filter_list_node far_page is_text users ≡ some (none, 3)
unfolding far_page filter_list_node keep_items slice_page wrap_int first_filtered set_field find
far_page_panics = refl
