-- ===== src/Server/ListFilter.antt =====
-- internal/server/server.go: filterListNodePaged and slicePage, on decoded values. The int is Go's on a 64-bit
-- platform; none stands for the panic of a slice whose bounds are out of range.
use remnaguard.Prelude.{
  wrap_int, ℕ, zero, suc, ◌+◌, ◌-◌, ◌%◌, ◌≤◌, ltb, ℤ, pos, negsuc, String, Bool, true, false,
  Option, none, some, List, [], ◌∷◌, if◌then◌else◌, ◌==◌, ◌≡◌, refl, ap, subst, ◌∙◌, arith, eq_iff,
  eq_refl, leb, nat_eq, find, Bool-cases, inl, inr,
}
use remnaguard.Json.{
  Json, null, boolean, number, text, array, object, Items, no_items, item, Fields, no_fields, field,
  get_field,
}
use Prim.Native.Nat.{◌^◌}
pub mod Slices
pub mod Visible

pub record ResponsePage : Type 0 where
  pub start : ℤ
  pub size : ℕ

abbrev pub items_length : Items → ℕ
items_length no_items = 0
items_length (item v vs) = suc (items_length vs)

unfoldable pub drop_items : ℕ → Items → Items
drop_items zero items = items
drop_items (suc n) no_items = no_items
drop_items (suc n) (item v vs) = drop_items n vs

unfoldable pub take_items : ℕ → Items → Items
take_items zero items = no_items
take_items (suc n) no_items = no_items
take_items (suc n) (item v vs) = item v (take_items n vs)

-- items[start:end], for a start within the list and an end that is cut to its length
abbrev pub slice_to : ℕ → ℕ → ℤ → Items → Option Items
slice_to start size (pos end) items = some (take_items size (drop_items start items))
slice_to start size (negsuc end) items = none

abbrev pub slice_from : ℤ → ℕ → Items → Option Items
slice_from (pos start) size items =
    if leb (items_length items) start
    then some no_items
    else slice_to start size (wrap_int (start + size)) items
slice_from (negsuc start) size items = none

-- slicePage, where none is a nil page
unfoldable pub slice_page : Option ResponsePage → Items → Option Items
unfolding wrap_int
slice_page none items = some items
slice_page (some page) items =
    if nat_eq page.size 0 then some items else slice_from page.start page.size items

abbrev pub and_item : Option Json → Items → Items
and_item none items = items
and_item (some v) items = item v items

-- The loop over a list, of a test that also tells what it makes of an item that it keeps.
unfoldable pub keep_items : (Json → Option Json) → Items → Items
keep_items keep no_items = no_items
keep_items keep (item v vs) = let rest = keep_items keep vs in and_item (keep v) rest

-- obj[key] = value, for a key that the object has
unfoldable pub set_field : String → Json → Fields → Fields
set_field key value no_fields = no_fields
set_field key value (field k v fs) =
    let rest = set_field key value fs in if k == key then field k value fs else field k v rest

abbrev pub list_keys : List String
list_keys =
    "response" ∷ "users" ∷ "internalSquads" ∷ "externalSquads" ∷ "subscriptionPageConfigs"
    ∷ "subscription_page_configs" ∷ "configs" ∷ "items" ∷ "data" ∷ []

-- What filterListNodePaged gives: the value, none for a panic, and the count.
abbrev pub Listed : Type 0
Listed = Option Json × ℕ

abbrev pub listed : Option Items → Option Json
listed none = none
listed (some items) = some (array items)

-- The key of the first child that could be filtered, with what that gave.
abbrev pub or_later :
    String → Option (Option Listed) → Option (String × Listed) → Option (String × Listed)
or_later key (some (some out)) later = some (key, out)
or_later key _ later = later

unfoldable pub first_filtered :
    List String → List (String × Option Listed) → Option (String × Listed)
first_filtered [] children = none
first_filtered (key ∷ keys) children =
    or_later key (find key children) (first_filtered keys children)

abbrev pub put_in : Fields → String → Option Json → Option Json
put_in fs key none = none
put_in fs key (some v) = some (object (set_field key v fs))

abbrev pub put_back : Fields → Option (String × Listed) → Option Listed
put_back fs none = none
put_back fs (some (key, (v, n))) = some (put_in fs key v, n)

module _ (page : Option ResponsePage) (keep : Json → Option Json) where
  unfoldable mutual
    -- filterListNodePaged, none for false
    pub filter_list_node : Json → Option Listed
    filter_list_node (array items) =
        let out = keep_items keep items in some (listed (slice_page page out), items_length out)
    filter_list_node (object fs) = put_back fs (first_filtered list_keys (filter_children fs))
    filter_list_node null = none
    filter_list_node (boolean b) = none
    filter_list_node (number n) = none
    filter_list_node (text s) = none

    pub filter_children : Fields → List (String × Option Listed)
    filter_children no_fields = []
    filter_children (field k v fs) = (k, filter_list_node v) ∷ filter_children fs
