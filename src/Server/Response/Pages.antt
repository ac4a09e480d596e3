-- ===== src/Server/Response/Pages.antt =====
-- internal/server/server.go: the subscription page configurations that a response may hold, and the page of a
-- list that the panel asks for.
use remnaguard.Prelude.{
  wrap_int, ℕ, ◌*◌, ◌-◌, String, Bool, true, false, not, Option, none, some, List, [], ◌∷◌, ◌&&◌,
  ◌||◌, if◌then◌else◌, ◌==◌, any, is_empty, ltb, nat_eq, find, trim_space, ℤ, pos, atoi,
}
use remnaguard.Config.{contains}
use remnaguard.Json.{
  Json, null, boolean, number, text, array, object, Items, no_items, item, Fields, no_fields, field,
  get_field,
}
use remnaguard.Server.ListFilter.{ResponsePage}
use remnaguard.Server.Response.Squads.{uuid_of}

-- subscriptionPageConfigAllowed, by the allowed configurations
unfoldable pub subscription_page_config_allowed : List String → String → Bool
subscription_page_config_allowed allowed uuid =
    if is_empty allowed then true else not (uuid == "") && contains allowed uuid

abbrev pub page_keys : List String
page_keys =
    "subscriptionPageConfigUuid" ∷ "subscriptionPageConfigUUID" ∷ "subscription_page_config_uuid"
    ∷ "uuid" ∷ []

abbrev pub page_children : List String
page_children =
    "response" ∷ "config" ∷ "subscriptionPageConfig" ∷ "subscription_page_config" ∷ "subpageConfig"
    ∷ "subpage_config" ∷ []

abbrev text_allowed : List String → Option Json → Bool
text_allowed allowed (some (text s)) = subscription_page_config_allowed allowed s
text_allowed allowed _ = false

-- Whether an object names an allowed configuration itself.
abbrev pub names_allowed : List String → Fields → Bool
names_allowed allowed obj =
    subscription_page_config_allowed allowed (uuid_of obj)
    || any (λ key. text_allowed allowed (get_field key obj)) page_keys

unfoldable mutual
  -- subscriptionPageConfigNodeAllowed
  pub subscription_page_config_node_allowed : List String → Json → Bool
  subscription_page_config_node_allowed allowed (object obj) =
      names_allowed allowed obj || page_child_allowed allowed obj
  subscription_page_config_node_allowed allowed (array items) = page_item_allowed allowed items
  subscription_page_config_node_allowed allowed null = false
  subscription_page_config_node_allowed allowed (boolean b) = false
  subscription_page_config_node_allowed allowed (number n) = false
  subscription_page_config_node_allowed allowed (text s) = false

  pub page_child_allowed : List String → Fields → Bool
  page_child_allowed allowed no_fields = false
  page_child_allowed allowed (field k v fs) =
      (contains page_children k && subscription_page_config_node_allowed allowed v)
      || page_child_allowed allowed fs

  pub page_item_allowed : List String → Items → Bool
  page_item_allowed allowed no_items = false
  page_item_allowed allowed (item v vs) =
      subscription_page_config_node_allowed allowed v || page_item_allowed allowed vs

abbrev first_text : Option (List String) → String
first_text (some (s ∷ ss)) = s
first_text _ = ""

-- values.Get
unfoldable pub query_get : List (String × List String) → String → String
query_get values key = first_text (find key values)

abbrev positive_or : ℕ → Option ℤ → ℕ
positive_or later (some (pos n)) = if nat_eq n 0 then later else n
positive_or later _ = later

-- firstPositiveInt
unfoldable pub first_positive_int : List (String × List String) → List String → ℕ
first_positive_int values [] = 0
first_positive_int values (key ∷ keys) =
    let value = trim_space (query_get values key) in
    let later = first_positive_int values keys in
    if value == "" then later else positive_or later (atoi value)

abbrev natural_or : ℕ → Option ℤ → ℕ
natural_or later (some (pos n)) = n
natural_or later _ = later

-- firstNonNegativeInt
unfoldable pub first_non_negative_int : List (String × List String) → List String → ℕ
first_non_negative_int values [] = 0
first_non_negative_int values (key ∷ keys) =
    let value = trim_space (query_get values key) in
    let later = first_non_negative_int values keys in
    if value == "" then later else natural_or later (atoi value)

-- panelResponsePage, of the parsed query of a request with a panel's audit context
unfoldable pub panel_response_page : Option (List (String × List String)) → Option ResponsePage
unfolding wrap_int
panel_response_page none = none
panel_response_page (some values) =
    let size = first_positive_int values ("size" ∷ "limit" ∷ []) in
    let start = first_non_negative_int values ("start" ∷ "offset" ∷ []) in
    let page = first_positive_int values ("page" ∷ []) in
    if nat_eq size 0
    then none
    else some (record {
      start = if nat_eq start 0 && ltb 1 page then wrap_int ((page - 1) * size) else pos start;
      size = size;
    })
