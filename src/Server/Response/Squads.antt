-- ===== src/Server/Response/Squads.antt =====
-- internal/server/server.go: what is removed from the squads and the counts of a response.
use remnaguard.Prelude.{
  String, Bool, not, Option, none, some, List, [], ◌∷◌, if◌then◌else◌, ◌==◌, find,
}
use remnaguard.Config.{contains}
use remnaguard.Json.{
  Json, null, boolean, number, text, array, object, Fields, no_fields, field, get_field,
}
use remnaguard.Remnawave.Decode.{string_of}
use remnaguard.Server.ListFilter.{set_field}

abbrev pub uuid_of : Fields → String
uuid_of obj = string_of (get_field "uuid" obj)

-- objectUUID
unfoldable pub object_uuid : Json → String
object_uuid (object obj) = uuid_of obj
object_uuid _ = ""

-- The loops that delete keys of an object: those that stay.
unfoldable pub keep_fields : (String → Bool) → Fields → Fields
keep_fields stays no_fields = no_fields
keep_fields stays (field k v fs) =
    let rest = keep_fields stays fs in if stays k then field k v rest else rest

abbrev pub squad_keys : List String
squad_keys = "uuid" ∷ "name" ∷ "viewPosition" ∷ []

-- sanitizeSquadObject, of an object
unfoldable pub sanitize_squad_object : Fields → Fields
sanitize_squad_object obj = keep_fields (contains squad_keys) obj

abbrev pub inbound_keys : List String
inbound_keys = "rawInbound" ∷ "rawInbounds" ∷ "raw_inbound" ∷ "raw_inbounds" ∷ []

-- sanitizeSquadListObject
unfoldable pub sanitize_squad_list_object : Json → Json
sanitize_squad_list_object (object obj) =
    object (keep_fields (λ k. not (contains inbound_keys k)) obj)
sanitize_squad_list_object v = v

abbrev pub squad_children : List String
squad_children = "response" ∷ "squad" ∷ "internalSquad" ∷ "externalSquad" ∷ []

abbrev pub or_child :
    String → Option (Option Json) → Option (String × Json) → Option (String × Json)
or_child key (some (some v)) later = some (key, v)
or_child key _ later = later

-- The loop over the keys: the first child in which a squad was found, with what became of it.
unfoldable pub first_squad : List String → List (String × Option Json) → Option (String × Json)
first_squad [] children = none
first_squad (key ∷ keys) children = or_child key (find key children) (first_squad keys children)

abbrev pub with_child : Fields → Option (String × Json) → Option Json
with_child obj none = none
with_child obj (some (key, v)) = some (object (set_field key v obj))

unfoldable mutual
  -- sanitizeSquadNode: what becomes of the node, none for false
  pub sanitize_squad_node : Json → Option Json
  sanitize_squad_node (object obj) =
      if not (uuid_of obj == "")
      then some (object (sanitize_squad_object obj))
      else with_child obj (first_squad squad_children (sanitize_children obj))
  sanitize_squad_node null = none
  sanitize_squad_node (boolean b) = none
  sanitize_squad_node (number n) = none
  sanitize_squad_node (text s) = none
  sanitize_squad_node (array items) = none

  pub sanitize_children : Fields → List (String × Option Json)
  sanitize_children no_fields = []
  sanitize_children (field k v fs) = (k, sanitize_squad_node v) ∷ sanitize_children fs

abbrev pub count_keys : List String
count_keys =
    "total" ∷ "count" ∷ "totalItems" ∷ "total_items" ∷ "recordsTotal" ∷ "records_total" ∷ []

abbrev pub count_children : List String
count_children = "response" ∷ "meta" ∷ "pagination" ∷ []

unfoldable mutual
  -- redactCountMetadata, with the count as the number that is written
  pub redact_count_metadata : String → Json → Json
  redact_count_metadata visible (object obj) = object (redact_fields visible obj)
  redact_count_metadata visible null = null
  redact_count_metadata visible (boolean b) = boolean b
  redact_count_metadata visible (number n) = number n
  redact_count_metadata visible (text s) = text s
  redact_count_metadata visible (array items) = array items

  pub redact_fields : String → Fields → Fields
  redact_fields visible no_fields = no_fields
  redact_fields visible (field k v fs) =
      field k
        (if contains count_keys k
          then number visible
          else if contains count_children k
          then redact_count_metadata visible v
          else v)
        (redact_fields visible fs)
