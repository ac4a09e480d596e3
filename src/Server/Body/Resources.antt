-- ===== src/Server/Body/Resources.antt =====
-- internal/server/server.go: the resources that a write may name.
use remnaguard.Prelude.{
  String, Bool, not, Option, none, some, List, [], ◌∷◌, ◌&&◌, if◌then◌else◌, ◌==◌, is_empty,
  first_error,
}
use remnaguard.Config.{Constraints, contains}
use remnaguard.Routes.{Route}
use remnaguard.Json.{Json, Fields, get_field}
use remnaguard.Json.Unmarshal.{unmarshal_string, unmarshal_strings}

-- requireAllowedUUID
unfoldable pub require_allowed_uuid : String → List String → String → Option String
require_allowed_uuid uuid allowed reason =
    if uuid == ""
    then some "missing_uuid"
    else if not (contains allowed uuid)
    then some reason
    else none

-- requireAllowedUUIDOrAll
unfoldable pub require_allowed_uuid_or_all : String → List String → Bool → String → Option String
unfolding require_allowed_uuid
require_allowed_uuid_or_all uuid allowed allow_all reason =
    if allow_all
    then if uuid == "" then some "missing_uuid" else none
    else require_allowed_uuid uuid allowed reason

abbrev read_uuid : Option Json → Option String
read_uuid none = none
read_uuid (some raw) = unmarshal_string raw

abbrev pub or_blank : Option String → String
or_blank none = ""
or_blank (some s) = s

abbrev first_text : Option String → Option String → Option String
first_text (some s) later = some s
first_text none later = later

-- objectUUIDFromRaw
unfoldable pub object_uuid_from_raw : Fields → String
object_uuid_from_raw obj =
    or_blank (first_text (read_uuid (get_field "uuid" obj)) (read_uuid (get_field "id" obj)))

-- The loop over the hosts of a bulk update.
unfoldable pub hosts_error : Constraints → List String → Option String
hosts_error c [] = none
hosts_error c (uuid ∷ uuids) =
    first_error (require_allowed_uuid_or_all uuid c.allowed_hosts c.allow_all_hosts "host_denied")
      (hosts_error c uuids)

abbrev error_of_uuids : Constraints → Option (List String) → Option String
error_of_uuids c none = some "invalid_uuids"
error_of_uuids c (some uuids) = if is_empty uuids then some "invalid_uuids" else hosts_error c uuids

abbrev pub bulk_error : Constraints → Option Json → Option String
bulk_error c none = some "missing_uuids"
bulk_error c (some raw) = error_of_uuids c (unmarshal_strings raw)

-- The cases of validateResourceWriteConstraints.
pub data Patched : Type 0 where
  templates internal_squads external_squads profiles hosts bulk_hosts nodes unlisted : Patched

unfoldable pub patched : String → Patched
patched name =
    if name == "patch.subscription_templates"
    then templates
    else if name == "patch.internal_squads"
    then internal_squads
    else if name == "patch.external_squads"
    then external_squads
    else if name == "patch.config_profiles"
    then profiles
    else if name == "patch.hosts"
    then hosts
    else if name == "patch.hosts.bulk.update"
    then bulk_hosts
    else if name == "patch.nodes"
    then nodes
    else unlisted

unfoldable pub patched_error : Patched → Fields → Constraints → Option String
patched_error templates obj c =
    require_allowed_uuid (object_uuid_from_raw obj) c.allowed_subscription_templates
      "subscription_template_denied"
patched_error internal_squads obj c =
    require_allowed_uuid (object_uuid_from_raw obj) c.allowed_writable_internal_squads
      "internal_squad_denied"
patched_error external_squads obj c =
    require_allowed_uuid (object_uuid_from_raw obj) c.allowed_writable_external_squads
      "external_squad_denied"
patched_error profiles obj c =
    require_allowed_uuid_or_all (object_uuid_from_raw obj) c.allowed_config_profiles
      c.allow_all_config_profiles "config_profile_denied"
patched_error hosts obj c =
    require_allowed_uuid_or_all (object_uuid_from_raw obj) c.allowed_hosts c.allow_all_hosts
      "host_denied"
patched_error bulk_hosts obj c = bulk_error c (get_field "uuids" obj)
patched_error nodes obj c =
    require_allowed_uuid_or_all (object_uuid_from_raw obj) c.allowed_nodes c.allow_all_nodes
      "node_denied"
patched_error unlisted obj c = none

-- validateResourceWriteConstraints
unfoldable pub validate_resource_write_constraints : Fields → Route → Constraints → Option String
validate_resource_write_constraints obj route c =
    if not (route.method == "PATCH") then none else patched_error (patched route.name) obj c

-- validateResourceCreateConstraints
unfoldable pub validate_resource_create_constraints : Route → Constraints → Option String
validate_resource_create_constraints route c =
    if not (route.method == "POST")
    then none
    else if route.name == "post.config_profiles" && not c.allow_all_config_profiles
    then some "config_profile_denied"
    else if route.name == "post.hosts" && not c.allow_all_hosts
    then some "host_denied"
    else if route.name == "post.nodes" && not c.allow_all_nodes
    then some "node_denied"
    else none
