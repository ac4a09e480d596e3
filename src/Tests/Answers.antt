-- ===== src/Tests/Answers.antt =====
-- Answers of the upstream that the policies let pass, and the version guard.
use remnaguard.Prelude.{some, [], ◌≡◌, refl, find, without}
use remnaguard.Config.{contains}
use remnaguard.Header.{header_del}
use remnaguard.Json.{Json, text, array, object, no_items, no_fields, field, get_field}
use remnaguard.Json.Policy.{decoded, decode_object_no_duplicate_keys, has_duplicate}
use remnaguard.Proxy.{Response}
use remnaguard.Routes.{Route}
use remnaguard.Server.Request.{ok}
use remnaguard.Server.ListFilter.{set_field}
use remnaguard.Server.Response.Squads.{
  sanitize_squad_node, sanitize_squad_object, keep_fields, first_squad,
}
use remnaguard.Server.Response.Policy.{redact_squad_response}
use remnaguard.Server.Response.Redacted.{Redacted, redact_squad_response-Redacted}
use remnaguard.Tests.Gateway.{env, change, open_update}

abbrev read_user : Route
read_user = record open_update { name = "user.read.uuid"; method = "GET" }

abbrev list_users : Route
list_users = record open_update { name = "user.list"; method = "GET" }

abbrev one_user : Response
one_user = record { status_code = 200; header = []; body = "U" }

abbrev some_users : Response
some_users = record { status_code = 200; header = []; body = "L" }

abbrev squad : Json
squad = object (
    field "response"
      (object (field "uuid" (text "s1") (field "inbounds" (array no_items) no_fields))) no_fields)

squad_redacted : redact_squad_response env one_user (some squad) ≡ ok one_user
unfolding redact_squad_response sanitize_squad_node sanitize_squad_object keep_fields first_squad
    set_field get_field find contains header_del without
squad_redacted = refl

redact_squad_response-Redacted_example :
    (w : Json) × (one_user.body ≡ env.write_json w) × Redacted w
redact_squad_response-Redacted_example =
    redact_squad_response-Redacted env one_user one_user (some squad) squad_redacted

change_decoded : decode_object_no_duplicate_keys (some (object change)) ≡ decoded change
unfolding decode_object_no_duplicate_keys has_duplicate contains
change_decoded = refl
