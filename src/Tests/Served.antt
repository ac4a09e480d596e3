-- ===== src/Tests/Served.antt =====
-- A change of a user through the gateway.
use remnaguard.Prelude.{true, false, none, ◌≡◌, ◌⊎◌, refl, text_functions, find, store, without}
use remnaguard.Config.{contains}
use remnaguard.Header.{header_get, header_del, header_set, header_values}
use remnaguard.Httputil.Strip.{strip_hop_by_hop}
use remnaguard.Json.{get_field}
use remnaguard.Json.Unmarshal.{unmarshal_string}
use remnaguard.Json.Policy.{
  decode_object_no_duplicate_keys, has_duplicate, all_allowed, validate_fields,
}
use remnaguard.Proxy.{round_trip, outbound_header, read_limited, set_all, filter_headers}
use remnaguard.Policy.Decide.{has_privileged_scope}
use remnaguard.Remnawave.Decode.{
  decode_user, collect_users, parse_user_object, first_users, squad_refs, item_refs,
  parse_squad_ref, first_string, string_field, int64_field,
}
use remnaguard.Remnawave.Owns.{
  owns_user, constraints_error, validate_username, validate_email, validate_telegram_id,
  squads_error, squads_allowed, page_config_error,
}
use remnaguard.Server.Effective.{is_policy_enforced, is_restricted_write}
use remnaguard.Server.Request.{request_body_bytes}
use remnaguard.Server.Body.Policy.{
  validate_body_policy, object_error, validate_token_request_fields, required_boolean_error,
  body_string, last_field,
}
use remnaguard.Server.Body.Values.{
  validate_user_constraints, username_error, email_error, id_error, description_error,
  traffic_error, internal_squads_error, allowed_error, first_member_error,
  validate_squad_body_fields, validate_subscription_page_config,
}
use remnaguard.Server.Body.Resources.{
  validate_resource_write_constraints, validate_resource_create_constraints, patched, patched_error,
}
use remnaguard.Server.Body.Users.{IsUserBody, validate_user_constraints-IsUserBody}
use remnaguard.Server.Handler.World.{with_upstream}
use remnaguard.Server.Handler.Preflight.{
  preflight, preflight_check, preflight_user, preflight_request, post_write_verify,
  post_write_check,
}
use remnaguard.Server.Handler.Listing.{handle_panel_restricted_user_list, panel_upstream_raw_query}
use remnaguard.Server.Handler.Api.{checked_write, forward, api_handler}
use remnaguard.Server.Handler.Checked.{is_written, checked_write-Passed}
use remnaguard.Server.Handler.Preflighted.{IsPreflighted}
use remnaguard.Server.Handler.Authorised.{IsAuthorised, api_handler-IsAuthorised}
use remnaguard.Server.Handler.Frees.{Freed}
use remnaguard.Server.Handler.Released.{api_handler-Freed}
use remnaguard.Server.Response.Policy.{
  enforce_response_policy, filter_response_policy, read_of, listing_of, enforced, filtered,
}
use remnaguard.Tests.Gateway.{env, state, world, change, change_request, open_update, no_login}
use remnaguard.Tests.Samples.{key_of}
use remnaguard.Tests.Owners.{squad_shop}

change_kept : validate_user_constraints env.matches_regex change squad_shop.constraints ≡ none
unfolding validate_user_constraints username_error email_error id_error description_error
    traffic_error internal_squads_error allowed_error first_member_error validate_squad_body_fields
    validate_subscription_page_config unmarshal_string get_field validate_username text_functions
    contains
change_kept = refl

validate_user_constraints-IsUserBody_example :
    IsUserBody env.matches_regex squad_shop.constraints change
validate_user_constraints-IsUserBody_example =
    validate_user_constraints-IsUserBody env.matches_regex squad_shop.constraints change change_kept

change_written :
    is_written
      (checked_write env state open_update "/api/users" "" squad_shop
        (key_of "new" "d1" false)
        change_request
        world).1
    ≡ true
unfolding has_privileged_scope preflight preflight_check preflight_user preflight_request
    with_upstream round_trip outbound_header read_limited set_all filter_headers strip_hop_by_hop
    header_del header_set header_values header_get find store without decode_user collect_users
    parse_user_object first_users squad_refs item_refs parse_squad_ref first_string string_field
    int64_field owns_user constraints_error validate_username validate_email validate_telegram_id
    squads_error squads_allowed page_config_error body_string last_field forward
    handle_panel_restricted_user_list panel_upstream_raw_query post_write_verify post_write_check
    enforce_response_policy filter_response_policy read_of listing_of enforced filtered
    is_restricted_write validate_body_policy object_error validate_token_request_fields
    required_boolean_error validate_user_constraints username_error email_error id_error
    description_error traffic_error internal_squads_error allowed_error first_member_error
    validate_squad_body_fields validate_subscription_page_config unmarshal_string get_field
    text_functions contains validate_resource_write_constraints validate_resource_create_constraints
    patched patched_error decode_object_no_duplicate_keys has_duplicate all_allowed validate_fields
    request_body_bytes
change_written = refl

checked_write-Passed_example :
    (validate_body_policy env change_request state.cfg open_update squad_shop ≡ none)
    × (is_policy_enforced open_update.support ≡ true
        → IsPreflighted env state change_request world.sent open_update "/api/users" squad_shop)
checked_write-Passed_example =
    checked_write-Passed env state change_request open_update "/api/users" "" squad_shop
      (key_of "new" "d1" false) world change_written

api_handler-IsAuthorised_example :
    ((api_handler env state no_login change_request world).0.sent ≡ world.sent)
    ⊎ IsAuthorised env state change_request.raw
api_handler-IsAuthorised_example = api_handler-IsAuthorised env state no_login change_request world

api_handler-Freed_example : Freed world.limits (api_handler env state no_login change_request world)
api_handler-Freed_example =
    api_handler-Freed env state (λ s. (true, refl)) no_login change_request world
