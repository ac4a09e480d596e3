-- ===== src/Tests/Paged.antt =====
-- A panel's list of users through the gateway, from an upstream that serves two.
use remnaguard.Prelude.{
  ℕ, ◌%◌, ◌<◌, false, some, [], ◌≡◌, ◌⊎◌, inl, inr, refl, sym, subst, arith, pos,
}
use remnaguard.Config.{contains}
use remnaguard.Json.{Items, text, no_items, item}
use remnaguard.Json.{get_field}
use remnaguard.Policy.Decide.{has_privileged_scope}
use remnaguard.Proxy.{Response, answered, round_trip, read_limited}
use remnaguard.Routes.{Route}
use remnaguard.Server.Env.{Env}
use remnaguard.Server.ListFilter.{take_items, drop_items, items_length}
use remnaguard.Server.Request.{Request}
use remnaguard.Server.Handler.Listing.{handle_panel_restricted_user_list, decode_user_list_page}
use remnaguard.Server.Handler.World.{reply, bad_gateway}
use remnaguard.Server.Handler.Pages.{pages_from}
use remnaguard.Server.Handler.Turns.{Serves, Gathers}
use remnaguard.Server.Handler.Gathered.{handle_panel_restricted_user_list-Gathers}
use remnaguard.Tests.Gateway.{env, state, world, change_request, open_update}
use remnaguard.Tests.Owners.{squad_shop, body}
use remnaguard.Tests.Samples.{key_of}

abbrev page : ℕ → Response
page start = record { status_code = 200; header = []; body = "L" }

abbrev list_env : Env
list_env = record env { send = λ sent request. answered (page 0) }

abbrev two_users : Items
two_users = item body (item (text "other") no_items)

abbrev panel_request : Request
panel_request = record change_request {
  audit = some (record {
    actor_type = "telegram";
    actor_id = "7";
    credential_id = "new";
    display_name = "Ann";
    auth_event_type = "";
  });
}

abbrev list_users : Route
list_users = record open_update { name = "user.list"; method = "GET" }

first_page :
    decode_user_list_page (list_env.decoded_value "L")
    ≡ some (take_items 1000 (drop_items 0 two_users), pos 2)
unfolding decode_user_list_page take_items drop_items get_field
first_page = refl

starts_at_zero : (start : ℕ) → start % 1000 ≡ 0 → (start ≡ 0) ⊎ (start < 2) → start ≡ 0
starts_at_zero start whole reached = elim reached [ inl e ↦ e | inr h ↦ omega (arith, whole, h) ]

serves :
    Serves list_env state panel_request list_users "/api/users" "" squad_shop
      (key_of "new" "d1" false)
      two_users
      page
unfolding round_trip read_limited
serves = record {
  answer = λ w start whole reached. (
    refl,
    refl,
    subst
        (λ s.
          decode_user_list_page (list_env.decoded_value "L")
          ≡ some (take_items 1000 (drop_items s two_users), pos 2))
        (sym (starts_at_zero start whole reached)) first_page,
  );
}

shop_plain : has_privileged_scope squad_shop.scopes ≡ false
unfolding has_privileged_scope contains
shop_plain = refl

handle_panel_restricted_user_list-Gathers_example :
    Gathers list_env state panel_request list_users "/api/users" "" squad_shop
      (key_of "new" "d1" false)
      (pages_from 0 (items_length (take_items 20000 two_users)))
      (take_items 20000 two_users)
      []
      world
      (handle_panel_restricted_user_list list_env state panel_request list_users "/api/users" ""
        squad_shop
        (key_of "new" "d1" false)
        (reply bad_gateway)
        world)
handle_panel_restricted_user_list-Gathers_example =
    handle_panel_restricted_user_list-Gathers list_env state panel_request list_users "/api/users"
      "" squad_shop (key_of "new" "d1" false) two_users page serves (reply bad_gateway) world refl
      refl shop_plain
