-- ===== src/Server/Handler/Listing.antt =====
-- internal/server/server.go: handlePanelRestrictedUserList, the users that a panel's actor sees. The request
-- is taken to have no body, which the first of several upstream requests would consume.
use remnaguard.Prelude.{
  ℕ, zero, suc, ◌+◌, String, false, not, Option, none, some, List, [], ◌∷◌, ◌||◌, if◌then◌else◌,
  ◌==◌, ltb, store, without, ℤ, pos, lebℤ, atoi,
}
use remnaguard.Config.{TokenPolicy, Credential}
use remnaguard.Header.{Header}
use remnaguard.Json.{
  Json, number, array, object, Items, no_items, item, Fields, no_fields, field, get_field,
}
use remnaguard.Routes.{Route}
use remnaguard.Policy.Decide.{has_privileged_scope}
use remnaguard.Proxy.{Response, RoundTripResult, answered, failed}
use remnaguard.Server.ListFilter.{ResponsePage, items_length}
use remnaguard.Server.Env.{Env}
use remnaguard.Server.Request.{Request, Outcome, ok, err}
use remnaguard.Server.Response.Policy.{is_success, filter_response_policy}
use remnaguard.Server.Response.Pages.{panel_response_page}
use remnaguard.Server.Handler.World.{
  Handler, RuntimeState, written, no_reply, aborted, reply, deny, with_upstream,
}
use remnaguard.Server.Handler.Panel.{is_panel, disable_panel_cache_headers}

abbrev values_or_none : Option (List (String × List String)) → List (String × List String)
values_or_none none = []
values_or_none (some values) = values

abbrev without_pages : List (String × List String) → List (String × List String)
without_pages values = without "limit" (without "page" (without "offset" values))

-- panelUserListPageQuery
unfoldable pub panel_user_list_page_query : Env → String → ℕ → ℕ → String
panel_user_list_page_query env raw_query start size =
    let values = values_or_none (env.parse_query raw_query) in
    env.encode_query (
      without_pages
        (store "size" (env.itoa size ∷ []) (store "start" (env.itoa start ∷ []) values)))

-- panelResponsePage
unfoldable pub page_of : Env → Request → String → Option ResponsePage
unfolding panel_response_page
page_of env r raw_query =
    if is_panel r then panel_response_page (env.parse_query raw_query) else none

abbrev total_or : ℤ → Option Json → ℤ
total_or total (some (number n)) = elim (atoi n) [ none ↦ total | some parsed ↦ parsed ]
total_or total _ = total

abbrev page_in : Fields → Option Json → Option (Items × ℤ)
page_in response (some (array users)) =
    some (users, total_or (pos (items_length users)) (get_field "total" response))
page_in response _ = none

abbrev response_in : Option Json → Option (Items × ℤ)
response_in (some (object response)) = page_in response (get_field "users" response)
response_in _ = none

-- decodeUserListPage, of the decoded body; none for an error
unfoldable pub decode_user_list_page : Option Json → Option (Items × ℤ)
decode_user_list_page (some (object root)) = response_in (get_field "response" root)
decode_user_list_page _ = none

unfoldable pub append_items : Items → Items → Items
append_items no_items more = more
append_items (item v vs) more = item v (append_items vs more)

-- The body that the combined users are written as.
abbrev pub combined_root : String → Items → Json
combined_root total users = object (
    field "response" (object (field "users" (array users) (field "total" (number total) no_fields)))
      no_fields)

abbrev pub or_first : Option Header → Header → Header
or_first none h = h
or_first (some h) later = h

module _ (env : Env) (st : RuntimeState) (r : Request) (route : Route) (path : String)
    (raw_query : String) (tok : TokenPolicy) (cred : Credential) where
  abbrev pub refuse : String → ℕ → Handler
  refuse reason status = deny route.name tok.id cred.id reason status

  abbrev pub write_list : Outcome Response → Handler
  write_list (err e) = refuse e 502
  write_list (ok res) =
      reply (written false (record res { header = disable_panel_cache_headers res.header }))

  abbrev pub write_filtered : Option (Outcome Response) → Handler
  write_filtered none = reply aborted
  write_filtered (some o) = write_list o

  -- What follows the loop.
  unfoldable pub finish_list : Items → Header → Handler
  unfolding filter_response_policy page_of
  finish_list combined header =
      let body = env.write_json (combined_root (env.itoa (items_length combined)) combined) in
      let res : Response = record { status_code = 200; header = header; body = body } in
      write_filtered (filter_response_policy env route tok res (page_of env r raw_query))

  -- The end of a turn of the loop: another one, or none.
  abbrev pub next_page :
      (ℕ → Items → Header → Handler) → ℕ → Items → Header → Option (Items × ℤ) → Handler
  next_page again start combined header none = refuse "unfilterable_list_response" 502
  next_page again start combined header (some (users, total)) =
      let all = append_items combined users in
      if ltb (items_length users) 1000 || lebℤ total (pos (start + 1000))
      then finish_list all header
      else again (start + 1000) all header

  abbrev pub after_page :
      (ℕ → Items → Header → Handler) → ℕ → Items → Option Header → RoundTripResult → Handler
  after_page again start combined first (failed e) = refuse "upstream_unavailable" 502
  after_page again start combined first (answered res) =
      if not (is_success res.status_code)
      then reply (written false res)
      else next_page again start combined (or_first first res.header)
          (decode_user_list_page (env.decoded_value res.body))

  abbrev pub header_or_none : Option Header → Header
  header_or_none none = []
  header_or_none (some h) = h

  -- The loop, on fuel; where that is out, nothing is replied.
  unfoldable pub scan_pages : ℕ → ℕ → Items → Option Header → Handler
  unfolding with_upstream panel_user_list_page_query decode_user_list_page append_items finish_list
  scan_pages zero start combined first = reply no_reply
  scan_pages (suc fuel) start combined first =
      if ltb start 20000
      then with_upstream env st.proxy r path (panel_user_list_page_query env raw_query start 1000)
          false
          (after_page (λ next all header. scan_pages fuel next all (some header)) start combined
            first)
      else finish_list combined (header_or_none first)

  -- handlePanelRestrictedUserList; `served` goes on where it is false
  unfoldable pub handle_panel_restricted_user_list : Handler → Handler
  handle_panel_restricted_user_list served =
      if not (is_panel r) || not (route.name == "user.list") || has_privileged_scope tok.scopes
      then served
      else scan_pages 21 0 no_items none

-- panelUpstreamRawQuery
unfoldable pub panel_upstream_raw_query : Env → Request → Route → TokenPolicy → String → String
unfolding panel_user_list_page_query
panel_upstream_raw_query env r route tok raw_query =
    if not (is_panel r) || not (route.name == "user.list") || has_privileged_scope tok.scopes
    then raw_query
    else elim (env.parse_query raw_query) [
      | none ↦ raw_query
      | some values ↦ panel_user_list_page_query env raw_query 0 1000
    ]
