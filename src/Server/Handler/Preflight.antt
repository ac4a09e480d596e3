-- ===== src/Server/Handler/Preflight.antt =====
-- internal/server/server.go: preflight, preflightUser, postWriteVerify and lockKey.
use remnaguard.Prelude.{
  String, false, not, Option, none, some, List, [], ◌∷◌, ◌&&◌, ◌||◌, if◌then◌else◌, ◌==◌, ◌+++◌,
  is_empty, pos,
}
use remnaguard.Config.{TokenPolicy, contains}
use remnaguard.Header.{header_del}
use remnaguard.Routes.{Route}
use remnaguard.Proxy.{Response, RoundTripResult, answered, failed}
use remnaguard.Server.Effective.{is_policy_enforced, is_restricted_write}
use remnaguard.Server.Env.{Env}
use remnaguard.Server.Request.{Request, no_body, path_segment, route_target}
use remnaguard.Server.Body.Policy.{body_string}
use remnaguard.Server.Body.Resources.{require_allowed_uuid_or_all}
use remnaguard.Server.Response.Policy.{is_success, user_in, error_of_owner}
use remnaguard.Server.Handler.World.{Handler, RuntimeState, with_upstream}

-- What preflight and postWriteVerify decide on: an error or none, or the user with a UUID.
pub data Check : Type 0 where
  checked : Option String → Check
  check_user : String → Check

abbrev pub action_names : List String
action_names =
    "user.actions.disable" ∷ "user.actions.enable" ∷ "user.actions.reset_traffic"
    ∷ "user.actions.revoke" ∷ []

abbrev pub hwid_write_names : List String
hwid_write_names = "hwid.create" ∷ "hwid.delete" ∷ "hwid.delete_all" ∷ []

abbrev pub node_action_names : List String
node_action_names =
    "post.nodes.uuid.actions.disable" ∷ "post.nodes.uuid.actions.enable"
    ∷ "post.nodes.uuid.actions.restart" ∷ "post.nodes.uuid.actions.reset_traffic" ∷ []

-- The user that a body names.
abbrev pub named_user : String → Check
named_user uuid = if uuid == "" then checked (some "missing_user_uuid") else check_user uuid

abbrev pub unless_allowed : List String → String → String → Check
unless_allowed allowed id reason =
    checked (if not (is_empty allowed) && not (contains allowed id) then some reason else none)

-- The switch of preflight.
unfoldable pub preflight_check : Env → Request → Route → String → TokenPolicy → Check
preflight_check env r route path tok =
    let c = tok.constraints in
    if route.name == "hwid.list"
    then check_user (path_segment path 3)
    else if route.name == "user.update"
    then named_user (body_string env r "uuid")
    else if contains action_names route.name
    then check_user (path_segment path 2)
    else if contains hwid_write_names route.name
    then named_user (body_string env r "userUuid")
    else if contains node_action_names route.name
    then checked (
        require_allowed_uuid_or_all (path_segment path 2) c.allowed_nodes c.allow_all_nodes
          "node_denied")
    else if route.name == "squad.internal.read"
    then unless_allowed c.allowed_internal_squads (path_segment path 2) "internal_squad_denied"
    else if route.name == "squad.external.read"
    then unless_allowed c.allowed_external_squads (path_segment path 2) "external_squad_denied"
    else checked none

-- The switch of postWriteVerify.
unfoldable pub post_write_check : Env → Request → Route → TokenPolicy → Response → Check
post_write_check env r route tok res =
    if route.name == "user.create"
    then checked (elim (user_in env (env.decoded_value res.body)) [
      | none ↦ some "post_write_unverifiable"
      | some user ↦ error_of_owner env tok (some user)
    ])
    else if route.name == "user.update"
    then check_user (body_string env r "uuid")
    else if contains action_names route.name
    then check_user (path_segment (route_target r) 2)
    else if contains hwid_write_names route.name
    then check_user (body_string env r "userUuid")
    else checked none

-- The request of preflightUser, a copy of the client's.
unfoldable pub preflight_request : Request → Request
preflight_request r = record r {
  raw = record r.raw { method = "GET"; header = header_del "Content-Type" r.raw.header };
  body = no_body;
  content_length = pos 0;
}

-- lockKey
unfoldable pub lock_key : Env → Request → Route → String → String
lock_key env r route path =
    if route.name == "user.create"
    then "user:create:" +++ body_string env r "username"
    else if contains ("user.update" ∷ hwid_write_names) route.name
    then route.name +++ ":" +++ body_string env r "uuid" +++ ":" +++ body_string env r "userUuid"
    else route.name +++ ":" +++ path

module _ (env : Env) (st : RuntimeState) where
  -- What preflightUser makes of the answer.
  abbrev pub preflight_error : TokenPolicy → RoundTripResult → Option String
  preflight_error tok (failed e) = some "preflight_failed"
  preflight_error tok (answered res) =
      if not (is_success res.status_code)
      then some "preflight_denied"
      else error_of_owner env tok (user_in env (env.decoded_value res.body))

  -- preflightUser, after which `done` goes on with its error
  unfoldable pub preflight_user :
      Request → String → TokenPolicy → (Option String → Handler) → Handler
  unfolding with_upstream
  preflight_user r uuid tok done =
      if uuid == ""
      then done (some "missing_user_uuid")
      else if not (is_empty tok.constraints.allowed_users)
          && not (contains tok.constraints.allowed_users uuid)
      then done (some "user_denied")
      else with_upstream env st.proxy (preflight_request r) ("/api/users/" +++ uuid) "" false
          (λ res. done (preflight_error tok res))

  abbrev pub run_check : Request → TokenPolicy → Check → (Option String → Handler) → Handler
  run_check r tok (checked e) done = done e
  run_check r tok (check_user uuid) done = preflight_user r uuid tok done

  -- preflight
  unfoldable pub preflight :
      Request → Route → String → TokenPolicy → (Option String → Handler) → Handler
  unfolding preflight_check
  preflight r route path tok done =
      if not (is_policy_enforced route.support)
      then done none
      else run_check r tok (preflight_check env r route path tok) done

  -- postWriteVerify
  unfoldable pub post_write_verify :
      Request → Route → TokenPolicy → Response → (Option String → Handler) → Handler
  unfolding post_write_check
  post_write_verify r route tok res done =
      if not (is_restricted_write route)
        || not (is_policy_enforced route.support)
        || not (is_success res.status_code)
      then done none
      else run_check r tok (post_write_check env r route tok res) done
