-- ===== src/Server/Handler/Preflighted.antt =====
-- internal/server/server.go: what a preflight has found, by the route's name.
use remnaguard.Prelude.{
  String, Bool, true, false, none, some, List, [], ◌∷◌, ◌==◌, if◌then◌else◌, ◌≡◌, ◌≢◌, ◌⊎◌, inl,
  inr, subst, arith, Bool-cases, is_empty, ◌+++◌, All,
}
use remnaguard.Config.{TokenPolicy, contains}
use remnaguard.Proxy.{Response, UpstreamRequest, answered, round_trip}
use remnaguard.Routes.{Route}
use remnaguard.Remnawave.{User}
use remnaguard.Remnawave.Ownership.{IsOwned}
use remnaguard.Server.Env.{Env}
use remnaguard.Server.Request.{Request, path_segment}
use remnaguard.Server.Body.Policy.{body_string}
use remnaguard.Server.Body.Resources.{require_allowed_uuid_or_all}
use remnaguard.Server.Response.Policy.{is_success, user_in}
use remnaguard.Server.Handler.World.{RuntimeState}
use remnaguard.Server.Handler.Preflight.{
  Check, checked, check_user, named_user, unless_allowed, preflight_request, preflight_check,
}

module _ (env : Env) (st : RuntimeState) where
  -- The upstream, after the requests `sent` before, answers the preflight for a user with one that the
  -- token owns and may name.
  pub record IsOwnUser (r : Request) (sent : List UpstreamRequest) (tok : TokenPolicy)
      (uuid : String) : Type 0 where
    pub named : uuid ≢ ""
    pub listed :
        (is_empty tok.constraints.allowed_users ≡ true)
        ⊎ (contains tok.constraints.allowed_users uuid ≡ true)
    pub res : Response
    pub answer :
        round_trip
          (env.send sent)
          env.base_path
          st.proxy
          "GET"
          (preflight_request r).raw.header
          ""
          ("/api/users/" +++ uuid)
          ""
          false
        ≡ answered res
    pub success : is_success res.status_code ≡ true
    pub user : User
    pub decoded : user_in env (env.decoded_value res.body) ≡ some user
    pub owned : IsOwned env.matches_regex tok.constraints user

  -- What the switch of preflight asked for is so.
  abbrev pub Passed : Request → List UpstreamRequest → TokenPolicy → Check → Type 0
  Passed r sent tok (checked e) = e ≡ none
  Passed r sent tok (check_user uuid) = IsOwnUser r sent tok uuid

  -- A list that is empty allows everything.
  abbrev pub IsListed : List String → String → Type 0
  IsListed allowed id = (is_empty allowed ≡ true) ⊎ (contains allowed id ≡ true)

  -- What a route is about, and what the preflight has found of it.
  pub record IsPreflighted (r : Request) (sent : List UpstreamRequest) (route : Route)
      (path : String) (tok : TokenPolicy) : Type 0 where
    pub devices : route.name ≡ "hwid.list" → IsOwnUser r sent tok (path_segment path 3)
    pub update : route.name ≡ "user.update" → IsOwnUser r sent tok (body_string env r "uuid")
    pub actions :
        All
          (λ name. route.name ≡ name → IsOwnUser r sent tok (path_segment path 2))
          ("user.actions.disable" ∷ "user.actions.enable" ∷ "user.actions.reset_traffic"
            ∷ "user.actions.revoke" ∷ [])
    pub device_writes :
        All
          (λ name. route.name ≡ name → IsOwnUser r sent tok (body_string env r "userUuid"))
          ("hwid.create" ∷ "hwid.delete" ∷ "hwid.delete_all" ∷ [])
    pub node_actions :
        All
          (λ name.
            route.name ≡ name
            → (tok.constraints.allow_all_nodes ≡ true)
              ⊎ (contains tok.constraints.allowed_nodes (path_segment path 2) ≡ true))
          ("post.nodes.uuid.actions.disable" ∷ "post.nodes.uuid.actions.enable"
            ∷ "post.nodes.uuid.actions.restart" ∷ "post.nodes.uuid.actions.reset_traffic" ∷ [])
    pub internal_squad :
        route.name ≡ "squad.internal.read"
        → IsListed tok.constraints.allowed_internal_squads (path_segment path 2)
    pub external_squad :
        route.name ≡ "squad.external.read"
        → IsListed tok.constraints.allowed_external_squads (path_segment path 2)

  named_user_lem :
      (r : Request) (sent : List UpstreamRequest) (tok : TokenPolicy) (uuid : String)
      → Passed r sent tok (named_user uuid)
      → IsOwnUser r sent tok uuid
  named_user_lem r sent tok uuid h = go (uuid == "") h
    where
      go :
          (b : Bool)
          → Passed r sent tok (if b then checked (some "missing_user_uuid") else check_user uuid)
          → IsOwnUser r sent tok uuid
      go true h = absurd (ground (arith, h))
      go false h = h

  unless_allowed_lem :
      (r : Request) (sent : List UpstreamRequest) (tok : TokenPolicy) (allowed : List String)
      (id reason : String)
      → Passed r sent tok (unless_allowed allowed id reason)
      → IsListed allowed id
  unless_allowed_lem r sent tok allowed id reason h = elim (Bool-cases (is_empty allowed)) [
    | inl e ↦ inl e
    | inr e ↦ inr (ground (arith, h, e))
  ]

  node_lem :
      (r : Request) (sent : List UpstreamRequest) (tok : TokenPolicy) (id : String)
      → require_allowed_uuid_or_all id tok.constraints.allowed_nodes tok.constraints.allow_all_nodes
          "node_denied"
        ≡ none
      → (tok.constraints.allow_all_nodes ≡ true)
        ⊎ (contains tok.constraints.allowed_nodes id ≡ true)
  unfolding require_allowed_uuid_or_all
  node_lem r sent tok id h = elim (Bool-cases tok.constraints.allow_all_nodes) [
    | inl e ↦ inl e
    | inr e ↦ inr (ground (arith, h, e))
  ]

  pub preflight_check-IsPreflighted :
      (r : Request) (sent : List UpstreamRequest) (route : Route) (path : String)
      (tok : TokenPolicy)
      → Passed r sent tok (preflight_check env r route path tok)
      → IsPreflighted r sent route path tok
  unfolding preflight_check contains
  preflight_check-IsPreflighted r sent route path tok h =
      let c = tok.constraints in
      let at : (name : String)
          → route.name ≡ name
          → Passed r sent tok (preflight_check env r (record route { name = name }) path tok) =
        λ name e.
          subst
            (λ n. Passed r sent tok (preflight_check env r (record route { name = n }) path tok)) e
            h in
      record {
        devices = at "hwid.list";
        update = λ e. named_user_lem r sent tok (body_string env r "uuid") (at "user.update" e);
        actions = (
          at "user.actions.disable",
          (
            at "user.actions.enable",
            (at "user.actions.reset_traffic", (at "user.actions.revoke", tt)),
          ),
        );
        device_writes = (
          λ e. named_user_lem r sent tok (body_string env r "userUuid") (at "hwid.create" e),
          (
            λ e. named_user_lem r sent tok (body_string env r "userUuid") (at "hwid.delete" e),
            (
              λ e.
                  named_user_lem r sent tok (body_string env r "userUuid") (at "hwid.delete_all" e),
              tt,
            ),
          ),
        );
        node_actions = (
          λ e. node_lem r sent tok (path_segment path 2) (at "post.nodes.uuid.actions.disable" e),
          (
            λ e. node_lem r sent tok (path_segment path 2) (at "post.nodes.uuid.actions.enable" e),
            (
              λ e.
                  node_lem r sent tok (path_segment path 2)
                    (at "post.nodes.uuid.actions.restart" e),
              (
                λ e.
                    node_lem r sent tok (path_segment path 2)
                      (at "post.nodes.uuid.actions.reset_traffic" e),
                tt,
              ),
            ),
          ),
        );
        internal_squad = λ e.
            unless_allowed_lem r sent tok c.allowed_internal_squads (path_segment path 2)
              "internal_squad_denied" (at "squad.internal.read" e);
        external_squad = λ e.
            unless_allowed_lem r sent tok c.allowed_external_squads (path_segment path 2)
              "external_squad_denied" (at "squad.external.read" e);
      }
