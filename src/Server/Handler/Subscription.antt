-- ===== src/Server/Handler/Subscription.antt =====
-- internal/server/server.go: handlePublicSub and clientIP.
use remnaguard.Prelude.{
  ℕ, String, Bool, true, not, Option, none, some, List, [], ◌∷◌, ◌&&◌, ◌||◌, if◌then◌else◌, ◌==◌,
  ◌+++◌, ltb, nat_eq, length, split, trim_left, trim_right,
}
use remnaguard.Config.{contains}
use remnaguard.Routes.{Route}
use remnaguard.Proxy.{RoundTripResult, answered, failed}
use remnaguard.Server.Env.{Env}
use remnaguard.Server.Request.{Request, segment_at}
use remnaguard.Server.Handler.World.{
  Handler, RuntimeState, written, bad_gateway, no_reply, reply, deny, with_sub_ip, with_sub_rate,
  with_upstream,
}

-- The texts but the last, each after a colon but the first.
unfoldable pub all_but_last : String → List String → String
all_but_last s [] = ""
all_but_last s (t ∷ []) = s
all_but_last s (t ∷ u ∷ ts) = all_but_last (s +++ ":" +++ t) (u ∷ ts)

abbrev host_of : String → List String → String
host_of address (s ∷ t ∷ ts) = all_but_last s (t ∷ ts)
host_of address _ = address

-- clientIP
unfoldable pub client_ip : Request → String
unfolding all_but_last
client_ip r = host_of r.remote (split b':' r.remote)

abbrev is_slash : ℕ → Bool
is_slash c = nat_eq c b'/'

abbrev pub path_parts : String → List String
path_parts path = split b'/' (trim_right is_slash (trim_left is_slash path))

module _ (env : Env) (st : RuntimeState) (r : Request) (route : Route) (path : String)
    (raw_query : String) where
  -- ServeHTTP, after the round trip
  abbrev pub serve_public : RoundTripResult → Handler
  serve_public (failed e) = reply bad_gateway
  serve_public (answered res) = reply (written true res)

  abbrev pub limited_public : Handler
  limited_public =
      let ip = client_ip r in
      with_sub_ip ip (deny route.name "" "" "public_subscription_concurrency" 429) (
        with_sub_rate env.now ip (deny route.name "" "" "public_subscription_rate_limit" 429)
          (with_upstream env st.proxy r path raw_query true serve_public))

  abbrev pub of_short : Bool → Handler
  of_short short_ok =
      let parts = path_parts path in
      if ltb (length parts) 3 || not short_ok
      then deny route.name "" "" "invalid_short_uuid" 400
      else if nat_eq (length parts) 4
          && not (segment_at 3 parts == "info")
          && not (contains st.cfg.public_subs.allowed_clients (segment_at 3 parts))
      then deny route.name "" "" "client_type_denied" 403
      else limited_public

  abbrev pub of_match : Option Bool → Handler
  of_match none = reply no_reply
  of_match (some short_ok) = of_short short_ok

  -- handlePublicSub; MustCompile panics for an expression that does not compile
  unfoldable pub handle_public_sub : Handler
  unfolding client_ip with_sub_ip with_sub_rate with_upstream
  handle_public_sub =
      if not st.cfg.public_subs.enabled
      then deny route.name "" "" "public_subscriptions_disabled" 403
      else of_match
          (env.matches_regex st.cfg.public_subs.short_uuid_regex (segment_at 2 (path_parts path)))
