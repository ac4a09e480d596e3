-- ===== src/Server/Handler/Served.antt =====
-- internal/server/server.go: what handlePublicSub has checked when it sends a request to the upstream.
use remnaguard.Prelude.{
  String, Bool, true, false, not, Option, none, some, List, ◌&&◌, ◌||◌, if◌then◌else◌, ◌==◌, ◌≡◌,
  ◌⊎◌, inl, inr, arith, eq_iff, Bool-cases, ltb, nat_eq, length,
}
use remnaguard.Config.{contains}
use remnaguard.Routes.{Route}
use remnaguard.Server.Env.{Env}
use remnaguard.Server.Request.{Request, segment_at}
use remnaguard.Server.Handler.World.{RuntimeState, deny}
use remnaguard.Server.Handler.Sends.{
  Sends, Sends-reply, Sends-any, Sends-if, Sends-with_sub_ip, Sends-with_sub_rate,
}
use remnaguard.Server.Handler.Subscription.{
  client_ip, path_parts, limited_public, of_short, of_match, handle_public_sub,
}

-- A short UUID that the configuration's expression matches, and a client that it lists, if the path names one.
pub record IsServed (env : Env) (st : RuntimeState) (path : String) : Type 0 where
  pub enabled : st.cfg.public_subs.enabled ≡ true
  pub short_uuid :
      env.matches_regex st.cfg.public_subs.short_uuid_regex (segment_at 2 (path_parts path))
      ≡ some true
  pub client :
      length (path_parts path) ≡ 4
      → (segment_at 3 (path_parts path) ≡ "info")
        ⊎ (contains st.cfg.public_subs.allowed_clients (segment_at 3 (path_parts path)) ≡ true)

module _ (env : Env) (st : RuntimeState) (r : Request) (route : Route)
    (path raw_query : String) where
  abbrev parts : List String
  parts = path_parts path

  abbrev is_foreign : Bool
  is_foreign =
      nat_eq (length parts) 4
      && not (segment_at 3 parts == "info")
      && not (contains st.cfg.public_subs.allowed_clients (segment_at 3 parts))

  known_client :
      is_foreign ≡ false
      → length parts ≡ 4
      → (segment_at 3 parts ≡ "info")
        ⊎ (contains st.cfg.public_subs.allowed_clients (segment_at 3 parts) ≡ true)
  known_client g four = elim (Bool-cases (segment_at 3 parts == "info")) [
    | inl e ↦ inl ((eq_iff (segment_at 3 parts) "info").0 e)
    | inr e ↦ inr (ground (arith, g, four, e))
  ]

  limited_public-Sends : {P : Type 0} → P → Sends P (limited_public env st r route path raw_query)
  limited_public-Sends q =
      Sends-with_sub_ip (client_ip r) _ _ (Sends-reply _)
        (Sends-with_sub_rate env.now (client_ip r) _ _ (Sends-reply _) (Sends-any _ q))

  of_short-Sends :
      {P : Type 0} (short_ok : Bool)
      → (short_ok ≡ true → is_foreign ≡ false → P)
      → Sends P (of_short env st r route path raw_query short_ok)
  of_short-Sends short_ok p =
      let invalid = deny route.name "" "" "invalid_short_uuid" 400 in
      let denied = deny route.name "" "" "client_type_denied" 403 in
      let served = limited_public env st r route path raw_query in
      Sends-if (ltb (length parts) 3 || not short_ok) invalid
        (if is_foreign then denied else served) (λ e. Sends-reply _)
        (λ e.
          Sends-if is_foreign denied served (λ f. Sends-reply _)
            (λ f. limited_public-Sends (p (ground (arith, e)) f)))

  of_match-Sends :
      {P : Type 0} (o : Option Bool)
      → (o ≡ some true → is_foreign ≡ false → P)
      → Sends P (of_match env st r route path raw_query o)
  of_match-Sends none p = Sends-reply _
  of_match-Sends (some short_ok) p = of_short-Sends short_ok (λ e f. p (λ i. some (e i)) f)

  -- handlePublicSub sends nothing to the upstream unless public subscriptions are on, the path's short UUID
  -- matches, and the client type that the path may name is "info" or listed.
  pub handle_public_sub-Sends :
      {P : Type 0}
      → (IsServed env st path → P)
      → Sends P (handle_public_sub env st r route path raw_query)
  unfolding handle_public_sub
  handle_public_sub-Sends p =
      let matched = env.matches_regex st.cfg.public_subs.short_uuid_regex (segment_at 2 parts) in
      Sends-if (not st.cfg.public_subs.enabled)
        (deny route.name "" "" "public_subscriptions_disabled" 403)
        (of_match env st r route path raw_query matched) (λ e. Sends-reply _)
        (λ e. of_match-Sends matched (λ f g.
          p (record { enabled = ground (arith, e); short_uuid = f; client = known_client g })))
