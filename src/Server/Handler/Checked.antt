-- ===== src/Server/Handler/Checked.antt =====
-- internal/server/server.go: what has been checked of a request that is passed on to the upstream.
use remnaguard.Prelude.{
  ℕ, String, Bool, true, false, not, Option, none, some, List, ◌&&◌, if◌then◌else◌, ◌==◌, ◌≡◌, ◌⊎◌,
  inl, inr, refl, arith, eq_iff, Bool-cases, is_empty, ◌+++◌,
}
use remnaguard.Config.{TokenPolicy, Credential, contains}
use remnaguard.Proxy.{Response, RoundTripResult, UpstreamRequest, answered, failed, round_trip}
use remnaguard.Routes.{Route}
use remnaguard.Remnawave.{User}
use remnaguard.Remnawave.Ownership.{IsOwned, owns_user-IsOwned}
use remnaguard.Server.Effective.{is_policy_enforced}
use remnaguard.Server.Env.{Env}
use remnaguard.Server.Request.{Request}
use remnaguard.Server.Body.Policy.{validate_body_policy}
use remnaguard.Server.Response.Policy.{is_success, user_in, error_of_owner}
use remnaguard.Server.Handler.World.{
  World, Handler, RuntimeState, Reply, written, reply, with_upstream,
}
use remnaguard.Server.Handler.Panel.{policy_deny, is_panel}
use remnaguard.Server.Handler.Preflight.{
  Check, checked, check_user, preflight_request, preflight_error, preflight_user, preflight_check,
  run_check, preflight,
}
use remnaguard.Server.Handler.Preflighted.{
  IsOwnUser, Passed, IsPreflighted, preflight_check-IsPreflighted,
}
use remnaguard.Server.Handler.Api.{
  checked_write, after_preflight, after_body, panel_refused, body_status,
}

abbrev pub is_written : Reply → Bool
is_written (written public_sub res) = true
is_written _ = false

module _ (env : Env) (st : RuntimeState) where
  -- Where a handler writes a response of the upstream, P holds of the requests sent before.
  pub record Writes (P : List UpstreamRequest → Type 0) (h : Handler) : Type 0 where
    pub at : (w : World) → is_written (h w).1 ≡ true → P w.sent

  owner_lem :
      (tok : TokenPolicy) (o : Option User)
      → error_of_owner env tok o ≡ none
      → (user : User) × (o ≡ some user) × IsOwned env.matches_regex tok.constraints user
  owner_lem tok none h = absurd (ground (arith, h))
  owner_lem tok (some user) h = (user, refl, owns_user-IsOwned env.matches_regex tok user h)

  answer_lem :
      (tok : TokenPolicy) (res : RoundTripResult)
      → preflight_error env st tok res ≡ none
      → (a : Response) × (res ≡ answered a)
        × (is_success a.status_code ≡ true)
        × (user : User) × (user_in env (env.decoded_value a.body) ≡ some user)
        × IsOwned env.matches_regex tok.constraints user
  answer_lem tok (failed e) h = absurd (ground (arith, h))
  answer_lem tok (answered a) h = elim (Bool-cases (is_success a.status_code)) [
    | inl e ↦
        let (user, found, owned) =
          owner_lem tok (user_in env (env.decoded_value a.body)) (ground (arith, h, e)) in
        (a, refl, e, user, found, owned)
    | inr e ↦ absurd (ground (arith, h, e))
  ]

  Writes-reply :
      {P : List UpstreamRequest → Type 0} (r : Reply) → is_written r ≡ false → Writes P (reply r)
  Writes-reply r h = record { at = λ w e. absurd (ground (arith, h, e)) }

  Writes-if :
      {P : List UpstreamRequest → Type 0} (b : Bool) (g h : Handler)
      → (b ≡ true → Writes P g)
      → (b ≡ false → Writes P h)
      → Writes P (if b then g else h)
  Writes-if true g h a b = a refl
  Writes-if false g h a b = b refl

  -- A refusal writes nothing of the upstream, whoever is told it.
  refused_unwritten :
      (r : Request) (route : Route) (path raw_query : String) (tok : TokenPolicy)
      (cred : Credential) (reason : String) (status : ℕ) (w : World)
      → is_written (panel_refused env st r route path raw_query tok cred reason status w).1 ≡ false
  unfolding policy_deny
  refused_unwritten r route path raw_query tok cred reason status w =
      elim (Bool-cases (is_panel r)) [ inl e ↦ rw e refl | inr e ↦ rw e refl ]

  -- How a handler goes on after a check: an error ends it, and what it writes without one needs D.
  record GoesOn (D : Type 0) (done : Option String → Handler) : Type 0 where
    stops : (e : String) (w : World) → is_written (done (some e) w).1 ≡ false
    passes : (w : World) → is_written (done none w).1 ≡ true → D

  after_check :
      {D : Type 0} (done : Option String → Handler) (o : Option String) (w : World)
      → GoesOn D done
      → is_written (done o w).1 ≡ true
      → (o ≡ none) × D
  after_check done none w g h = (refl, g.passes w h)
  after_check done (some e) w g h = absurd (ground (arith, h, g.stops e w))

  preflight_user-Writes :
      {D : Type 0} (r : Request) (uuid : String) (tok : TokenPolicy)
      (done : Option String → Handler)
      → GoesOn D done
      → Writes
          (λ sent. D × IsOwnUser env st r sent tok uuid)
          (preflight_user env st r uuid tok done)
  unfolding preflight_user with_upstream preflight_request
  preflight_user-Writes {D} r uuid tok done g =
      let unlisted =
        not (is_empty tok.constraints.allowed_users)
        && not (contains tok.constraints.allowed_users uuid) in
      let asked =
        with_upstream env st.proxy (preflight_request r) ("/api/users/" +++ uuid) "" false
          (λ res. done (preflight_error env st tok res)) in
      Writes-if (uuid == "") (done (some "missing_user_uuid"))
        (if unlisted then done (some "user_denied") else asked)
        (λ e. record { at = λ w h. absurd (ground (arith, h, g.stops "missing_user_uuid" w)) })
        (λ e.
          Writes-if unlisted (done (some "user_denied")) asked
            (λ f. record { at = λ w h. absurd (ground (arith, h, g.stops "user_denied" w)) })
            (λ f. record {
              at = λ (w : World) h.
                  let res =
                    round_trip (env.send w.sent) env.base_path st.proxy "GET"
                      (preflight_request r).raw.header "" ("/api/users/" +++ uuid) "" false in
                  let (passed, d) = after_check done (preflight_error env st tok res) _ g h in
                  let (a, answer, success, user, decoded, owned) = answer_lem tok res passed in
                  (
                    d,
                    record {
                      named = λ blank. ground (arith, e, (eq_iff uuid "").1 blank);
                      listed = listed_of (is_empty tok.constraints.allowed_users) _ f;
                      res = a;
                      answer = answer;
                      success = success;
                      user = user;
                      decoded = decoded;
                      owned = owned;
                    },
                  );
            }))
    where
      listed_of : (a b : Bool) → (not a && not b) ≡ false → (a ≡ true) ⊎ (b ≡ true)
      listed_of true b h = inl refl
      listed_of false true h = inr refl
      listed_of false false h = absurd (ground (arith, h))

  run_check-Writes :
      {D : Type 0} (r : Request) (tok : TokenPolicy) (c : Check) (done : Option String → Handler)
      → GoesOn D done
      → Writes (λ sent. D × Passed env st r sent tok c) (run_check env st r tok c done)
  run_check-Writes r tok (checked e) done g = record {
    at = λ w h. let (passed, d) = after_check done e w g h in (d, passed);
  }
  run_check-Writes r tok (check_user uuid) done g = preflight_user-Writes r uuid tok done g

  after_body_lem :
      (r : Request) (route : Route) (path raw_query : String) (tok : TokenPolicy)
      (cred : Credential) (o : Option String) (w : World)
      → is_written (after_body env st route path raw_query tok cred r o w).1 ≡ true
      → o ≡ none
  after_body_lem r route path raw_query tok cred none w h = refl
  after_body_lem r route path raw_query tok cred (some e) w h =
      absurd
        (ground (arith, h, refused_unwritten r route path raw_query tok cred e (body_status e) w))

  -- From the preflight on, a response of the upstream is written to the client only if the request's body
  -- keeps to validateBodyPolicy and, for a policy-enforced route, the preflight passed, as
  -- IsPreflighted says it by the route's name: for a list of devices, an update, an action on a
  -- user and a write of a user's devices, the upstream answered, before anything else was sent,
  -- with a decodable user that the token owns, and that the token may name; for an action on a
  -- node and a read of a squad, the token may name it.
  pub checked_write-Passed :
      (r : Request) (route : Route) (path raw_query : String) (tok : TokenPolicy)
      (cred : Credential) (w : World)
      → is_written (checked_write env st route path raw_query tok cred r w).1 ≡ true
      → (validate_body_policy env r st.cfg route tok ≡ none)
        × (is_policy_enforced route.support ≡ true → IsPreflighted env st r w.sent route path tok)
  unfolding preflight
  checked_write-Passed r route path raw_query tok cred w h =
      let done = after_preflight env st route path raw_query tok cred r in
      let goes : GoesOn (validate_body_policy env r st.cfg route tok ≡ none) done = record {
        stops = λ e v. refused_unwritten r route path raw_query tok cred e 403 v;
        passes = λ v k. after_body_lem r route path raw_query tok cred _ v k;
      } in
      elim (Bool-cases (is_policy_enforced route.support)) [
        | inl e ↦
            let (d, passed) =
              (run_check-Writes r tok (preflight_check env r route path tok) done goes).at w
                (ground (arith, h, e)) in
            (d, λ f. preflight_check-IsPreflighted env st r w.sent route path tok passed)
        | inr e ↦ (goes.passes w (ground (arith, h, e)), λ f. absurd (ground (arith, e, f)))
      ]
