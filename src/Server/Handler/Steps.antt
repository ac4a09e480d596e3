-- ===== src/Server/Handler/Steps.antt =====
-- internal/server/server.go: the stages between the decision and the reply give back what they took.
use remnaguard.Prelude.{
  ℕ, zero, suc, ◌+◌, String, false, not, Option, none, some, [], ◌∷◌, ◌&&◌, ◌||◌, if◌then◌else◌,
  ◌==◌, ◌+++◌, ◌<◌, ◌≤◌, ◌*◌, arith, Bool-cases, inl, inr, refl, ltb, ℤ, pos, lebℤ, is_empty,
}
use remnaguard.Config.{TokenPolicy, Credential, contains}
use remnaguard.Header.{Header}
use remnaguard.Json.{Items}
use remnaguard.Routes.{Route}
use remnaguard.Proxy.{Response, RoundTripResult, answered, failed}
use remnaguard.Server.Effective.{is_policy_enforced, is_restricted_write}
use remnaguard.Server.Env.{Env}
use remnaguard.Server.ListFilter.{items_length}
use remnaguard.Server.Request.{Request, Outcome, ok, err}
use remnaguard.Server.Response.Policy.{is_success}
use remnaguard.Server.Handler.World.{
  Handler, RuntimeState, deny, reply, written, facade_page, with_upstream,
}
use remnaguard.Server.Handler.Frees.{Frees, Frees-reply, Frees-if, Frees-with_upstream}
use remnaguard.Server.Handler.Panel.{is_panel, policy_deny, handle_panel_read_facade}
use remnaguard.Server.Handler.Preflight.{
  Check, checked, check_user, preflight_request, preflight_error, preflight_user, run_check,
  preflight_check, preflight, post_write_check, post_write_verify,
}
use remnaguard.Server.Handler.Listing.{
  write_list, write_filtered, finish_list, next_page, after_page, scan_pages,
  panel_user_list_page_query, append_items, decode_user_list_page, or_first, header_or_none,
}

module _ (env : Env) (st : RuntimeState) where
  refused-Frees :
      (route token_id credential_id reason : String) (status : ℕ)
      → Frees (deny route token_id credential_id reason status)
  refused-Frees route token_id credential_id reason status = Frees-reply _ refl

  pub policy_deny-Frees :
      (r : Request) (route : Route) (path reason : String) (h : Handler)
      → Frees h
      → Frees (policy_deny r route path reason h)
  unfolding policy_deny
  policy_deny-Frees r route path reason h f = Frees-if (is_panel r) _ h (Frees-reply _ refl) f

  pub read_facade-Frees :
      (r : Request) (path : String) (h : Handler)
      → Frees h
      → Frees (handle_panel_read_facade r path h)
  unfolding handle_panel_read_facade
  read_facade-Frees r path h f =
      let known =
        contains ("/api/remnawave-settings" ∷ "/api/tokens" ∷ "/api/passkeys" ∷ []) path in
      Frees-if (not (is_panel r) || not (r.raw.method == "GET")) h
        (if known then reply (facade_page path) else h) f
        (Frees-if known (reply (facade_page path)) h (Frees-reply _ refl) f)

  preflight_user-Frees :
      (r : Request) (uuid : String) (tok : TokenPolicy) (done : Option String → Handler)
      → ((o : Option String) → Frees (done o))
      → Frees (preflight_user env st r uuid tok done)
  unfolding preflight_user
  preflight_user-Frees r uuid tok done f =
      let unlisted =
        not (is_empty tok.constraints.allowed_users)
        && not (contains tok.constraints.allowed_users uuid) in
      let asked =
        with_upstream env st.proxy (preflight_request r) ("/api/users/" +++ uuid) "" false
          (λ res. done (preflight_error env st tok res)) in
      Frees-if (uuid == "") (done (some "missing_user_uuid"))
        (if unlisted then done (some "user_denied") else asked) (f (some "missing_user_uuid"))
        (Frees-if unlisted (done (some "user_denied")) asked (f (some "user_denied")) (
          Frees-with_upstream env st.proxy (preflight_request r) ("/api/users/" +++ uuid) "" false _
            (λ res. f (preflight_error env st tok res))))

  run_check-Frees :
      (r : Request) (tok : TokenPolicy) (c : Check) (done : Option String → Handler)
      → ((o : Option String) → Frees (done o))
      → Frees (run_check env st r tok c done)
  run_check-Frees r tok (checked e) done f = f e
  run_check-Frees r tok (check_user uuid) done f = preflight_user-Frees r uuid tok done f

  pub preflight-Frees :
      (r : Request) (route : Route) (path : String) (tok : TokenPolicy)
      (done : Option String → Handler)
      → ((o : Option String) → Frees (done o))
      → Frees (preflight env st r route path tok done)
  unfolding preflight
  preflight-Frees r route path tok done f =
      Frees-if (not (is_policy_enforced route.support)) (done none)
        (run_check env st r tok (preflight_check env r route path tok) done) (f none)
        (run_check-Frees r tok (preflight_check env r route path tok) done f)

  pub post_write_verify-Frees :
      (r : Request) (route : Route) (tok : TokenPolicy) (res : Response)
      (done : Option String → Handler)
      → ((o : Option String) → Frees (done o))
      → Frees (post_write_verify env st r route tok res done)
  unfolding post_write_verify
  post_write_verify-Frees r route tok res done f =
      Frees-if
        (not (is_restricted_write route)
          || not (is_policy_enforced route.support)
          || not (is_success res.status_code))
        (done none) (run_check env st r tok (post_write_check env r route tok res) done) (f none)
        (run_check-Frees r tok (post_write_check env r route tok res) done f)

  module _ (r : Request) (route : Route) (path : String) (raw_query : String) (tok : TokenPolicy)
      (cred : Credential) where
    write_list-Frees :
        (o : Outcome Response) → Frees (write_list env st r route path raw_query tok cred o)
    write_list-Frees (err e) = Frees-reply _ refl
    write_list-Frees (ok res) = Frees-reply _ refl

    write_filtered-Frees :
        (o : Option (Outcome Response))
        → Frees (write_filtered env st r route path raw_query tok cred o)
    write_filtered-Frees none = Frees-reply _ refl
    write_filtered-Frees (some o) = write_list-Frees o

    finish_list-Frees :
        (combined : Items) (header : Header)
        → Frees (finish_list env st r route path raw_query tok cred combined header)
    unfolding finish_list
    finish_list-Frees combined header = write_filtered-Frees _

    next_page-Frees :
        (again : ℕ → Items → Header → Handler) (start : ℕ) (combined : Items) (header : Header)
        (o : Option (Items × ℤ))
        → ((all : Items) (h : Header) → Frees (again (start + 1000) all h))
        → Frees (next_page env st r route path raw_query tok cred again start combined header o)
    next_page-Frees again start combined header none f = Frees-reply _ refl
    next_page-Frees again start combined header (some (users, total)) f =
        let all = append_items combined users in
        Frees-if (ltb (items_length users) 1000 || lebℤ total (pos (start + 1000)))
          (finish_list env st r route path raw_query tok cred all header)
          (again (start + 1000) all header) (finish_list-Frees all header) (f all header)

    after_page-Frees :
        (again : ℕ → Items → Header → Handler) (start : ℕ) (combined : Items)
        (first : Option Header) (res : RoundTripResult)
        → ((all : Items) (h : Header) → Frees (again (start + 1000) all h))
        → Frees (after_page env st r route path raw_query tok cred again start combined first res)
    after_page-Frees again start combined first (failed e) f = Frees-reply _ refl
    after_page-Frees again start combined first (answered res) f =
        Frees-if (not (is_success res.status_code)) (reply (written false res))
          (next_page env st r route path raw_query tok cred again start combined
            (or_first first res.header) (decode_user_list_page (env.decoded_value res.body)))
          (Frees-reply _ refl)
          (next_page-Frees again start combined (or_first first res.header)
            (decode_user_list_page (env.decoded_value res.body)) f)

    pub scan_pages-Frees :
        (fuel start : ℕ) (combined : Items) (first : Option Header)
        → start < 21000
        → 21000 ≤ start + 1000 * fuel
        → Frees (scan_pages env st r route path raw_query tok cred fuel start combined first)
    unfolding scan_pages
    scan_pages-Frees zero start combined first low enough = absurd (omega (arith, low, enough))
    scan_pages-Frees (suc fuel) start combined first low enough =
        elim (Bool-cases (ltb start 20000)) [
          | inl e ↦ rw e (
              Frees-with_upstream env st.proxy r path
                (panel_user_list_page_query env raw_query start 1000) false _
                (λ res.
                  after_page-Frees
                    (λ next all header.
                      scan_pages env st r route path raw_query tok cred fuel next all (some header))
                    start combined first res
                    (λ all h.
                      scan_pages-Frees fuel (start + 1000) all (some h) (ground (arith, e))
                        (omega (arith, enough)))))
          | inr e ↦ rw e (
              finish_list-Frees combined
                (header_or_none env st r route path raw_query tok cred first))
        ]
