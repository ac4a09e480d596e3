-- ===== src/Server/Handler/Gathered.antt =====
-- internal/server/server.go: what handlePanelRestrictedUserList reads of a list that the upstream serves in
-- pages.
use remnaguard.Prelude.{
  ℕ, zero, suc, ◌+◌, ◌-◌, ◌*◌, ◌%◌, ◌≤◌, ◌<◌, String, true, false, Option, none, some, ◌⊎◌, inl,
  inr, ◌==◌, ◌≡◌, refl, ap, sym, ◌∙◌, if◌then◌else◌, arith, ltb, leb, length, Bool-cases,
}
use remnaguard.Config.{TokenPolicy, Credential}
use remnaguard.Header.{Header}
use remnaguard.Json.{Items, no_items}
use remnaguard.Routes.{Route}
use remnaguard.Policy.Decide.{has_privileged_scope}
use remnaguard.Proxy.{Response}
use remnaguard.Server.Env.{Env}
use remnaguard.Server.ListFilter.{items_length, take_items}
use remnaguard.Server.Request.{Request}
use remnaguard.Server.Handler.World.{World, Handler, RuntimeState, with_upstream}
use remnaguard.Server.Handler.Panel.{is_panel}
use remnaguard.Server.Handler.Listing.{
  after_page, scan_pages, or_first, header_or_none, handle_panel_restricted_user_list,
}
use remnaguard.Server.Handler.Pages.{
  append-take, whole_taken, length-take, none_taken, pages_from, stops_at_end,
}
use remnaguard.Server.Handler.Turns.{asked, Serves, Gathers, finish, finish-Gathers, one_page_more}

module _ (env : Env) (st : RuntimeState) (r : Request) (route : Route) (path : String)
    (raw_query : String) (tok : TokenPolicy) (cred : Credential) where
  module _ (users : Items) (page : ℕ → Response)
      (serves : Serves env st r route path raw_query tok cred users page) where
    -- One turn of the loop.
    after_page_lem :
        (again : ℕ → Items → Header → Handler) (start : ℕ) (combined : Items)
        (first : Option Header) (w v : World)
        → start % 1000 ≡ 0
        → (start ≡ 0) ⊎ (start < items_length users)
        → combined ≡ take_items start users
        → after_page env st r route path raw_query tok cred again start combined first
            (asked env st r route path raw_query tok cred w start)
            v
          ≡ (if leb (items_length users) (start + 1000)
                then finish env st r route path raw_query tok cred
                    (take_items (start + 1000) users)
                    (or_first first (page start).header)
                else again
                    (start + 1000)
                    (take_items (start + 1000) users)
                    (or_first first (page start).header))
              v
    after_page_lem again start combined first w v whole reached same =
        let (answer, success, decoded) = serves.answer w start whole reached in
        rw answer (
          rw success (
            rw decoded (
              rw same (
                rw (append-take start 1000 (start + 1000) users refl)
                  (rw (stops_at_end start users) refl)))))

    -- What the loop has at a start.
    record IsUnderWay (start : ℕ) (combined : Items) (first : Option Header) (header : Header)
        (n : ℕ) : Type 0 where
      whole : start % 1000 ≡ 0
      low : start ≤ 20000
      reached : (start ≡ 0) ⊎ (start < items_length users)
      same : combined ≡ take_items start users
      kept : (first ≡ some header) ⊎ ((first ≡ none) × (start ≡ 0) × (header ≡ (page 0).header))
      count :
          ((start < 20000) × (n ≡ pages_from start (items_length (take_items 20000 users))))
          ⊎ ((start ≡ 20000) × (n ≡ 0))

    kept_header :
        (start : ℕ) (first : Option Header) (header : Header)
        → (first ≡ some header) ⊎ ((first ≡ none) × (start ≡ 0) × (header ≡ (page 0).header))
        → or_first first (page start).header ≡ header
    kept_header start first header h = elim h [
      | inl e ↦ rw e refl
      | inr (e, zero_start, same) ↦ rw e (rw zero_start (sym same))
    ]

    after_stop :
        (start n : ℕ) (combined : Items) (first : Option Header) (header : Header) (w v : World)
        → IsUnderWay start combined first header n
        → length v.sent ≡ suc (length w.sent)
        → start < 20000
        → items_length users ≤ start + 1000
        → Gathers env st r route path raw_query tok cred n (take_items 20000 users) header w (
            finish env st r route path raw_query tok cred
              (take_items (start + 1000) users)
              (or_first first (page start).header)
              v)
    after_stop start n combined first header w v way one low stop =
        let m = ap items_length (whole_taken 20000 users (omega (arith, stop, way.whole, low))) in
        let taken : take_items (start + 1000) users ≡ take_items 20000 users =
          whole_taken (start + 1000) users stop
          ∙ sym (whole_taken 20000 users (omega (arith, stop, way.whole, low))) in
        let single : n ≡ 1 = elim way.count [
          | inl (l, e) ↦ omega (arith, e, m, stop)
          | inr (l, e) ↦ absurd (omega (arith, l, low))
        ] in
        rw (taken) (
          rw (kept_header start first header way.kept) (
            finish-Gathers env st r route path raw_query tok cred n (take_items 20000 users) header
              w v (omega (arith, one, single))))

    -- The next turn.
    next-IsUnderWay :
        (start n : ℕ) (combined : Items) (first : Option Header) (header : Header)
        → IsUnderWay start combined first header n
        → start < 20000
        → start + 1000 < items_length users
        → IsUnderWay (start + 1000) (take_items (start + 1000) users) (some header) header (n - 1)
          × (n ≡ suc (n - 1))
    next-IsUnderWay start n combined first header way low more =
        let most = length-take 20000 users in
        let bound : start + 1000 ≤ 20000 = omega (arith, low, way.whole) in
        let counted : n ≡ pages_from start (items_length (take_items 20000 users)) =
          elim way.count [ inl (l, e) ↦ e | inr (l, e) ↦ absurd (omega (arith, l, low)) ] in
        let enough : start + 1000 ≤ items_length (take_items 20000 users) = elim most [
          | inl (e, h) ↦ omega (arith, e, bound)
          | inr (e, h) ↦ omega (arith, e, more)
        ] in
        (
          record {
            whole = omega (arith, way.whole);
            low = bound;
            reached = inr more;
            same = refl;
            kept = inl refl;
            count = elim (Bool-cases (ltb (start + 1000) 20000)) [
              | inl e ↦ inl (
                ground (arith, e),
                elim most [
                  | inl (k, h) ↦ ground (arith, e, k, counted, bound, way.whole)
                  | inr (k, h) ↦ omega (arith, k, counted, more)
                ],
              )
              | inr e ↦ inr (ground (arith, e, bound), ground (arith, e, bound, counted, most))
            ];
          },
          omega (arith, counted),
        )

    after_bound :
        (start n : ℕ) (combined : Items) (first : Option Header) (header : Header) (w : World)
        → IsUnderWay start combined first header n
        → 20000 ≤ start
        → Gathers env st r route path raw_query tok cred n (take_items 20000 users) header w (
            finish env st r route path raw_query tok cred combined
              (header_or_none env st r route path raw_query tok cred first)
              w)
    after_bound start n combined first header w way high =
        let at : start ≡ 20000 = omega (arith, high, way.low) in
        let held : first ≡ some header = elim way.kept [
          | inl e ↦ e
          | inr (e, zero_start, same) ↦ absurd (omega (arith, zero_start, high))
        ] in
        let done : n ≡ 0 = elim way.count [
          | inl (l, e) ↦ absurd (omega (arith, l, high))
          | inr (l, e) ↦ e
        ] in
        rw way.same (
          rw at (
            rw held (
              finish-Gathers env st r route path raw_query tok cred n (take_items 20000 users)
                header w w (omega (arith, done)))))

    scan_pages-Gathers :
        (fuel start n : ℕ) (combined : Items) (first : Option Header) (header : Header) (w : World)
        → 21000 ≤ start + 1000 * fuel
        → IsUnderWay start combined first header n
        → Gathers env st r route path raw_query tok cred n
            (take_items 20000 users)
            header
            w
            (scan_pages env st r route path raw_query tok cred fuel start combined first w)
    unfolding scan_pages with_upstream
    scan_pages-Gathers zero start n combined first header w enough way =
        absurd (omega (arith, enough, way.low))
    scan_pages-Gathers (suc fuel) start n combined first header w enough way =
        elim (Bool-cases (ltb start 20000)) [
          | inl e ↦ rw e (
              rw (after_page_lem _ start combined first w _ way.whole way.reached way.same)
                (elim (Bool-cases (leb (items_length users) (start + 1000))) [
                  | inl f ↦ rw f (
                      after_stop start n combined first header w _ way refl (ground (arith, e))
                        (ground (arith, f)))
                  | inr f ↦ rw f (
                      rw (kept_header start first header way.kept) (
                        let (way2, one_more) =
                          next-IsUnderWay start n combined first header way (ground (arith, e))
                            (ground (arith, f)) in
                        one_page_more env st r route path raw_query tok cred n
                          (take_items 20000 users) header w _ _ one_more refl
                          (scan_pages-Gathers fuel (start + 1000) (n - 1)
                            (take_items (start + 1000) users) (some header) header _
                            (omega (arith, enough)) way2)))
                ]))
          | inr e ↦ rw e (after_bound start n combined first header w way (ground (arith, e)))
        ]

    -- If the upstream serves a list of users in pages of a thousand, and with its length as the total, a
    -- panel's actor without a privileged scope gets the reply that is made, from the filter on, of the
    -- first 20000 users, all of them and in their order, with the header of the first page; the
    -- upstream is asked once for each thousand of these that has begun, and at least once.
    pub handle_panel_restricted_user_list-Gathers :
        (served : Handler) (w : World)
        → is_panel r ≡ true
        → (route.name == "user.list") ≡ true
        → has_privileged_scope tok.scopes ≡ false
        → Gathers env st r route path raw_query tok cred
            (pages_from 0 (items_length (take_items 20000 users)))
            (take_items 20000 users)
            (page 0).header
            w
            (handle_panel_restricted_user_list env st r route path raw_query tok cred served w)
    unfolding handle_panel_restricted_user_list
    handle_panel_restricted_user_list-Gathers served w panel listing plain = rw panel (
        rw listing (
          rw plain (
            scan_pages-Gathers 21 0 _ no_items none (page 0).header w (omega arith) (record {
              whole = omega arith;
              low = omega arith;
              reached = inl refl;
              same = sym (none_taken users);
              kept = inr (refl, refl, refl);
              count = inl (omega arith, refl);
            }))))
