-- ===== src/Server/Handler/Turns.antt =====
-- internal/server/server.go: an upstream that serves a list of users in pages, and how the loop of
-- handlePanelRestrictedUserList ends.
use remnaguard.Prelude.{
  ℕ, suc, ◌+◌, ◌-◌, ◌%◌, ◌<◌, String, true, false, Option, none, some, ◌⊎◌, ◌≡◌, refl, ap, ◌∙◌,
  arith, length, pos,
}
use remnaguard.Config.{TokenPolicy, Credential}
use remnaguard.Header.{Header}
use remnaguard.Json.{Items}
use remnaguard.Routes.{Route}
use remnaguard.Proxy.{Response, RoundTripResult, answered, round_trip}
use remnaguard.Server.Env.{Env}
use remnaguard.Server.ListFilter.{items_length, take_items, drop_items}
use remnaguard.Server.Request.{Request, Outcome, ok, err}
use remnaguard.Server.Response.Policy.{is_success}
use remnaguard.Server.Handler.World.{World, Handler, RuntimeState, Reply, sent_body}
use remnaguard.Server.Handler.Listing.{
  write_list, write_filtered, finish_list, decode_user_list_page, panel_user_list_page_query,
}

module _ (env : Env) (st : RuntimeState) (r : Request) (route : Route) (path : String)
    (raw_query : String) (tok : TokenPolicy) (cred : Credential) where
  abbrev pub asked : World → ℕ → RoundTripResult
  asked w start =
      round_trip (env.send w.sent) env.base_path st.proxy r.raw.method r.raw.header
        (sent_body r.body) path (panel_user_list_page_query env raw_query start 1000) false

  -- The upstream serves a list of users in pages of a thousand, with its length as the total.
  pub record Serves (users : Items) (page : ℕ → Response) : Type 0 where
    pub answer :
        (w : World) (start : ℕ)
        → (start % 1000 ≡ 0)
        → (start ≡ 0) ⊎ (start < items_length users)
        → (asked w start ≡ answered (page start))
          × (is_success (page start).status_code ≡ true)
          × (decode_user_list_page (env.decoded_value (page start).body)
              ≡ some (take_items 1000 (drop_items start users), pos (items_length users)))

  -- The loop from a start ends in the reply for a list and a header, after a number of requests.
  pub record Gathers (n : ℕ) (users : Items) (header : Header) (w : World) (x : World × Reply)
      : Type 0 where
    pub replied : x.1 ≡ (finish_list env st r route path raw_query tok cred users header w).1
    pub requests : length x.0.sent ≡ length w.sent + n

  abbrev pub finish : Items → Header → Handler
  finish = finish_list env st r route path raw_query tok cred

  -- The end of the loop leaves the state, and its reply does not depend on it.
  abbrev IsStill : Handler → Type 0
  IsStill h = (w v : World) → ((h v).1 ≡ (h w).1) × ((h v).0 ≡ v)

  pub finish-IsStill : (users : Items) (header : Header) → IsStill (finish users header)
  unfolding finish_list
  finish-IsStill users header = of_filtered _
    where
      of_list :
          (o : Outcome Response) → IsStill (write_list env st r route path raw_query tok cred o)
      of_list (err e) w v = (refl, refl)
      of_list (ok res) w v = (refl, refl)

      of_filtered :
          (o : Option (Outcome Response))
          → IsStill (write_filtered env st r route path raw_query tok cred o)
      of_filtered none w v = (refl, refl)
      of_filtered (some o) w v = of_list o w v

  pub finish-Gathers :
      (n : ℕ) (users : Items) (header : Header) (w v : World)
      → length v.sent ≡ length w.sent + n
      → Gathers n users header w (finish users header v)
  finish-Gathers n users header w v same =
      let (replied, left) = finish-IsStill users header w v in
      record { replied = replied; requests = ap (λ (x : World). length x.sent) left ∙ same }

  pub one_page_more :
      (n : ℕ) (users : Items) (header : Header) (w v : World) (x : World × Reply)
      → n ≡ suc (n - 1)
      → length v.sent ≡ suc (length w.sent)
      → Gathers (n - 1) users header v x
      → Gathers n users header w x
  one_page_more n users header w v x more one h = record {
    replied = h.replied ∙ (finish-IsStill users header w v).0;
    requests = omega (arith, h.requests, one, more);
  }
