-- ===== src/Server/Handler/World.antt =====
-- internal/server/server.go: the state that requests share, the replies, the limits around a request, and the
-- calls of the upstream. The requests to the upstream are kept, the latest first, and the
-- keys that have a lock.
use remnaguard.Prelude.{ℕ, String, Bool, Option, none, some, List, ◌∷◌, if◌then◌else◌}
use remnaguard.Config.{Config, contains}
use remnaguard.RateLimit.{
  Semaphore, PerKey, FixedWindow, acquire, release, acquire_key, release_key, allow_nilable,
}
use remnaguard.Proxy.{
  Proxy, Response, UpstreamRequest, RoundTripResult, upstream_request, round_trip,
}
use remnaguard.Server.Env.{Env}
use remnaguard.Server.OauthStore.{OauthStore}
use remnaguard.Server.Request.{Request, RequestBody, body_text}

-- limitState
pub record LimitState : Type 0 where
  pub global : Semaphore
  pub per_token : PerKey
  pub per_sub_ip : PerKey
  pub token_rate : Option FixedWindow
  pub sub_rate : Option FixedWindow

pub record World : Type 0 where
  pub limits : LimitState
  pub oauth : OauthStore
  pub sent : List UpstreamRequest
  pub locks : List String

-- What runtimeState does not change while it serves requests; `has_actors` is whether the configuration's map
-- of actors is not nil.
pub record RuntimeState : Type 0 where
  pub cfg : Config
  pub has_actors : Bool
  pub version_ok : Bool
  pub proxy : Proxy
  pub generation : ℕ

-- What deny is told, and what its reply depends on.
pub record Denial : Type 0 where
  pub route : String
  pub token_id : String
  pub credential_id : String
  pub reason : String
  pub status : ℕ

-- What a login handler of the panel answers: a denial, a page that the audit log names, the start of a
-- login with its state, or the access token of a session.
pub data LoginReply : Type 0 where
  login_denied : Denial → LoginReply
  login_page : ℕ → String → LoginReply
  login_started : String → LoginReply
  login_session : String → LoginReply

-- A reply: of http.Error, of deny, of handlePanelPolicyDeny with its status and reason, of
-- handlePanelReadFacade for a path, of the login, or a response that WriteResponse writes, with whether it
-- is for a public subscription. `no_reply` is a release that blocks, or the panic of an
-- expression that does not compile; `aborted` is the panic of a slice, from which the server recovers.
pub data Reply : Type 0 where
  rate_limited : Reply
  denied : Denial → Reply
  panel_denied : ℕ → String → Reply
  facade_page : String → Reply
  login : LoginReply → Reply
  written : Bool → Response → Reply
  bad_gateway : Reply
  no_reply : Reply
  aborted : Reply

abbrev pub Handler : Type 0
Handler = World → World × Reply

-- A reply that leaves the state as it is.
abbrev pub reply : Reply → Handler
reply r w = (w, r)

abbrev pub deny : String → String → String → String → ℕ → Handler
deny route token_id credential_id reason status = reply (
    denied (record {
      route = route;
      token_id = token_id;
      credential_id = credential_id;
      reason = reason;
      status = status;
    }))

abbrev pub set_limits : LimitState → World → World
set_limits limits w = record w { limits = limits }

abbrev pub left_global : Option Semaphore → World × Reply → World × Reply
left_global none (w, r) = (w, no_reply)
left_global (some s) (w, r) = (set_limits (record w.limits { global = s }) w, r)

-- The end of a handler: the deferred release of the global semaphore.
unfoldable pub leave_global : World × Reply → World × Reply
leave_global (w, r) = left_global (release w.limits.global) (w, r)

-- st.limits.global.Acquire(), with its deferred Release
unfoldable pub with_global : Handler → Handler → Handler
unfolding acquire leave_global
with_global refused served w =
    let (s, ok) = acquire w.limits.global in
    if ok then leave_global (served (set_limits (record w.limits { global = s }) w)) else refused w

abbrev pub left_token : Option PerKey → World × Reply → World × Reply
left_token none (w, r) = (w, no_reply)
left_token (some p) (w, r) = (set_limits (record w.limits { per_token = p }) w, r)

unfoldable pub leave_token : String → World × Reply → World × Reply
leave_token id (w, r) = left_token (release_key w.limits.per_token id) (w, r)

-- st.limits.perToken.Get(id) and sem.Acquire(), with its deferred Release
unfoldable pub with_token : String → Handler → Handler → Handler
unfolding acquire_key leave_token
with_token id refused served w =
    let (p, ok) = acquire_key w.limits.per_token id in
    let entered = set_limits (record w.limits { per_token = p }) w in
    if ok then leave_token id (served entered) else refused entered

abbrev pub left_sub_ip : Option PerKey → World × Reply → World × Reply
left_sub_ip none (w, r) = (w, no_reply)
left_sub_ip (some p) (w, r) = (set_limits (record w.limits { per_sub_ip = p }) w, r)

unfoldable pub leave_sub_ip : String → World × Reply → World × Reply
leave_sub_ip ip (w, r) = left_sub_ip (release_key w.limits.per_sub_ip ip) (w, r)

-- st.limits.perSubIP.Get(ip) and sem.Acquire(), with its deferred Release
unfoldable pub with_sub_ip : String → Handler → Handler → Handler
unfolding acquire_key leave_sub_ip
with_sub_ip ip refused served w =
    let (p, ok) = acquire_key w.limits.per_sub_ip ip in
    let entered = set_limits (record w.limits { per_sub_ip = p }) w in
    if ok then leave_sub_ip ip (served entered) else refused entered

-- st.limits.tokenRate.Allow(id)
unfoldable pub with_token_rate : ℕ → String → Handler → Handler → Handler
unfolding allow_nilable
with_token_rate now id refused served w =
    let (f, ok) = allow_nilable w.limits.token_rate id now in
    let entered = set_limits (record w.limits { token_rate = f }) w in
    if ok then served entered else refused entered

-- st.limits.subRate.Allow(ip)
unfoldable pub with_sub_rate : ℕ → String → Handler → Handler → Handler
unfolding allow_nilable
with_sub_rate now ip refused served w =
    let (f, ok) = allow_nilable w.limits.sub_rate ip now in
    let entered = set_limits (record w.limits { sub_rate = f }) w in
    if ok then served entered else refused entered

-- lockResource: the key's mutex is made on first use; a request that comes alone finds it free, and its
-- deferred unlock leaves it in the map.
unfoldable pub with_lock : String → Handler → Handler
with_lock key served w =
    served (if contains w.locks key then w else record w { locks = key ∷ w.locks })

abbrev pub sent_body : RequestBody → String
sent_body (body_text s) = s
sent_body _ = ""

-- st.proxy.RoundTrip, after which `served` goes on with the result
unfoldable pub with_upstream :
    Env → Proxy → Request → String → String → Bool → (RoundTripResult → Handler) → Handler
with_upstream env p r path raw_query public_sub served w =
    let body = sent_body r.body in
    let request =
      upstream_request env.base_path p r.raw.method r.raw.header body path raw_query public_sub in
    served
      (round_trip (env.send w.sent) env.base_path p r.raw.method r.raw.header body path raw_query
        public_sub)
      (record w { sent = request ∷ w.sent })
