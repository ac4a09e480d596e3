-- ===== src/Lib.antt =====
-- RemnaGuard is a gateway in front of a Remnawave panel's HTTP API. It checks each request's target,
-- query and headers, finds the request's route in a catalog, authenticates a token or a panel session,
-- decides by the token's scopes and constraints, limits rate and concurrency, and passes the request on
-- with the upstream's own bearer. This library models the parts that decide.
--
-- Paths are from the repository's root.
--   Prelude     the shared helpers: Boolean tests, lists, texts as Go's `strings` treats them (on
--               ASCII), association lists, whole numbers
--   RateLimit   internal/ratelimit/limit.go: Semaphore, PerKey, FixedWindow and ParseRate; the state is
--               passed from call to call and the clock's time is an argument
--   Config      internal/config/config.go: the structs (Types), FindCredential and FindToken (Lookup), the
--               header rules (Headers), Validate with its parts (Checks, Parts, Validate), Defaults and Load
--   Disk        what Config.Load and CommandLine use of the file system, and its laws
--   Routes      internal/routes/catalog.go: the catalog with its overrides and its order, compile, Match,
--               validateCatalog and CheckOpenAPIStrict (Openapi)
--   Policy      internal/policy: Decide, and the credential of a panel's actor (Actor)
--   Auth        internal/auth: ParseBearer and Verify (Bearer), the panel's session tokens (Session)
--   Json        a decoded JSON value; what json.Unmarshal makes of one (Unmarshal); and
--               internal/jsonpolicy/jsonpolicy.go (Policy)
--   Remnawave   internal/remnawave/user.go: the users in a response (Decode), OwnsUser (Owns),
--               IsEmptyUserResponse (Empty)
--   Server      internal/server/server.go: effectiveRoute (Effective), resolveRequestCredential
--               (Credential), the store of login attempts panelOAuthStore (OauthStore; Views holds what it
--               promises), filterListNodePaged (ListFilter), the verdict of detectVersion
--               (VersionGuard), NewRuntime and Reload (Runtime);
--               validateBodyPolicy with all it calls (Body: Values, Resources, Policy), the
--               policies on responses (Response: Squads, Pages, Policy); and apiHandler
--               (Handler): the shared state and the limits around a request (World), the panel's
--               replies (Panel), preflight and postWriteVerify (Preflight), the restricted list of
--               users (Listing), handlePublicSub (Subscription) and the stages of apiHandler (Api);
--               and the panel's login, handlePanelAuthFacade (Login: Members, Keys, IdToken, Handlers).
--               Env holds what all of these call of Go's library, the system and the upstream
--   Alerts      internal/alerts/alerts.go: suppressEvent, and the buckets of record, flushDue and
--               flushAll (Defs); the manager with its queue, whose calls and turns are moves
--               (Manager); send with formatMessage (Message)
--   Header      Go's http.Header, keyed by the lower-case name
--   Httputil    internal/httputil/validate.go: ValidateRawRequest, ValidateQuery, StripHopByHop
--   Proxy       internal/proxy/proxy.go: the headers of RoundTrip and WriteResponse, readLimited, New
--   CommandLine cmd/remnaguard/main.go: the commands on a token file (Tokens, Commands), and
--               writeTokenFileWithValidation (Save)
--   Tests       runs of the definitions and uses of the theorems at concrete inputs
-- A request meets these in the order Httputil, RateLimit, Routes, Server (effectiveRoute and
-- resolveRequestCredential), Policy, Server (preflight, with Remnawave for the user that it names, and
-- the body), Proxy, and Server again for the response. Config is read by all of them.
--
-- A stage of apiHandler is a function from the shared state (the limits, the login attempts, the keys
-- that have a lock, and the requests sent to the upstream) to the state after it and a reply, and takes
-- the stage that follows as an argument; a deferred release is what it does with that stage's result.
-- apiHandler takes the panel's login as an argument, for which Login has the function. One request is
-- followed at a time: others show only in the state that it starts from.
--
-- A pattern's regular expression is modelled by what `compile` writes: literal text and runs of a
-- character class between two bounds; the match is decided by structural recursion on the path. All recursion is
-- on texts, lists and JSON values, but for the loop over the pages of a list of users, which runs on fuel
-- for twenty-one turns: its own bound of 20000 users ends it after twenty. Numbers of the configuration
-- are whole numbers without a bound, as none of them is computed with beyond comparisons and a few sums;
-- the numbers of a page, which a query gives, and the times of a session's claims are int64s, whose
-- sums, products and differences wrap around; a slice out of its bounds is a panic.
-- The generation of a Runtime's state wraps at 2 ^ 64.
-- What Go's libraries and the system do (time.ParseDuration, url.Parse, url.PathUnescape,
-- url.ParseQuery, net.ParseIP, the regular expressions of a configuration, the environment, files, the
-- HMAC and the JSON and YAML decoders, the HTTP client) is a parameter of the definitions that call it.
--
-- Not modelled: the bodies of the replies that the gateway writes itself, the audit log, metrics,
-- TLS and HTTP serving, and the command line's flags and output.
pub mod Prelude
pub mod RateLimit
pub mod Disk
pub mod Config
pub mod Routes
pub mod Auth
pub mod Policy
pub mod Server
pub mod Header
pub mod Httputil
pub mod Proxy
pub mod Json
pub mod Remnawave
pub mod Alerts
pub mod CommandLine
pub mod Tests
