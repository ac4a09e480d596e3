-- ===== src/Server/Env.antt =====
-- internal/server/server.go: what the handlers call of the Go library, the system and the upstream, each a
-- function that the definitions take. Texts that the library refuses give none.
use remnaguard.Prelude.{ℕ, String, Bool, Option, List, ℤ}
use remnaguard.Auth.Session.{PanelSessionClaims}
use remnaguard.Json.{Json}
use remnaguard.Proxy.{UpstreamRequest, RoundTripResult}

-- `first_value` is the value at the start of a text with its members in their order, `whole_value` that of
-- a text with nothing after it, and `decoded_value` what a decoder makes of the start of a text, each key
-- once. `write_json` and `itoa` print a value and a number. `send` is what the upstream answers to a request after those before it,
-- the latest first. `escaped_path` is URL.EscapedPath of a request's target. `media_type` is the type of mime.ParseMediaType.
pub record Env : Type 0 where
  pub now : ℕ
  pub path_unescape : String → Option String
  pub query_parses : String → Bool
  pub parse_query : String → Option (List (String × List String))
  pub encode_query : List (String × List String) → String
  pub digest : String → String → String
  pub sign : String → String → String
  pub encode_claims : PanelSessionClaims → String
  pub decode_claims : String → Option PanelSessionClaims
  pub getenv : String → String
  pub matches_regex : String → String → Option Bool
  pub number_int : String → ℤ
  pub scan_int : String → ℤ
  pub media_type : String → Option String
  pub first_value : String → Option Json
  pub whole_value : String → Option Json
  pub decoded_value : String → Option Json
  pub write_json : Json → String
  pub itoa : ℕ → String
  pub escaped_path : String → String
  pub base_path : String
  pub send : List UpstreamRequest → UpstreamRequest → RoundTripResult
