-- ===== src/Server/Login/IdToken.antt =====
-- internal/server/server.go: telegramActorIDFromIDToken.
use remnaguard.Prelude.{
  ℕ, ◌+◌, String, Bool, not, Option, none, some, List, [], ◌∷◌, ◌&&◌, ◌||◌, if◌then◌else◌, ◌==◌,
  ◌+++◌, split, trim_space, ℤ, pos, lebℤ,
}
use remnaguard.Config.{Config}
use remnaguard.Json.{Json, Fields}
use remnaguard.Auth.Session.{unix}
use remnaguard.Server.Request.{Outcome, ok, err}
use remnaguard.Server.Login.Members.{text_member, int_member, raw_member, members_of}
use remnaguard.Server.Login.Keys.{
  LoginEnv, oauth_invalid, audience_contains, telegram_id_claim_string, fetch_telegram_jwk,
}

pub record IdClaims : Type 0 where
  pub issuer : String
  pub audience : Option Json
  pub expires_at : ℤ
  pub issued_at : ℤ
  pub nonce : String
  pub id : Option Json

abbrev claims_of :
    Option String
    → Option Json
    → Option ℤ
    → Option ℤ
    → Option String
    → Option Json
    → Option IdClaims
claims_of (some issuer) audience (some expires_at) (some issued_at) (some nonce) id = some (record {
  issuer = issuer;
  audience = audience;
  expires_at = expires_at;
  issued_at = issued_at;
  nonce = nonce;
  id = id;
})
claims_of _ _ _ _ _ _ = none

abbrev pub claims_of_members : Option Fields → Option IdClaims
claims_of_members none = none
claims_of_members (some fs) =
    claims_of (text_member "iss" (some "") fs) (raw_member "aud" none fs)
      (int_member "exp" (some (pos 0)) fs) (int_member "iat" (some (pos 0)) fs)
      (text_member "nonce" (some "") fs) (raw_member "id" none fs)

abbrev pub telegram_issuer : String
telegram_issuer = "https://oauth.telegram.org"

-- The test of the claims.
unfoldable pub id_claims_hold : LoginEnv → Config → String → IdClaims → Bool
unfolding audience_contains
id_claims_hold l cfg nonce c =
    c.issuer == telegram_issuer
    && audience_contains c.audience (l.getenv cfg.panel_facade.telegram.client_id_env)
    && not (lebℤ c.expires_at (pos (unix l.now)))
    && lebℤ c.issued_at (pos (unix (l.now + 60_000_000_000)))
    && c.nonce == nonce

abbrev pub id_or_error : Option String → Outcome String
id_or_error none = err oauth_invalid
id_or_error (some id) = ok id

abbrev pub signed_id :
    LoginEnv → IdClaims → String → Option (List ℕ) → Outcome (List ℕ × ℕ) → Outcome String
signed_id l c signed signature (err e) = err e
signed_id l c signed none (ok key) = err oauth_invalid
signed_id l c signed (some signature) (ok (n, e)) =
    if not (l.verify_rs256 n e signed signature)
    then err oauth_invalid
    else id_or_error (telegram_id_claim_string l.itoa c.id)

abbrev pub claimed_id :
    LoginEnv
    → Config
    → String
    → String
    → String
    → Option (List ℕ)
    → Option IdClaims
    → Outcome String
claimed_id l cfg nonce kid signed signature none = err oauth_invalid
claimed_id l cfg nonce kid signed signature (some c) =
    if not (id_claims_hold l cfg nonce c)
    then err oauth_invalid
    else signed_id l c signed signature (fetch_telegram_jwk l kid)

abbrev kid_of : Option String → Option String → Option String
kid_of (some alg) (some kid) =
    if alg == "RS256" && not (trim_space kid == "") then some kid else none
kid_of _ _ = none

abbrev pub kid_of_members : Option Fields → Option String
kid_of_members none = none
kid_of_members (some fs) = kid_of (text_member "alg" (some "") fs) (text_member "kid" (some "") fs)

-- The JSON value that a part of a token encodes.
abbrev pub part_value : LoginEnv → String → Option Json
part_value l part = elim (l.decode_base64 part) [ none ↦ none | some bytes ↦ l.text_of bytes ]

abbrev pub id_of_kid :
    LoginEnv → Config → String → String → String → String → Option String → Outcome String
id_of_kid l cfg nonce header payload signature none = err oauth_invalid
id_of_kid l cfg nonce header payload signature (some kid) =
    claimed_id l cfg nonce kid (header +++ "." +++ payload) (l.decode_base64 signature)
      (claims_of_members (members_of (part_value l payload)))

abbrev pub id_of_parts : LoginEnv → Config → String → List String → Outcome String
id_of_parts l cfg nonce (header ∷ payload ∷ signature ∷ []) =
    if header == "" || payload == "" || signature == ""
    then err oauth_invalid
    else id_of_kid l cfg nonce header payload signature
        (kid_of_members (members_of (part_value l header)))
id_of_parts l cfg nonce _ = err oauth_invalid

-- telegramActorIDFromIDToken
unfoldable pub telegram_actor_id_from_id_token :
    LoginEnv → Config → String → String → Outcome String
unfolding fetch_telegram_jwk id_claims_hold telegram_id_claim_string raw_member int_member
telegram_actor_id_from_id_token l cfg id_token nonce = id_of_parts l cfg nonce (split b'.' id_token)
