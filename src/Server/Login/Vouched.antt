-- ===== src/Server/Login/Vouched.antt =====
-- internal/server/server.go: what telegramActorIDFromIDToken has checked of a token that it accepts.
use remnaguard.Prelude.{
  ℕ, ◌+◌, String, true, false, Option, none, some, List, [], ◌∷◌, ◌+++◌, ◌≡◌, refl, arith, eq_iff,
  Bool-cases, inl, inr, split, pos, lebℤ,
}
use remnaguard.Config.{Config}
use remnaguard.Auth.Session.{unix}
use remnaguard.Server.Request.{Outcome, ok, err}
use remnaguard.Server.Login.Members.{members_of}
use remnaguard.Server.Login.Keys.{
  LoginEnv, audience_contains, telegram_id_claim_string, fetch_telegram_jwk,
}
use remnaguard.Server.Login.IdToken.{
  IdClaims, telegram_issuer, id_claims_hold, claims_of_members, part_value, kid_of_members,
  id_or_error, signed_id, claimed_id, id_of_kid, id_of_parts, telegram_actor_id_from_id_token,
}

-- A token whose first two parts were signed by Telegram's key that its header names, with claims from Telegram
-- for this client, that have neither expired nor been issued more than a minute ahead, carry the
-- nonce of the login, and name the actor.
pub record IsVouched (l : LoginEnv) (cfg : Config) (id_token nonce id : String) : Type 0 where
  pub header : String
  pub payload : String
  pub signature : String
  pub parts : split b'.' id_token ≡ header ∷ payload ∷ signature ∷ []
  pub kid : String
  pub named : kid_of_members (members_of (part_value l header)) ≡ some kid
  pub modulus : List ℕ
  pub exponent : ℕ
  pub key : fetch_telegram_jwk l kid ≡ ok (modulus, exponent)
  pub bytes : List ℕ
  pub decoded : l.decode_base64 signature ≡ some bytes
  pub signed : l.verify_rs256 modulus exponent (header +++ "." +++ payload) bytes ≡ true
  pub claims : IdClaims
  pub claimed : claims_of_members (members_of (part_value l payload)) ≡ some claims
  pub issuer : claims.issuer ≡ telegram_issuer
  pub audience :
      audience_contains claims.audience (l.getenv cfg.panel_facade.telegram.client_id_env) ≡ true
  pub unexpired : lebℤ claims.expires_at (pos (unix l.now)) ≡ false
  pub not_ahead : lebℤ claims.issued_at (pos (unix (l.now + 60_000_000_000))) ≡ true
  pub nonce_same : claims.nonce ≡ nonce
  pub actor : telegram_id_claim_string l.itoa claims.id ≡ some id

id_lem : (o : Option String) (id : String) → id_or_error o ≡ ok id → o ≡ some id
id_lem none id h = absurd (ground (arith, h))
id_lem (some s) id h = ground (arith, h)

signed_lem :
    (l : LoginEnv) (c : IdClaims) (text id : String) (sig : Option (List ℕ))
    (key : Outcome (List ℕ × ℕ))
    → signed_id l c text sig key ≡ ok id
    → (n : List ℕ) × (e : ℕ) × (bytes : List ℕ) × (key ≡ ok (n, e))
      × (sig ≡ some bytes)
      × (l.verify_rs256 n e text bytes ≡ true)
      × (telegram_id_claim_string l.itoa c.id ≡ some id)
signed_lem l c text id sig (err e) h = absurd (ground (arith, h))
signed_lem l c text id none (ok key) h = absurd (ground (arith, h))
signed_lem l c text id (some bytes) (ok (n, e)) h =
    elim (Bool-cases (l.verify_rs256 n e text bytes)) [
      | inl v ↦ (
        n,
        e,
        bytes,
        refl,
        refl,
        v,
        id_lem (telegram_id_claim_string l.itoa c.id) id (ground (arith, h, v)),
      )
      | inr v ↦ absurd (ground (arith, h, v))
    ]

claimed_lem :
    (l : LoginEnv) (cfg : Config) (nonce kid text id : String) (sig : Option (List ℕ))
    (o : Option IdClaims)
    → claimed_id l cfg nonce kid text sig o ≡ ok id
    → (c : IdClaims) × (o ≡ some c)
      × (id_claims_hold l cfg nonce c ≡ true)
      × (signed_id l c text sig (fetch_telegram_jwk l kid) ≡ ok id)
claimed_lem l cfg nonce kid text id sig none h = absurd (ground (arith, h))
claimed_lem l cfg nonce kid text id sig (some c) h =
    elim (Bool-cases (id_claims_hold l cfg nonce c)) [
      | inl e ↦ (c, refl, e, ground (arith, h, e))
      | inr e ↦ absurd (ground (arith, h, e))
    ]

holds_lem :
    (l : LoginEnv) (cfg : Config) (nonce : String) (c : IdClaims)
    → id_claims_hold l cfg nonce c ≡ true
    → (c.issuer ≡ telegram_issuer)
      × (audience_contains c.audience (l.getenv cfg.panel_facade.telegram.client_id_env) ≡ true)
      × (lebℤ c.expires_at (pos (unix l.now)) ≡ false)
      × (lebℤ c.issued_at (pos (unix (l.now + 60_000_000_000))) ≡ true)
      × (c.nonce ≡ nonce)
unfolding id_claims_hold
holds_lem l cfg nonce c h = (
  (eq_iff _ _).0 (ground (arith, h)),
  ground (arith, h),
  ground (arith, h),
  ground (arith, h),
  (eq_iff _ _).0 (ground (arith, h)),
)

kid_lem :
    (l : LoginEnv) (cfg : Config) (id_token nonce header payload signature id : String)
    (o : Option String)
    → split b'.' id_token ≡ header ∷ payload ∷ signature ∷ []
    → kid_of_members (members_of (part_value l header)) ≡ o
    → id_of_kid l cfg nonce header payload signature o ≡ ok id
    → IsVouched l cfg id_token nonce id
kid_lem l cfg id_token nonce header payload signature id none parts named h =
    absurd (ground (arith, h))
kid_lem l cfg id_token nonce header payload signature id (some kid) parts named h =
    let (c, claimed, holds, rest) =
      claimed_lem l cfg nonce kid _ id (l.decode_base64 signature) _ h in
    let (n, e, bytes, key, decoded, signed, actor) = signed_lem l c _ id _ _ rest in
    let (issuer, audience, unexpired, not_ahead, same) = holds_lem l cfg nonce c holds in
    record {
      header = header;
      payload = payload;
      signature = signature;
      parts = parts;
      kid = kid;
      named = named;
      modulus = n;
      exponent = e;
      key = key;
      bytes = bytes;
      decoded = decoded;
      signed = signed;
      claims = c;
      claimed = claimed;
      issuer = issuer;
      audience = audience;
      unexpired = unexpired;
      not_ahead = not_ahead;
      nonce_same = same;
      actor = actor;
    }

parts_lem :
    (l : LoginEnv) (cfg : Config) (id_token nonce id : String) (parts : List String)
    → split b'.' id_token ≡ parts
    → id_of_parts l cfg nonce parts ≡ ok id
    → IsVouched l cfg id_token nonce id
parts_lem l cfg id_token nonce id (header ∷ payload ∷ signature ∷ []) same h =
    kid_lem l cfg id_token nonce header payload signature id
      (kid_of_members (members_of (part_value l header))) same refl (ground (arith, h))
parts_lem l cfg id_token nonce id _ same h = absurd (ground (arith, h))

-- An id token that telegramActorIDFromIDToken accepts is vouched for, as IsVouched says it: signed by the key of
-- Telegram that its header names, from Telegram for this client, valid now, with the nonce of the
-- login, and naming the actor that is returned.
pub telegram_actor_id_from_id_token-IsVouched :
    (l : LoginEnv) (cfg : Config) (id_token nonce id : String)
    → telegram_actor_id_from_id_token l cfg id_token nonce ≡ ok id
    → IsVouched l cfg id_token nonce id
unfolding telegram_actor_id_from_id_token
telegram_actor_id_from_id_token-IsVouched l cfg id_token nonce id h =
    parts_lem l cfg id_token nonce id (split b'.' id_token) refl h
