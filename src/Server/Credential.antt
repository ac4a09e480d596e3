-- ===== src/Server/Credential.antt =====
-- internal/server/server.go: resolveRequestCredential, which authenticates a request. The environment,
-- the digest of a secret, and what internal/auth takes as parameters are parameters here.
use remnaguard.Prelude.{
  ℕ, String, Bool, true, not, Option, none, some, if◌then◌else◌, ◌≡◌, ◌⊎◌, inl, inr, refl, subst,
  arith, find, Bool-cases,
}
use remnaguard.Config.{Config, TokenPolicy, Credential, PanelFacadeTelegramActor, find_credential}
use remnaguard.Config.Credentials.{IsLive, find_credential_iff}
use remnaguard.Header.{Header, header_get}
use remnaguard.Auth.Bearer.{Parsed, parse_bearer, verify, bearer_token}
use remnaguard.Auth.Session.{
  PanelSessionClaims, validate_panel_session, IsSession, validate_panel_session-IsSession,
}
use remnaguard.Policy.Actor.{
  Resolved, resolved, unresolved, resolve_telegram_actor_credential, IsMapped,
  resolve_telegram_actor_credential-IsMapped,
}

pub record PanelAuditContext : Type 0 where
  pub actor_type : String
  pub actor_id : String
  pub credential_id : String
  pub display_name : String
  pub auth_event_type : String

pub record RequestAuthError : Type 0 where
  pub reason : String
  pub status : ℕ
  pub credential_id : String

-- What resolveRequestCredential returns, with the panel's audit context that it sets on the request.
pub data AuthResult : Type 0 where
  authenticated : TokenPolicy → Credential → Option PanelAuditContext → AuthResult
  rejected : RequestAuthError → Option PanelAuditContext → AuthResult

abbrev auth_error : String → ℕ → String → RequestAuthError
auth_error reason status id = record { reason = reason; status = status; credential_id = id }

abbrev actor_credential : Option PanelFacadeTelegramActor → String
actor_credential none = ""
actor_credential (some a) = a.credential_id

abbrev actor_name : Option PanelFacadeTelegramActor → String
actor_name none = ""
actor_name (some a) = a.display_name

abbrev session_context : String → String → Option PanelFacadeTelegramActor → PanelAuditContext
session_context id credential_id actor = record {
  actor_type = "telegram";
  actor_id = id;
  credential_id = credential_id;
  display_name = actor_name actor;
  auth_event_type = "session";
}

abbrev of_actor : String → Option PanelFacadeTelegramActor → Resolved → AuthResult
of_actor id actor (resolved tok cred) =
    authenticated tok cred (some (session_context id cred.id actor))
of_actor id actor (unresolved e) =
    rejected (auth_error "panel_auth_denied" 403 "")
      (some (session_context id (actor_credential actor) actor))

abbrev of_claims : Config → Bool → Option PanelSessionClaims → AuthResult
of_claims cfg has_actors none = rejected (auth_error "invalid_token" 401 "") none
of_claims cfg has_actors (some claims) =
    of_actor claims.telegram_actor_id
      (find claims.telegram_actor_id cfg.panel_facade.actors.telegram)
      (resolve_telegram_actor_credential cfg has_actors claims.telegram_actor_id)

authenticated-inj :
    (t u : TokenPolicy) (k l : Credential) (a b : Option PanelAuditContext)
    → authenticated t k a ≡ authenticated u l b
    → (t ≡ u) × (k ≡ l)
authenticated-inj t u k l a b e = (ground (arith, e), ground (arith, e))

of_actor_lem :
    (id : String) (actor : Option PanelFacadeTelegramActor) (r : Resolved) (tok : TokenPolicy)
    (cred : Credential) (ctx : Option PanelAuditContext)
    → of_actor id actor r ≡ authenticated tok cred ctx
    → r ≡ resolved tok cred
of_actor_lem id actor (resolved t k) tok cred ctx h =
    let (a, b) = authenticated-inj t tok k cred _ ctx h in λ i. resolved (a i) (b i)
of_actor_lem id actor (unresolved e) tok cred ctx h = absurd (ground (arith, h))

module _ (digest : String → String → String) (sign : String → String → String)
    (encode : PanelSessionClaims → String) (decode : String → Option PanelSessionClaims)
    (getenv : String → String) where
  abbrev pub of_credential : String → String → Option (TokenPolicy × Credential) → AuthResult
  of_credential id secret none = rejected (auth_error "invalid_token" 401 id) none
  of_credential id secret (some (tok, cred)) =
      if not (verify digest secret (getenv "REMNAGUARD_TOKEN_PEPPER") cred)
      then rejected (auth_error "invalid_token" 401 id) none
      else authenticated tok cred none

  abbrev of_bearer : Config → Bool → ℕ → Option String → AuthResult
  of_bearer cfg has_actors now none = rejected (auth_error "auth_required" 401 "") none
  of_bearer cfg has_actors now (some token) =
      of_claims cfg has_actors
        (validate_panel_session sign encode decode getenv cfg.panel_facade token now)

  abbrev of_parsed : Config → Bool → ℕ → String → Option Parsed → AuthResult
  of_parsed cfg has_actors now authorization (some p) =
      of_credential p.credential_id p.secret (find_credential cfg p.credential_id)
  of_parsed cfg has_actors now authorization none =
      if not cfg.panel_facade.enabled
      then rejected (auth_error "auth_required" 401 "") none
      else of_bearer cfg has_actors now (bearer_token authorization)

  -- resolveRequestCredential
  unfoldable pub resolve_request_credential : Config → Bool → Header → ℕ → AuthResult
  resolve_request_credential cfg has_actors h now =
      let authorization = header_get h "Authorization" in
      of_parsed cfg has_actors now authorization (parse_bearer authorization)

  -- The secret of a bearer was verified against a live credential with the bearer's id.
  pub record HasSecret (cfg : Config) (h : Header) (tok : TokenPolicy) (cred : Credential)
      : Type 0 where
    pub bearer : Parsed
    pub given : parse_bearer (header_get h "Authorization") ≡ some bearer
    pub live : IsLive cfg bearer.credential_id tok cred
    pub verified : verify digest bearer.secret (getenv "REMNAGUARD_TOKEN_PEPPER") cred ≡ true

  -- A valid panel session is of an actor that is mapped to the live credential.
  pub record HasSession (cfg : Config) (h : Header) (now : ℕ) (tok : TokenPolicy)
      (cred : Credential) : Type 0 where
    pub token : String
    pub given : bearer_token (header_get h "Authorization") ≡ some token
    pub claims : PanelSessionClaims
    pub session : IsSession sign encode decode getenv cfg.panel_facade token now claims
    pub actor : IsMapped cfg claims.telegram_actor_id tok cred

  of_credential_lem :
      (id secret : String) (o : Option (TokenPolicy × Credential)) (tok : TokenPolicy)
      (cred : Credential) (ctx : Option PanelAuditContext)
      → of_credential id secret o ≡ authenticated tok cred ctx
      → (o ≡ some (tok, cred))
        × (verify digest secret (getenv "REMNAGUARD_TOKEN_PEPPER") cred ≡ true)
  of_credential_lem id secret none tok cred ctx h = absurd (ground (arith, h))
  of_credential_lem id secret (some (t, k)) tok cred ctx h =
      let checked = verify digest secret (getenv "REMNAGUARD_TOKEN_PEPPER") in
      elim (Bool-cases (checked k)) [
        | inl e ↦
            let (same_t, same_k) = authenticated-inj t tok k cred none ctx (ground (arith, h, e)) in
            (λ i. some (same_t i, same_k i), subst (λ x. checked x ≡ true) same_k e)
        | inr e ↦ absurd (ground (arith, h, e))
      ]

  of_claims_lem :
      (cfg : Config) (has_actors : Bool) (o : Option PanelSessionClaims) (tok : TokenPolicy)
      (cred : Credential) (ctx : Option PanelAuditContext)
      → of_claims cfg has_actors o ≡ authenticated tok cred ctx
      → (c : PanelSessionClaims) × (o ≡ some c) × IsMapped cfg c.telegram_actor_id tok cred
  of_claims_lem cfg has_actors none tok cred ctx h = absurd (ground (arith, h))
  of_claims_lem cfg has_actors (some c) tok cred ctx h = (
    c,
    refl,
    resolve_telegram_actor_credential-IsMapped cfg has_actors c.telegram_actor_id tok cred (
        of_actor_lem c.telegram_actor_id (find c.telegram_actor_id cfg.panel_facade.actors.telegram)
          _ tok cred ctx h),
  )

  of_bearer_lem :
      (cfg : Config) (has_actors : Bool) (h : Header) (now : ℕ) (o : Option String)
      (tok : TokenPolicy) (cred : Credential) (ctx : Option PanelAuditContext)
      → bearer_token (header_get h "Authorization") ≡ o
      → of_bearer cfg has_actors now o ≡ authenticated tok cred ctx
      → HasSession cfg h now tok cred
  of_bearer_lem cfg has_actors h now none tok cred ctx given r = absurd (ground (arith, r))
  of_bearer_lem cfg has_actors h now (some token) tok cred ctx given r =
      let (c, found, mapped) = of_claims_lem cfg has_actors _ tok cred ctx r in
      record {
        token = token;
        given = given;
        claims = c;
        session =
            validate_panel_session-IsSession sign encode decode getenv cfg.panel_facade token now c
              found;
        actor = mapped;
      }

  of_parsed_lem :
      (cfg : Config) (has_actors : Bool) (h : Header) (now : ℕ) (o : Option Parsed)
      (tok : TokenPolicy) (cred : Credential) (ctx : Option PanelAuditContext)
      → parse_bearer (header_get h "Authorization") ≡ o
      → of_parsed cfg has_actors now (header_get h "Authorization") o ≡ authenticated tok cred ctx
      → HasSecret cfg h tok cred ⊎ HasSession cfg h now tok cred
  of_parsed_lem cfg has_actors h now (some p) tok cred ctx given r =
      let (found, ok) = of_credential_lem p.credential_id p.secret _ tok cred ctx r in
      inl (record {
        bearer = p;
        given = given;
        live = (find_credential_iff cfg p.credential_id).0 tok cred found;
        verified = ok;
      })
  of_parsed_lem cfg has_actors h now none tok cred ctx given r =
      elim (Bool-cases cfg.panel_facade.enabled) [
        | inl e ↦
            inr (of_bearer_lem cfg has_actors h now _ tok cred ctx refl (ground (arith, r, e)))
        | inr e ↦ absurd (ground (arith, r, e))
      ]

  -- A request is authenticated as a token only with the secret of one of the token's live credentials, or
  -- with a valid panel session of an actor that the configuration maps to such a credential.
  pub resolve_request_credential_lem :
      (cfg : Config) (has_actors : Bool) (h : Header) (now : ℕ) (tok : TokenPolicy)
      (cred : Credential) (ctx : Option PanelAuditContext)
      → resolve_request_credential cfg has_actors h now ≡ authenticated tok cred ctx
      → HasSecret cfg h tok cred ⊎ HasSession cfg h now tok cred
  unfolding resolve_request_credential
  resolve_request_credential_lem cfg has_actors h now tok cred ctx r =
      of_parsed_lem cfg has_actors h now (parse_bearer (header_get h "Authorization")) tok cred ctx
        refl r
