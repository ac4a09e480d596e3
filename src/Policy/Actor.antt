-- ===== src/Policy/Actor.antt =====
-- internal/policy/actor_resolver.go: the credential of a panel's actor.
use remnaguard.Prelude.{
  String, Bool, true, false, not, Option, none, some, List, [], ◌∷◌, ◌||◌, if◌then◌else◌, ◌==◌, ◌≡◌,
  refl, arith, has_prefix, trim_space, find, Bool-cases, inl, inr,
}
use remnaguard.Config.{Config, TokenPolicy, Credential, PanelFacadeTelegramActor, find_credential}
use remnaguard.Config.Credentials.{IsLive, find_credential_iff}

pub data ResolverError : Type 0 where
  invalid_config unmapped_actor missing_credential disabled_credential : ResolverError

pub data Resolved : Type 0 where
  resolved : TokenPolicy → Credential → Resolved
  unresolved : ResolverError → Resolved

-- The loops of credentialExistsDisabled, none where no credential has the id.
unfoldable pub disabled_in : Bool → String → List Credential → Option Bool
disabled_in token_disabled id [] = none
disabled_in token_disabled id (c ∷ cs) =
    let rest = disabled_in token_disabled id cs in
    if c.id == id then some (token_disabled || c.disabled) else rest

abbrev or_next : Option Bool → Bool → Bool
or_next none next = next
or_next (some b) next = b

unfoldable pub exists_disabled : String → List TokenPolicy → Bool
unfolding disabled_in
exists_disabled id [] = false
exists_disabled id (t ∷ ts) =
    or_next (disabled_in t.disabled id t.credentials) (exists_disabled id ts)

-- credentialExistsDisabled
unfoldable pub credential_exists_disabled : Config → String → Bool
unfolding exists_disabled
credential_exists_disabled cfg id = exists_disabled id cfg.tokens

abbrev resolve_found : Config → String → Option (TokenPolicy × Credential) → Resolved
resolve_found cfg id (some (tok, cred)) = resolved tok cred
resolve_found cfg id none =
    if credential_exists_disabled cfg id
    then unresolved disabled_credential
    else unresolved missing_credential

abbrev resolve_actor : Config → Option PanelFacadeTelegramActor → Resolved
resolve_actor cfg none = unresolved unmapped_actor
resolve_actor cfg (some actor) =
    let id = trim_space actor.credential_id in
    if id == "" || has_prefix id "rg_"
    then unresolved invalid_config
    else resolve_found cfg id (find_credential cfg id)

-- ResolveTelegramActorCredential, for a configuration that is not nil; a nil map of actors finds no
-- actor, and its error is that of the configuration.
unfoldable pub resolve_telegram_actor_credential : Config → Bool → String → Resolved
resolve_telegram_actor_credential cfg has_actors actor_id =
    let id = trim_space actor_id in
    if not cfg.panel_facade.enabled || not has_actors
    then unresolved invalid_config
    else if id == ""
    then unresolved unmapped_actor
    else resolve_actor cfg (find id cfg.panel_facade.actors.telegram)

-- What a resolution rests on: the panel is on, the actor is mapped to the credential's id, and the
-- credential is live.
pub record IsMapped (cfg : Config) (actor_id : String) (tok : TokenPolicy) (cred : Credential)
    : Type 0 where
  pub enabled : cfg.panel_facade.enabled ≡ true
  pub actor : PanelFacadeTelegramActor
  pub mapped : find (trim_space actor_id) cfg.panel_facade.actors.telegram ≡ some actor
  pub live : IsLive cfg (trim_space actor.credential_id) tok cred

resolve_found_lem :
    (cfg : Config) (id : String) (o : Option (TokenPolicy × Credential)) (tok : TokenPolicy)
    (cred : Credential)
    → resolve_found cfg id o ≡ resolved tok cred
    → o ≡ some (tok, cred)
resolve_found_lem cfg id none tok cred h = absurd (ground (arith, h))
resolve_found_lem cfg id (some (t, c)) tok cred h = ground (arith, h)

resolve_actor_lem :
    (cfg : Config) (o : Option PanelFacadeTelegramActor) (tok : TokenPolicy) (cred : Credential)
    → resolve_actor cfg o ≡ resolved tok cred
    → (a : PanelFacadeTelegramActor) × (o ≡ some a)
      × (find_credential cfg (trim_space a.credential_id) ≡ some (tok, cred))
resolve_actor_lem cfg none tok cred h = absurd (ground (arith, h))
resolve_actor_lem cfg (some a) tok cred h =
    let id = trim_space a.credential_id in
    (
      a,
      refl,
      elim (Bool-cases (id == "" || has_prefix id "rg_")) [
        | inl e ↦ absurd (ground (arith, h, e))
        | inr e ↦ resolve_found_lem cfg id (find_credential cfg id) tok cred (ground (arith, h, e))
      ],
    )

-- A credential that ResolveTelegramActorCredential gives an actor is a live credential of a live token,
-- with the id that the configuration maps the actor to, and the panel is on.
pub resolve_telegram_actor_credential-IsMapped :
    (cfg : Config) (has_actors : Bool) (actor_id : String) (tok : TokenPolicy) (cred : Credential)
    → resolve_telegram_actor_credential cfg has_actors actor_id ≡ resolved tok cred
    → IsMapped cfg actor_id tok cred
unfolding resolve_telegram_actor_credential
resolve_telegram_actor_credential-IsMapped cfg has_actors actor_id tok cred h =
    let id = trim_space actor_id in
    let o = find id cfg.panel_facade.actors.telegram in
    let (a, mapped, found) = resolve_actor_lem cfg o tok cred (ground (arith, h)) in
    record {
      enabled = ground (arith, h);
      actor = a;
      mapped = mapped;
      live = (find_credential_iff cfg (trim_space a.credential_id)).0 tok cred found;
    }
