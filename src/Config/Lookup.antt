-- ===== src/Config/Lookup.antt =====
-- internal/config/config.go: lookups in a configuration.
use remnaguard.Prelude.{
  String, Bool, false, Option, none, some, List, [], ◌∷◌, if◌then◌else◌, ◌&&◌, ◌||◌, ◌==◌, not,
}
use remnaguard.Config.Types.{
  Config, TokenPolicy, Credential, CompatibilityConfig, WriteSafetyConfig,
}

-- `contains` and the loops that look for one text in a list
unfoldable pub contains : List String → String → Bool
contains [] want = false
contains (x ∷ xs) want = x == want || contains xs want

-- The inner loop of FindCredential.
unfoldable pub enabled_credential : String → List Credential → Option Credential
enabled_credential id [] = none
enabled_credential id (c ∷ cs) =
    if c.id == id && not c.disabled then some c else enabled_credential id cs

abbrev pub with_token : TokenPolicy → Option Credential → Option (TokenPolicy × Credential)
with_token t none = none
with_token t (some c) = some (t, c)

abbrev pub first_of_two {ℓ} : {A : Type ℓ} → Option A → Option A → Option A
first_of_two none b = b
first_of_two (some a) b = some a

unfoldable pub find_in_tokens : String → List TokenPolicy → Option (TokenPolicy × Credential)
unfolding enabled_credential
find_in_tokens id [] = none
find_in_tokens id (t ∷ ts) =
    let rest = find_in_tokens id ts in
    if t.disabled
    then rest
    else first_of_two (with_token t (enabled_credential id t.credentials)) rest

-- FindCredential
unfoldable pub find_credential : Config → String → Option (TokenPolicy × Credential)
unfolding find_in_tokens
find_credential c id = find_in_tokens id c.tokens

unfoldable pub token_with_id : String → List TokenPolicy → Option TokenPolicy
token_with_id id [] = none
token_with_id id (t ∷ ts) = if t.id == id then some t else token_with_id id ts

-- FindToken
unfoldable pub find_token : Config → String → Option TokenPolicy
unfolding token_with_id
find_token c id = token_with_id id c.tokens

unfoldable pub effective_version : CompatibilityConfig → String
effective_version c = if c.assume_version == "" then c.remnawave_version else c.assume_version

unfoldable pub restricted_writes_enabled : WriteSafetyConfig → Bool
restricted_writes_enabled c = c.enable_restricted_writes || c.enable_tenant_writes_legacy
