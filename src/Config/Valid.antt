-- ===== src/Config/Valid.antt =====
-- internal/config/config.go: what Validate has checked when it accepts a configuration.
use remnaguard.Prelude.{
  ℕ, zero, suc, String, Bool, true, false, not, Option, none, some, List, [], ◌∷◌, ◌++◌, ◌&&◌, ◌||◌,
  ◌==◌, ◌≡◌, refl, arith, eq_iff, any, is_empty, All, map, inl, inr, ◌⊎◌,
}
use remnaguard.Config.Types.{Config, TokenPolicy, Credential}
use remnaguard.Config.Lookup.{contains, effective_version}
use remnaguard.Config.Headers.{protected_outbound_header, protected_response_header}
use remnaguard.Config.Checks.{
  check, first_failure, validate_restricted_write_allowlists, has_user_write_scope,
  has_user_ownership_constraint, known_scope, credentials_error, with_ids, token_error,
  tokens_error, token_checks, validate_restricted_write_allowlists_checks,
}
use remnaguard.Config.Parts.{System}
use remnaguard.Config.Validate.{
  resolve_bearer, validate, public_subs_error, upstream_error, validate_checks, upstream_checks,
  public_subs_checks,
}

-- No id is among those known before it.
abbrev pub NoRepeat : List String → List String → Type 0
NoRepeat seen [] = Unit
NoRepeat seen (x ∷ xs) = (contains seen x ≡ false) × NoRepeat (x ∷ seen) xs

abbrev pub ids_of : List Credential → List String
ids_of [] = []
ids_of (c ∷ cs) = c.id ∷ ids_of cs

abbrev pub credential_ids : List TokenPolicy → List String
credential_ids [] = []
credential_ids (t ∷ ts) = ids_of t.credentials ++ credential_ids ts

abbrev check_at : ℕ → List (Option String) → Option String
check_at n [] = none
check_at zero (c ∷ cs) = c
check_at (suc n) (c ∷ cs) = check_at n cs

pub passed : (n : ℕ) (cs : List (Option String)) → first_failure cs ≡ none → check_at n cs ≡ none
passed n [] h = refl
passed zero (none ∷ cs) h = refl
passed (suc n) (none ∷ cs) h = passed n cs h
passed n (some e ∷ cs) h = absurd (ground (arith, h))

check_passed : (failed : Bool) (message : String) → check failed message ≡ none → failed ≡ false
check_passed true message h = absurd (ground (arith, h))
check_passed false message h = refl

any-false {ℓ} :
    {A : Type ℓ} (p : A → Bool) (xs : List A) → any p xs ≡ false → All (λ x. p x ≡ false) xs
any-false p [] h = tt
any-false p (x ∷ xs) h = (ground (arith, h), any-false p xs (ground (arith, h)))

NoRepeat-credentials :
    (seen : List String) (cs : List Credential) (more : List String)
    → credentials_error seen cs ≡ none
    → NoRepeat (with_ids seen cs) more
    → NoRepeat seen (ids_of cs ++ more)
unfolding credentials_error
NoRepeat-credentials seen [] more h k = k
NoRepeat-credentials seen (c ∷ cs) more h k =
    (ground (arith, h), NoRepeat-credentials (c.id ∷ seen) cs more (ground (arith, h)) k)

-- A token with a scope that writes names what it may write.
pub record IsConfined (tok : TokenPolicy) : Type 0 where
  pub known : All (λ s. known_scope s ≡ true) tok.scopes
  pub users :
      (has_user_write_scope tok
        && is_empty tok.constraints.allowed_users
        && not (has_user_ownership_constraint tok.constraints))
      ≡ false
  pub hosts :
      contains tok.scopes "hosts:write" ≡ true
      → (tok.constraints.allow_all_hosts ≡ true) ⊎ (is_empty tok.constraints.allowed_hosts ≡ false)
  pub nodes :
      contains tok.scopes "nodes:write" ≡ true
      → (tok.constraints.allow_all_nodes ≡ true) ⊎ (is_empty tok.constraints.allowed_nodes ≡ false)
  pub config_profiles :
      contains tok.scopes "config-profiles:write" ≡ true
      → (tok.constraints.allow_all_config_profiles ≡ true)
        ⊎ (is_empty tok.constraints.allowed_config_profiles ≡ false)
  pub subscription_templates :
      contains tok.scopes "subscription-templates:write" ≡ true
      → is_empty tok.constraints.allowed_subscription_templates ≡ false
  pub internal_squads :
      contains tok.scopes "internal-squads:write" ≡ true
      → is_empty tok.constraints.allowed_writable_internal_squads ≡ false
  pub external_squads :
      contains tok.scopes "external-squads:write" ≡ true
      → is_empty tok.constraints.allowed_writable_external_squads ≡ false

known-All :
    (scopes : List String)
    → any (λ s. not (known_scope s)) scopes ≡ false
    → All (λ s. known_scope s ≡ true) scopes
known-All [] h = tt
known-All (s ∷ scopes) h = (ground (arith, h), known-All scopes (ground (arith, h)))

one_of :
    (scope all_allowed none_listed : Bool)
    → (scope && not all_allowed && none_listed) ≡ false
    → scope ≡ true
    → (all_allowed ≡ true) ⊎ (none_listed ≡ false)
one_of scope true none_listed h k = inl refl
one_of scope false none_listed h k = inr (ground (arith, h, k))

both_checked : (a b : Bool) → (a && b) ≡ false → a ≡ true → b ≡ false
both_checked a b h k = ground (arith, h, k)

token_error-IsConfined :
    (regex_compiles : String → Bool) (ids : List String) (tok : TokenPolicy)
    → token_error regex_compiles ids tok ≡ none
    → IsConfined tok × (credentials_error ids tok.credentials ≡ none)
unfolding token_error validate_restricted_write_allowlists
token_error-IsConfined regex_compiles ids tok h =
    let checked = λ (n : ℕ). passed n (token_checks regex_compiles ids tok) h in
    let allowed =
      λ (n : ℕ). passed n (validate_restricted_write_allowlists_checks tok) (checked 1) in
    (
      record {
        known = known-All tok.scopes (check_passed _ _ (checked 0));
        users = check_passed _ _ (allowed 0);
        hosts = one_of _ _ _ (check_passed _ _ (allowed 2));
        nodes = one_of _ _ _ (check_passed _ _ (allowed 3));
        config_profiles = one_of _ _ _ (check_passed _ _ (allowed 1));
        subscription_templates = both_checked _ _ (check_passed _ _ (allowed 4));
        internal_squads = both_checked _ _ (check_passed _ _ (allowed 5));
        external_squads = both_checked _ _ (check_passed _ _ (allowed 6));
      },
      checked 5,
    )

-- The checks of the loop over the tokens at one token.
abbrev tokens_checks :
    (String → Bool)
    → List String
    → List String
    → TokenPolicy
    → List TokenPolicy
    → List (Option String)
tokens_checks regex_compiles token_ids cred_ids t toks =
    check (t.id == "") "token id is required"
    ∷ check (contains token_ids t.id) "duplicate token id"
    ∷ token_error regex_compiles cred_ids t
    ∷ tokens_error regex_compiles (t.id ∷ token_ids) (with_ids cred_ids t.credentials) toks
    ∷ []

tokens_error-valid :
    (regex_compiles : String → Bool) (token_ids cred_ids : List String) (toks : List TokenPolicy)
    → tokens_error regex_compiles token_ids cred_ids toks ≡ none
    → NoRepeat token_ids (map (λ t. t.id) toks)
      × NoRepeat cred_ids (credential_ids toks)
      × All IsConfined toks
unfolding tokens_error
tokens_error-valid regex_compiles token_ids cred_ids [] h = (tt, tt, tt)
tokens_error-valid regex_compiles token_ids cred_ids (t ∷ toks) h =
    let checked = λ (n : ℕ). passed n (tokens_checks regex_compiles token_ids cred_ids t toks) h in
    let (confined, credentials) = token_error-IsConfined regex_compiles cred_ids t (checked 2) in
    let (tokens, ids, others) =
      tokens_error-valid regex_compiles (t.id ∷ token_ids) (with_ids cred_ids t.credentials) toks
        (checked 3) in
    (
      (check_passed _ _ (checked 1), tokens),
      NoRepeat-credentials cred_ids t.credentials (credential_ids toks) credentials ids,
      (confined, others),
    )

-- A configuration with which the gateway may run.
pub record IsValid (sys : System) (cfg : Config) : Type 0 where
  pub bearer : (resolve_bearer sys cfg.upstream == "") ≡ false
  pub version : effective_version cfg.compatibility ≡ "2.8.1"
  pub token_ids : NoRepeat [] (map (λ t. t.id) cfg.tokens)
  pub credentials : NoRepeat [] (credential_ids cfg.tokens)
  pub confined : All IsConfined cfg.tokens
  pub upstream_headers : All (λ e. protected_outbound_header e.0 ≡ false) cfg.upstream.extra_headers
  pub auth_name :
      (cfg.public_subs.auth_header_name == ""
        || not (protected_outbound_header cfg.public_subs.auth_header_name))
      ≡ true
  pub request_names :
      All (λ n. protected_outbound_header n ≡ false) cfg.public_subs.request_header_allowlist
  pub response_names :
      All (λ n. protected_response_header n ≡ false) cfg.public_subs.response_header_allowlist
  pub response_headers :
      All (λ e. protected_response_header e.0 ≡ false) cfg.public_subs.extra_response_headers
  pub public_headers :
      All (λ e. protected_outbound_header e.0 ≡ false) cfg.public_subs.extra_headers

-- A configuration that Validate accepts has a bearer, the supported version, ids of tokens and of
-- credentials that do not repeat, and only known scopes. A token with a scope that writes users has
-- a list of users or an ownership constraint, and one with the write scope of config profiles, hosts,
-- nodes, subscription templates, internal or external squads has the list of those that it may
-- write or, for the first three, the permission for all. No protected name is among the extra
-- headers of the upstream's and the public subscriptions' requests and responses, the allowlists
-- of public subscriptions, and the name of their authorization header.
pub validate-IsValid : (sys : System) (cfg : Config) → validate sys cfg ≡ none → IsValid sys cfg
unfolding validate upstream_error public_subs_error
validate-IsValid sys cfg h =
    let checked = λ (n : ℕ). passed n (validate_checks sys cfg) h in
    let upstream = λ (n : ℕ). passed n (upstream_checks sys cfg) (checked 7) in
    let public = λ (n : ℕ). passed n (public_subs_checks sys cfg) (checked 8) in
    let (token_ids, credentials, confined) =
      tokens_error-valid sys.regex_compiles [] [] cfg.tokens (checked 11) in
    record {
      bearer = check_passed _ _ (checked 5);
      version = (eq_iff _ _).0 (ground (arith, check_passed _ _ (upstream 3)));
      token_ids = token_ids;
      credentials = credentials;
      confined = confined;
      upstream_headers = any-false _ _ (check_passed _ _ (checked 12));
      auth_name = ground (arith, check_passed _ _ (public 1));
      request_names = any-false _ _ (check_passed _ _ (public 4));
      response_names = any-false _ _ (check_passed _ _ (public 5));
      response_headers = any-false _ _ (check_passed _ _ (public 6));
      public_headers = any-false _ _ (check_passed _ _ (public 7));
    }
