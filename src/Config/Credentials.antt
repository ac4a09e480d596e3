-- ===== src/Config/Credentials.antt =====
-- internal/config/config.go: FindCredential against a description of the credentials that are live.
use remnaguard.Prelude.{
  String, false, none, some, List, [], ◌∷◌, ◌≡◌, inl, inr, ◌↔◌, arith, eq_iff, Some, Bool-cases,
  Option-cases,
}
use remnaguard.Config.Types.{Config, TokenPolicy, Credential}
use remnaguard.Config.Lookup.{enabled_credential, find_in_tokens, find_credential}

-- A credential with the id that is not disabled and belongs to a token that is not disabled.
pub record IsLive (c : Config) (id : String) (t : TokenPolicy) (k : Credential) : Type 0 where
  pub token_listed : Some (λ u. u ≡ t) c.tokens
  pub token_enabled : t.disabled ≡ false
  pub listed : Some (λ u. u ≡ k) t.credentials
  pub named : k.id ≡ id
  pub enabled : k.disabled ≡ false

enabled_credential_sound :
    (id : String) (ks : List Credential) (k : Credential)
    → enabled_credential id ks ≡ some k
    → Some (λ u. u ≡ k) ks × (k.id ≡ id) × (k.disabled ≡ false)
unfolding enabled_credential
enabled_credential_sound id [] k h = ground arith
enabled_credential_sound id (x ∷ ks) k h =
    ground (arith, eq_iff x.id id, enabled_credential_sound id ks k)

enabled_credential_complete :
    (id : String) (ks : List Credential)
    → enabled_credential id ks ≡ none
    → (k : Credential) → Some (λ u. u ≡ k) ks
    → k.id ≡ id
    → k.disabled ≡ false
    → ⊥
unfolding enabled_credential
enabled_credential_complete id [] h k m same on = elim m [ ]
enabled_credential_complete id (x ∷ ks) h k (inl e) same on = ground (arith, eq_iff x.id id)
enabled_credential_complete id (x ∷ ks) h k (inr m) same on =
    let left : enabled_credential id ks ≡ none = ground arith in
    enabled_credential_complete id ks left k m same on

-- What IsLive says, over a list of tokens.
abbrev Live : String → List TokenPolicy → TokenPolicy → Credential → Type 0
Live id ts t k =
    Some (λ u. u ≡ t) ts
    × (t.disabled ≡ false)
    × Some (λ u. u ≡ k) t.credentials
    × (k.id ≡ id)
    × (k.disabled ≡ false)

Live-cons :
    (id : String) (x : TokenPolicy) (ts : List TokenPolicy) (t : TokenPolicy) (k : Credential)
    → Live id ts t k
    → Live id (x ∷ ts) t k
Live-cons id x ts t k (a, b, c, d, e) = (inr a, b, c, d, e)

find_in_tokens_sound :
    (id : String) (ts : List TokenPolicy) (t : TokenPolicy) (k : Credential)
    → find_in_tokens id ts ≡ some (t, k)
    → Live id ts t k
unfolding find_in_tokens
find_in_tokens_sound id [] t k h = absurd (ground arith)
find_in_tokens_sound id (x ∷ ts) t k h = elim (Bool-cases x.disabled) [
  | inl off ↦ Live-cons id x ts t k (find_in_tokens_sound id ts t k (ground arith))
  | inr on ↦ elim (Option-cases (enabled_credential id x.credentials)) [
    | inl missing ↦ Live-cons id x ts t k (find_in_tokens_sound id ts t k (ground arith))
    | inr (c, found) ↦
        let same : x ≡ t = ground arith in
        let same_credential : c ≡ k = ground arith in
        let (listed, named, enabled) = enabled_credential_sound id x.credentials c found in
        (
          inl same,
          rw (← same) on,
          rw (← same, ← same_credential) listed,
          rw (← same_credential) named,
          rw (← same_credential) enabled,
        )
  ]
]

find_in_tokens_complete :
    (id : String) (ts : List TokenPolicy)
    → find_in_tokens id ts ≡ none
    → (t : TokenPolicy) (k : Credential) → ¬ Live id ts t k
unfolding find_in_tokens
find_in_tokens_complete id [] h t k (m, _, _, _, _) = elim m [ ]
find_in_tokens_complete id (x ∷ ts) h t k (inr m, b, c, d, e) =
    let left : find_in_tokens id ts ≡ none = ground arith in
    find_in_tokens_complete id ts left t k (m, b, c, d, e)
find_in_tokens_complete id (x ∷ ts) h t k (inl same, on, listed, named, enabled) =
    let live : x.disabled ≡ false = rw same on in
    let missing : enabled_credential id x.credentials ≡ none = ground arith in
    enabled_credential_complete id x.credentials missing k (rw same listed) named enabled

-- FindCredential returns a live credential with the id, and none only if the configuration has none.
pub find_credential_iff :
    (c : Config) (id : String)
    → ((t : TokenPolicy) (k : Credential) → find_credential c id ≡ some (t, k) → IsLive c id t k)
      × ((find_credential c id ≡ none) ↔ ((t : TokenPolicy) (k : Credential) → ¬ IsLive c id t k))
unfolding find_credential
find_credential_iff c id = (
  λ t k h. of_Live t k (find_in_tokens_sound id c.tokens t k h),
  (
    λ h t k l.
        find_in_tokens_complete id c.tokens h t k
          (l.token_listed, l.token_enabled, l.listed, l.named, l.enabled),
    λ no_live. elim (Option-cases (find_in_tokens id c.tokens)) [
      | inl e ↦ e
      | inr ((t, k), e) ↦
          absurd (no_live t k (of_Live t k (find_in_tokens_sound id c.tokens t k e)))
    ],
  ),
)
  where
    of_Live : (t : TokenPolicy) (k : Credential) → Live id c.tokens t k → IsLive c id t k
    of_Live t k (m, on, listed, named, enabled) = record {
      token_listed = m;
      token_enabled = on;
      listed = listed;
      named = named;
      enabled = enabled;
    }
