-- ===== src/Remnawave/Ownership.antt =====
-- internal/remnawave/user.go: what OwnsUser has checked when it accepts a user.
use remnaguard.Prelude.{
  String, Bool, true, false, Option, none, some, List, [], ◌∷◌, ◌==◌, ◌≡◌, ◌≢◌, ◌⊎◌, ◌↔◌, inl, inr,
  refl, arith, eq_iff, All, Bool-cases, is_empty, any, has_prefix, has_suffix, contains_text,
  to_lower, cut, ℤ, first_error,
}
use remnaguard.Config.{Constraints, TokenPolicy, contains}
use remnaguard.Remnawave.Types.{SquadRef, User}
use remnaguard.Remnawave.Owns.{
  contains_fold, in_range, squads_allowed, squads_error, internal_squads_of, external_squads_of,
  page_config_error, validate_username, validate_email, validate_telegram_id, constraints_error,
  owns_user, regex_error, domain_error, is_zero,
}
use remnaguard.Remnawave.Blank.{
  has_prefix-blank, has_suffix-blank, contains_text-blank, blank_lower,
}

-- Every squad with a UUID is allowed, and there is one if squads are restricted.
abbrev pub IsWithin : List String → List SquadRef → Type 0
IsWithin allowed squads =
    (allowed ≡ [])
    ⊎ ((squads ≢ []) × All (λ s. (s.uuid ≡ "") ⊎ (contains allowed s.uuid ≡ true)) squads)

is_empty-cases {ℓ} : {A : Type ℓ} (xs : List A) → (xs ≡ []) ⊎ (is_empty xs ≡ false)
is_empty-cases [] = inl refl
is_empty-cases (x ∷ xs) = inr refl

squads_allowed_iff :
    (squads : List SquadRef) (allowed : List String)
    → (squads_allowed squads allowed ≡ true)
      ↔ All (λ s. (s.uuid ≡ "") ⊎ (contains allowed s.uuid ≡ true)) squads
unfolding squads_allowed
squads_allowed_iff [] allowed = (λ h. tt, λ h. refl)
squads_allowed_iff (s ∷ squads) allowed =
    let next = squads_allowed_iff squads allowed in
    (
      λ h. (
        elim (Bool-cases (s.uuid == "")) [
          | inl e ↦ inl ((eq_iff s.uuid "").0 e)
          | inr e ↦ inr (ground (arith, h, e))
        ],
        next.0 (ground (arith, h)),
      ),
      λ (first, rest). elim first [
        | inl e ↦ ground (arith, eq_iff s.uuid "", e, next.1 rest)
        | inr e ↦ ground (arith, e, next.1 rest)
      ],
    )

squads_error_iff :
    (missing foreign : String) (squads : List SquadRef) (allowed : List String)
    → (squads_error missing foreign squads allowed ≡ none) ↔ IsWithin allowed squads
unfolding squads_error
squads_error_iff missing foreign squads [] = (λ h. inl refl, λ h. refl)
squads_error_iff missing foreign [] (a ∷ allowed) =
    (λ h. ground arith, λ h. elim h [ inl e ↦ cc | inr e ↦ absurd (e.0 refl) ])
squads_error_iff missing foreign (s ∷ squads) (a ∷ allowed) =
    let whole = squads_allowed_iff (s ∷ squads) (a ∷ allowed) in
    (
      λ h. inr (λ e. cc, whole.0 (ground (arith, h))),
      λ h. elim h [ inl e ↦ cc | inr e ↦ ground (arith, whole.1 e.1) ],
    )

module _ (matches_regex : String → String → Option Bool) where
  -- The username has the three texts that the constraints name, and matches their expression.
  pub record IsNamed (c : Constraints) (username : String) : Type 0 where
    pub prefix : has_prefix username c.username_prefix ≡ true
    pub suffix : has_suffix username c.username_suffix ≡ true
    pub inside : contains_text username c.username_contains ≡ true
    pub expression :
        (c.username_regex ≡ "")
        ⊎ ((username ≢ "") × (matches_regex c.username_regex username ≡ some true))

  regex_true : (o : Option Bool) → regex_error o ≡ none → o ≡ some true
  regex_true none h = ground (arith, h)
  regex_true (some true) h = refl
  regex_true (some false) h = ground (arith, h)

  pub validate_username-IsNamed :
      (c : Constraints) (username : String)
      → validate_username matches_regex c username ≡ none
      → IsNamed c username
  unfolding validate_username
  validate_username-IsNamed c username h =
      let blank = eq_iff username "" in
      let no_prefix = eq_iff c.username_prefix "" in
      let no_suffix = eq_iff c.username_suffix "" in
      let no_inside = eq_iff c.username_contains "" in
      let no_regex = eq_iff c.username_regex "" in
      record {
        prefix = elim (Bool-cases (c.username_prefix == "")) [
          | inl e ↦ rw (no_prefix.0 e) (has_prefix-blank username)
          | inr e ↦ ground (arith, h, e)
        ];
        suffix = elim (Bool-cases (c.username_suffix == "")) [
          | inl e ↦ rw (no_suffix.0 e) (has_suffix-blank username)
          | inr e ↦ ground (arith, h, e)
        ];
        inside = elim (Bool-cases (c.username_contains == "")) [
          | inl e ↦ rw (no_inside.0 e) (contains_text-blank username)
          | inr e ↦ ground (arith, h, e)
        ];
        expression = elim (Bool-cases (c.username_regex == "")) [
          | inl e ↦ inl (no_regex.0 e)
          | inr e ↦ inr (
            λ b. ground (arith, h, e, blank, b),
            regex_true (matches_regex c.username_regex username) (ground (arith, h, e)),
          )
        ];
      }

-- The e-mail address has the text that the constraints name, in any case, and one of their domains.
pub record HasEmail (c : Constraints) (email : String) : Type 0 where
  pub inside : contains_text (to_lower email) (to_lower c.email_contains) ≡ true
  pub domain :
      (c.email_domains ≡ [])
      ⊎ ((split_email : String × String) × (cut b'@' (to_lower email) ≡ some split_email)
          × (contains_fold c.email_domains split_email.1 ≡ true))

domain_found :
    (domains : List String) (o : Option (String × String))
    → domain_error domains o ≡ none
    → (parts : String × String) × (o ≡ some parts) × (contains_fold domains parts.1 ≡ true)
domain_found domains none h = absurd (ground (arith, h))
domain_found domains (some parts) h = (parts, refl, ground (arith, h))

pub validate_email-HasEmail :
    (c : Constraints) (email : String) → validate_email c email ≡ none → HasEmail c email
unfolding validate_email
validate_email-HasEmail c email h =
    let blank = eq_iff email "" in
    let no_text = eq_iff c.email_contains "" in
    record {
      inside = elim (Bool-cases (c.email_contains == "")) [
        | inl e ↦ rw (no_text.0 e) (rw blank_lower (contains_text-blank (to_lower email)))
        | inr e ↦ ground (arith, h, e)
      ];
      domain = elim (is_empty-cases c.email_domains) [
        | inl e ↦ inl e
        | inr e ↦
            inr (domain_found c.email_domains (cut b'@' (to_lower email)) (ground (arith, h, e)))
      ];
    }

-- The Telegram id is in one of the ranges, if there are any.
abbrev pub IsInRange : Constraints → ℤ → Type 0
IsInRange c id =
    (c.telegram_id_ranges ≡ [])
    ⊎ ((is_zero id ≡ false) × (any (in_range id) c.telegram_id_ranges ≡ true))

pub validate_telegram_id_iff :
    (c : Constraints) (id : ℤ) → (validate_telegram_id c id ≡ none) ↔ IsInRange c id
unfolding validate_telegram_id
validate_telegram_id_iff c id = (
  λ h. elim (is_empty-cases c.telegram_id_ranges) [
    | inl e ↦ inl e
    | inr e ↦ inr (ground (arith, h, e), ground (arith, h, e))
  ],
  λ h. elim h [ inl e ↦ rw e refl | inr e ↦ ground (arith, e) ],
)

-- The subscription page's configuration is an allowed one, if they are restricted.
abbrev pub HasPage : Constraints → User → Type 0
HasPage c user =
    (c.allowed_subscription_page_configs ≡ [])
    ⊎ (contains c.allowed_subscription_page_configs user.subscription_page_config_uuid ≡ true)

page_config_error-HasPage :
    (c : Constraints) (user : User) → page_config_error c user ≡ none → HasPage c user
unfolding page_config_error
page_config_error-HasPage c user h = elim (is_empty-cases c.allowed_subscription_page_configs) [
  | inl e ↦ inl e
  | inr e ↦ inr (ground (arith, h, e))
]

pub first_error-none : (a b : Option String) → first_error a b ≡ none → (a ≡ none) × (b ≡ none)
first_error-none none b h = (refl, h)
first_error-none (some e) b h = absurd (ground (arith, h))

-- A user within all constraints.
pub record IsOwned (matches_regex : String → String → Option Bool) (c : Constraints) (user : User)
    : Type 0 where
  pub named : IsNamed matches_regex c user.username
  pub email : HasEmail c user.email
  pub telegram : IsInRange c user.telegram_id
  pub internal : IsWithin c.allowed_internal_squads (internal_squads_of user)
  pub external : IsWithin c.allowed_external_squads (external_squads_of user)
  pub page : HasPage c user

-- A user that OwnsUser accepts is within every constraint of the token: its name, e-mail address,
-- Telegram id, squads of both kinds and subscription page.
pub owns_user-IsOwned :
    (matches_regex : String → String → Option Bool) (tok : TokenPolicy) (user : User)
    → owns_user matches_regex (some tok) user ≡ none
    → IsOwned matches_regex tok.constraints user
unfolding owns_user constraints_error
owns_user-IsOwned matches_regex tok user h =
    let c = tok.constraints in
    let (name_ok, h1) = first_error-none _ _ h in
    let (email_ok, h2) = first_error-none _ _ h1 in
    let (telegram_ok, h3) = first_error-none _ _ h2 in
    let (internal_ok, h4) = first_error-none _ _ h3 in
    let (external_ok, page_ok) = first_error-none _ _ h4 in
    record {
      named = validate_username-IsNamed matches_regex c user.username name_ok;
      email = validate_email-HasEmail c user.email email_ok;
      telegram = (validate_telegram_id_iff c user.telegram_id).0 telegram_ok;
      internal = (squads_error_iff _ _ _ _).0 internal_ok;
      external = (squads_error_iff _ _ _ _).0 external_ok;
      page = page_config_error-HasPage c user page_ok;
    }
