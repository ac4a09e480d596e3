-- ===== src/Remnawave/Owns.antt =====
-- internal/remnawave/user.go: whether a token's constraints let it have a user. An error is a text, and
-- none stands for no error. What the `regexp` package gives for a pattern and a text, none for
-- a pattern that does not compile, is the parameter `matches_regex`.
use remnaguard.Prelude.{
  String, Bool, true, false, not, Option, none, some, List, [], ◌∷◌, ◌++◌, ◌&&◌, ◌||◌,
  if◌then◌else◌, ◌==◌, is_empty, any, has_prefix, has_suffix, contains_text, to_lower, cut, ℤ, pos,
  negsuc, lebℤ, nat_eq, first_error,
}
use remnaguard.Config.{Constraints, TokenPolicy, IdRange, contains}
use remnaguard.Remnawave.Types.{SquadRef, User}

-- containsFold, on ASCII
unfoldable pub contains_fold : List String → String → Bool
contains_fold xs want = any (λ x. to_lower x == to_lower want) xs

abbrev pub regex_error : Option Bool → Option String
regex_error none = some "invalid_username_regex"
regex_error (some false) = some "username_regex_denied"
regex_error (some true) = none

abbrev pub domain_error : List String → Option (String × String) → Option String
domain_error domains none = some "email_domain_denied"
domain_error domains (some (_, domain)) =
    if contains_fold domains domain then none else some "email_domain_denied"

-- ValidateEmail
unfoldable pub validate_email : Constraints → String → Option String
validate_email c email =
    let lower = to_lower email in
    if email == ""
    then if not (c.email_contains == "") || not (is_empty c.email_domains)
      then some "missing_email"
      else none
    else if not (c.email_contains == "") && not (contains_text lower (to_lower c.email_contains))
    then some "email_contains_denied"
    else if is_empty c.email_domains
    then none
    else domain_error c.email_domains (cut b'@' lower)

abbrev pub is_zero : ℤ → Bool
is_zero (pos n) = nat_eq n 0
is_zero (negsuc n) = false

abbrev pub in_range : ℤ → IdRange → Bool
in_range id r = lebℤ r.min id && lebℤ id r.max

-- ValidateTelegramID
unfoldable pub validate_telegram_id : Constraints → ℤ → Option String
validate_telegram_id c id =
    if is_empty c.telegram_id_ranges
    then none
    else if is_zero id
    then some "missing_telegram_id"
    else if any (in_range id) c.telegram_id_ranges
    then none
    else some "telegram_id_denied"

-- squadsAllowed
unfoldable pub squads_allowed : List SquadRef → List String → Bool
squads_allowed [] allowed = true
squads_allowed (squad ∷ squads) allowed =
    let rest = squads_allowed squads allowed in
    if not (squad.uuid == "") && not (contains allowed squad.uuid) then false else rest

-- The checks of a user's squads of one kind.
unfoldable pub squads_error : String → String → List SquadRef → List String → Option String
squads_error missing foreign squads allowed =
    if is_empty allowed
    then none
    else if is_empty squads
    then some missing
    else if squads_allowed squads allowed
    then none
    else some foreign

abbrev pub listed : Option SquadRef → List SquadRef
listed none = []
listed (some r) = r ∷ []

abbrev pub internal_squads_of : User → List SquadRef
internal_squads_of user = user.internal_squads ++ user.active_internal_squads

abbrev pub external_squads_of : User → List SquadRef
external_squads_of user =
    user.external_squads
    ++ listed user.external_squad
    ++ (if user.external_squad_uuid == ""
        then []
        else record { uuid = user.external_squad_uuid } ∷ [])

unfoldable pub page_config_error : Constraints → User → Option String
page_config_error c user =
    if is_empty c.allowed_subscription_page_configs
    then none
    else if user.subscription_page_config_uuid == ""
    then some "missing_subscription_page_config"
    else if contains c.allowed_subscription_page_configs user.subscription_page_config_uuid
    then none
    else some "subscription_page_config_denied"

module _ (matches_regex : String → String → Option Bool) where
  -- ValidateUsername
  unfoldable pub validate_username : Constraints → String → Option String
  validate_username c username =
      if (username == "")
        && (not (c.username_prefix == "")
            || not (c.username_suffix == "")
            || not (c.username_contains == "")
            || not (c.username_regex == ""))
      then some "missing_username"
      else if not (c.username_prefix == "") && not (has_prefix username c.username_prefix)
      then some "foreign_username"
      else if not (c.username_suffix == "") && not (has_suffix username c.username_suffix)
      then some "username_suffix_denied"
      else if not (c.username_contains == "") && not (contains_text username c.username_contains)
      then some "username_contains_denied"
      else if c.username_regex == ""
      then none
      else regex_error (matches_regex c.username_regex username)

  unfoldable pub constraints_error : Constraints → User → Option String
  constraints_error c user = first_error (validate_username c user.username) (
      first_error (validate_email c user.email) (
        first_error (validate_telegram_id c user.telegram_id) (
          first_error
            (squads_error "missing_internal_squad" "internal_squad_denied" (internal_squads_of user)
              c.allowed_internal_squads)
            (first_error
              (squads_error "missing_external_squad" "external_squad_denied"
                (external_squads_of user) c.allowed_external_squads)
              (page_config_error c user)))))

  -- OwnsUser
  unfoldable pub owns_user : Option TokenPolicy → User → Option String
  owns_user none user = some "missing_token"
  owns_user (some tok) user = constraints_error tok.constraints user
