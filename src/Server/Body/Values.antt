-- ===== src/Server/Body/Values.antt =====
-- internal/server/server.go: validateUserConstraints with what it calls, on the members of the body. The
-- regular expressions of a configuration are the parameter `matches_regex`.
use remnaguard.Prelude.{
  String, Bool, not, Option, none, some, List, [], ◌∷◌, ◌&&◌, if◌then◌else◌, ◌==◌, len, any,
  is_empty, first_error, ℤ, pos, is_positive, lebℤ, atoi,
}
use remnaguard.Config.{Constraints, contains}
use remnaguard.Json.{Json, Fields, get_field}
use remnaguard.Json.Unmarshal.{
  unmarshal_string, unmarshal_string_pointer, unmarshal_int_pointer, unmarshal_number,
  unmarshal_strings, unmarshal_refs,
}
use remnaguard.Remnawave.Owns.{validate_username, validate_email, validate_telegram_id}

abbrev pub error_of_email : Constraints → Option (Option String) → Option String
error_of_email c none = some "invalid_email"
error_of_email c (some none) = none
error_of_email c (some (some email)) = validate_email c email

abbrev pub error_of_id : Constraints → Option (Option ℤ) → Option String
error_of_id c none = some "invalid_telegram_id"
error_of_id c (some none) = none
error_of_id c (some (some id)) = validate_telegram_id c id

abbrev pub is_longer : String → ℤ → Bool
is_longer s n = not (lebℤ (pos (len s)) n)

abbrev pub error_of_description : Constraints → Option (Option String) → Option String
error_of_description c none = some "invalid_description"
error_of_description c (some none) = none
error_of_description c (some (some desc)) =
    if is_longer desc c.max_description_length then some "description_too_long" else none

abbrev pub error_of_traffic : Constraints → Option ℤ → Option String
error_of_traffic c none = some "invalid_traffic_limit"
error_of_traffic c (some v) =
    if c.forbid_unlimited_traffic && not (is_positive v)
    then some "unlimited_traffic_denied"
    else if is_positive c.max_traffic_limit_bytes && not (lebℤ v c.max_traffic_limit_bytes)
    then some "traffic_limit_too_large"
    else none

abbrev pub error_of_number : Constraints → Option String → Option String
error_of_number c none = some "invalid_traffic_limit"
error_of_number c (some n) = error_of_traffic c (atoi n)

-- The check of a member, if the body has it.
abbrev pub on_member : (Json → Option String) → Option Json → Option String
on_member check none = none
on_member check (some raw) = check raw

unfoldable pub email_error : Constraints → Json → Option String
email_error c raw = error_of_email c (unmarshal_string_pointer raw)

unfoldable pub id_error : Constraints → Json → Option String
id_error c raw = error_of_id c (unmarshal_int_pointer raw)

unfoldable pub description_error : Constraints → Json → Option String
description_error c raw =
    if is_positive c.max_description_length
    then error_of_description c (unmarshal_string_pointer raw)
    else none

-- The member trafficLimitBytes. The branch for a null after a failed json.Unmarshal is never taken, as a
-- null is no error of json.Unmarshal.
unfoldable pub traffic_error : Constraints → Json → Option String
traffic_error c raw = error_of_number c (unmarshal_number raw)

-- The ids of a list of squads, by their texts or by their objects.
abbrev pub ids_or : Option (List String) → Option (List String) → Option (List String)
ids_or (some ids) refs = some ids
ids_or none refs = refs

abbrev pub foreign_squad : List String → String → Bool
foreign_squad allowed id = not (id == "") && not (contains allowed id)

abbrev pub error_of_squads : List String → Option (List String) → Option String
error_of_squads allowed none = some "invalid_internal_squads"
error_of_squads allowed (some ids) =
    if any (foreign_squad allowed) ids then some "internal_squad_denied" else none

unfoldable pub internal_squads_error : Constraints → Json → Option String
internal_squads_error c raw =
    if is_empty c.allowed_internal_squads
    then none
    else error_of_squads c.allowed_internal_squads
        (ids_or (unmarshal_strings raw) (unmarshal_refs raw))

-- An id that may be missing, null or blank, and else has to be allowed.
abbrev pub error_of_allowed : String → String → List String → Option (Option String) → Option String
error_of_allowed invalid denied allowed none = some invalid
error_of_allowed invalid denied allowed (some none) = none
error_of_allowed invalid denied allowed (some (some id)) =
    if foreign_squad allowed id then some denied else none

unfoldable pub allowed_error : String → String → List String → Json → Option String
allowed_error invalid denied allowed raw =
    error_of_allowed invalid denied allowed (unmarshal_string_pointer raw)

-- The loops over the names of a member.
unfoldable pub first_member_error : (Json → Option String) → Fields → List String → Option String
first_member_error check obj [] = none
first_member_error check obj (name ∷ names) =
    first_error (on_member check (get_field name obj)) (first_member_error check obj names)

-- validateSquadBodyFields
unfoldable pub validate_squad_body_fields : Fields → Constraints → Option String
validate_squad_body_fields obj c =
    first_error (on_member (internal_squads_error c) (get_field "activeInternalSquads" obj)) (
      if is_empty c.allowed_external_squads
      then none
      else first_member_error
          (allowed_error "invalid_external_squad" "external_squad_denied" c.allowed_external_squads)
          obj ("externalSquadUuid" ∷ "external_squad_uuid" ∷ []))

-- validateSubscriptionPageConfig
unfoldable pub validate_subscription_page_config : Fields → Constraints → Option String
validate_subscription_page_config obj c =
    if is_empty c.allowed_subscription_page_configs
    then none
    else first_member_error
        (allowed_error "invalid_subscription_page_config" "subscription_page_config_denied"
          c.allowed_subscription_page_configs)
        obj
        ("subscriptionPageConfigUuid" ∷ "subscriptionPageConfigUUID"
          ∷ "subscription_page_config_uuid" ∷ [])

module _ (matches_regex : String → String → Option Bool) where
  abbrev pub error_of_username : Constraints → Option String → Option String
  error_of_username c none = some "invalid_username"
  error_of_username c (some username) = validate_username matches_regex c username

  unfoldable pub username_error : Constraints → Json → Option String
  username_error c raw = error_of_username c (unmarshal_string raw)

  -- validateUserConstraints, of the token's constraints
  unfoldable pub validate_user_constraints : Fields → Constraints → Option String
  validate_user_constraints obj c =
      first_error (on_member (username_error c) (get_field "username" obj)) (
        first_error (on_member (email_error c) (get_field "email" obj)) (
          first_error (first_member_error (id_error c) obj ("telegramId" ∷ "telegram_id" ∷ [])) (
            first_error (on_member (description_error c) (get_field "description" obj)) (
              first_error (on_member (traffic_error c) (get_field "trafficLimitBytes" obj)) (
                first_error (validate_squad_body_fields obj c)
                  (validate_subscription_page_config obj c))))))
