-- ===== src/Server/Body/Users.antt =====
-- internal/server/server.go: the bodies of requests about users that validateUserConstraints accepts.
use remnaguard.Prelude.{
  String, Bool, true, false, Option, none, some, List, [], ◌∷◌, if◌then◌else◌, ◌≡◌, ◌⊎◌, inl, inr,
  refl, arith, All, Bool-cases, is_empty, is_positive,
}
use remnaguard.Config.{Constraints}
use remnaguard.Json.{Json, Fields, get_field}
use remnaguard.Json.Unmarshal.{
  unmarshal_string, unmarshal_string_pointer, unmarshal_int_pointer, unmarshal_number,
  unmarshal_strings, unmarshal_refs,
}
use remnaguard.Remnawave.Ownership.{first_error-none}
use remnaguard.Server.Body.Values.{
  on_member, email_error, id_error, description_error, traffic_error, username_error,
  internal_squads_error, allowed_error, first_member_error, validate_squad_body_fields,
  validate_subscription_page_config, validate_user_constraints, ids_or, is_longer,
  error_of_description,
}
use remnaguard.Server.Body.Accepted.{
  Checked, NameOk, EmailOk, IdOk, TrafficOk, IdAllowed, SquadsAllowed, member_lem, username_lem,
  email_lem, id_lem, number_lem, allowed_lem, squads_lem,
}

abbrev pub squad_members : List String
squad_members = "externalSquadUuid" ∷ "external_squad_uuid" ∷ []

abbrev pub page_members : List String
page_members =
    "subscriptionPageConfigUuid" ∷ "subscriptionPageConfigUUID" ∷ "subscription_page_config_uuid"
    ∷ []

-- Where ids are listed, P.
abbrev pub IfListed : List String → Type 0 → Type 0
IfListed ids P = (is_empty ids ≡ true) ⊎ P

abbrev pub DescriptionOk : Constraints → Json → Type 0
DescriptionOk c raw =
    (unmarshal_string_pointer raw ≡ some none)
    ⊎ ((s : String) × (unmarshal_string_pointer raw ≡ some (some s))
        × (is_longer s c.max_description_length ≡ false))

-- Each member of the body that a token's constraints are about is within them.
pub record IsUserBody (matches_regex : String → String → Option Bool) (c : Constraints)
    (obj : Fields) : Type 0 where
  pub username : Checked (NameOk matches_regex c) "username" obj
  pub email : Checked (EmailOk c) "email" obj
  pub ids : All (λ name. Checked (IdOk c) name obj) ("telegramId" ∷ "telegram_id" ∷ [])
  pub description :
      is_positive c.max_description_length ≡ true → Checked (DescriptionOk c) "description" obj
  pub traffic : Checked (TrafficOk c) "trafficLimitBytes" obj
  pub internal :
      IfListed c.allowed_internal_squads
        (Checked (SquadsAllowed c.allowed_internal_squads) "activeInternalSquads" obj)
  pub external :
      IfListed c.allowed_external_squads
        (All (λ name. Checked (IdAllowed c.allowed_external_squads) name obj) squad_members)
  pub pages :
      IfListed c.allowed_subscription_page_configs (
        All (λ name. Checked (IdAllowed c.allowed_subscription_page_configs) name obj) page_members)

members_lem :
    (P : Json → Type 0) (check : Json → Option String) (obj : Fields) (names : List String)
    → ((raw : Json) → check raw ≡ none → P raw)
    → first_member_error check obj names ≡ none
    → All (λ name. Checked P name obj) names
unfolding first_member_error
members_lem P check obj [] good h = tt
members_lem P check obj (name ∷ names) good h =
    let (here, later) = first_error-none _ _ h in
    (
      λ raw e. good raw (member_lem check (get_field name obj) raw here e),
      members_lem P check obj names good later,
    )

if_listed :
    {P : Type 0} (ids : List String) (o : Option String)
    → (if is_empty ids then none else o) ≡ none
    → (o ≡ none → P)
    → IfListed ids P
if_listed ids o h p = elim (Bool-cases (is_empty ids)) [
  | inl e ↦ inl e
  | inr e ↦ inr (p (ground (arith, h, e)))
]

allowed_members :
    (invalid denied : String) (allowed : List String) (obj : Fields) (names : List String)
    → first_member_error (allowed_error invalid denied allowed) obj names ≡ none
    → All (λ name. Checked (IdAllowed allowed) name obj) names
unfolding allowed_error
allowed_members invalid denied allowed obj names h =
    members_lem (IdAllowed allowed) (allowed_error invalid denied allowed) obj names
      (λ raw e. allowed_lem invalid denied allowed (unmarshal_string_pointer raw) e) h

description_lem :
    (c : Constraints) (o : Option (Option String))
    → error_of_description c o ≡ none
    → (o ≡ some none)
      ⊎ ((s : String) × (o ≡ some (some s)) × (is_longer s c.max_description_length ≡ false))
description_lem c none h = absurd (ground (arith, h))
description_lem c (some none) h = inl refl
description_lem c (some (some s)) h = inr (s, refl, ground (arith, h))

described :
    (c : Constraints) (raw : Json)
    → is_positive c.max_description_length ≡ true
    → description_error c raw ≡ none
    → error_of_description c (unmarshal_string_pointer raw) ≡ none
unfolding description_error
described c raw on h = ground (arith, on, h)

internal_lem :
    (c : Constraints) (obj : Fields)
    → on_member (internal_squads_error c) (get_field "activeInternalSquads" obj) ≡ none
    → IfListed c.allowed_internal_squads
        (Checked (SquadsAllowed c.allowed_internal_squads) "activeInternalSquads" obj)
unfolding internal_squads_error
internal_lem c obj h = elim (Bool-cases (is_empty c.allowed_internal_squads)) [
  | inl e ↦ inl e
  | inr e ↦ inr (λ raw found.
      squads_lem c.allowed_internal_squads (ids_or (unmarshal_strings raw) (unmarshal_refs raw))
        (ground (arith, e, member_lem (internal_squads_error c) _ raw h found)))
]

-- A body that validateUserConstraints accepts keeps to the token's constraints: the username, the e-mail
-- address, both spellings of the Telegram id, the description, the traffic limit, the
-- internal squads, and every
-- spelling of the external squad and of the subscription page, each if the body has it.
pub validate_user_constraints-IsUserBody :
    (matches_regex : String → String → Option Bool) (c : Constraints) (obj : Fields)
    → validate_user_constraints matches_regex obj c ≡ none
    → IsUserBody matches_regex c obj
unfolding validate_user_constraints validate_squad_body_fields validate_subscription_page_config
    username_error email_error id_error traffic_error
validate_user_constraints-IsUserBody matches_regex c obj h =
    let (name_ok, h1) = first_error-none _ _ h in
    let (email_ok, h2) = first_error-none _ _ h1 in
    let (id_ok, h3) = first_error-none _ _ h2 in
    let (description_ok, h4) = first_error-none _ _ h3 in
    let (traffic_ok, h5) = first_error-none _ _ h4 in
    let (squads_ok, pages_ok) = first_error-none _ _ h5 in
    let (internal_ok, external_ok) = first_error-none _ _ squads_ok in
    record {
      username = λ raw e.
          username_lem matches_regex c (unmarshal_string raw)
            (member_lem (username_error matches_regex c) (get_field "username" obj) raw name_ok e);
      email = λ raw e.
          email_lem c (unmarshal_string_pointer raw)
            (member_lem (email_error c) (get_field "email" obj) raw email_ok e);
      ids =
          members_lem (IdOk c) (id_error c) obj ("telegramId" ∷ "telegram_id" ∷ [])
            (λ raw e. id_lem c (unmarshal_int_pointer raw) e) id_ok;
      description = λ on raw e. description_lem c (unmarshal_string_pointer raw) (
          described c raw on
            (member_lem (description_error c) (get_field "description" obj) raw description_ok e));
      traffic = λ raw e.
          number_lem c (unmarshal_number raw)
            (member_lem (traffic_error c) (get_field "trafficLimitBytes" obj) raw traffic_ok e);
      internal = internal_lem c obj internal_ok;
      external = if_listed c.allowed_external_squads _ external_ok (
          allowed_members "invalid_external_squad" "external_squad_denied" c.allowed_external_squads
            obj squad_members);
      pages = if_listed c.allowed_subscription_page_configs _ pages_ok (
          allowed_members "invalid_subscription_page_config" "subscription_page_config_denied"
            c.allowed_subscription_page_configs obj page_members);
    }
