-- ===== src/Tests/Owners.antt =====
-- A decoded user, and a token that may have it.
use remnaguard.Prelude.{
  String, Bool, true, Option, none, some, List, [], ◌∷◌, ◌≡◌, ◌≢◌, refl, text_functions, pos, ℤ,
  All, find,
}
use remnaguard.Config.{TokenPolicy, contains}
use remnaguard.Json.{Json, text, array, object, no_items, item, no_fields, field, get_field}
use remnaguard.Remnawave.{User}
use remnaguard.Remnawave.Decode.{
  decode_user, collect_users, parse_user_object, first_users, squad_refs, item_refs,
  parse_squad_ref, first_string, string_field, int64_field,
}
use remnaguard.Remnawave.Owns.{
  owns_user, constraints_error, validate_username, validate_email, validate_telegram_id,
  squads_error, squads_allowed, page_config_error, internal_squads_of,
}
use remnaguard.Remnawave.Ownership.{IsOwned, owns_user-IsOwned}
use remnaguard.Remnawave.Squads.{owned_squads_allowed}
use remnaguard.Tests.Samples.{shop, no_constraints}

abbrev pub body : Json
body = object (
    field "response"
      (object (
        field "uuid" (text "u1") (
          field "username" (text "shop_ann")
            (field "activeInternalSquads" (array (item (text "s1") no_items)) no_fields))))
      no_fields)

abbrev pub no_number : String → ℤ
no_number s = pos 0

abbrev ann : User
ann = record {
  uuid = "u1";
  short_uuid = "";
  username = "shop_ann";
  telegram_id = pos 0;
  email = "";
  internal_squads = [];
  active_internal_squads = record { uuid = "s1" } ∷ [];
  external_squads = [];
  external_squad = none;
  external_squad_uuid = "";
  subscription_page_config_uuid = "";
}

abbrev pub squad_shop : TokenPolicy
squad_shop = record shop {
  constraints = record no_constraints {
    username_prefix = "shop_";
    allowed_internal_squads = "s1" ∷ [];
  };
}

abbrev pub any_regex : String → String → Option Bool
any_regex pattern s = some true

ann_decoded : decode_user no_number no_number (some body) ≡ some ann
unfolding decode_user collect_users parse_user_object first_users squad_refs item_refs
    parse_squad_ref first_string string_field int64_field get_field text_functions find
ann_decoded = refl

ann_owned : owns_user any_regex (some squad_shop) ann ≡ none
unfolding owns_user constraints_error validate_username validate_email validate_telegram_id
    squads_error squads_allowed page_config_error contains text_functions
ann_owned = refl

owns_user-IsOwned_example : IsOwned any_regex squad_shop.constraints ann
owns_user-IsOwned_example = owns_user-IsOwned any_regex squad_shop ann ann_owned

some_squads : ◌≢◌ {A = List String} ("s1" ∷ []) []
some_squads = λ e. cc

owned_squads_allowed_example :
    (internal_squads_of ann ≢ [])
    × All (λ s. contains ("s1" ∷ []) s.uuid ≡ true) (internal_squads_of ann)
owned_squads_allowed_example =
    owned_squads_allowed no_number no_number any_regex squad_shop body ann ann_decoded ann_owned
      some_squads
