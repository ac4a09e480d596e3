-- ===== src/Remnawave/Decode.antt =====
-- internal/remnawave/user.go: users in a decoded response. What json.Number.Int64 and fmt.Sscan give for
-- a text, with their errors ignored, are the parameters `number_int` and `scan_int`.
use remnaguard.Prelude.{
  String, Option, none, some, List, [], ◌∷◌, ◌&&◌, if◌then◌else◌, ◌==◌, is_empty, find, ℤ, pos,
}
use remnaguard.Json.{
  Json, null, boolean, number, text, array, object, Items, no_items, item, Fields, no_fields, field,
  get_field,
}
use remnaguard.Remnawave.Types.{SquadRef, User}

abbrev pub string_of : Option Json → String
string_of (some (text s)) = s
string_of _ = ""

-- stringField
unfoldable pub string_field : Fields → String → String
string_field obj key = string_of (get_field key obj)

-- firstString
unfoldable pub first_string : Fields → List String → String
unfolding string_field
first_string obj [] = ""
first_string obj (key ∷ keys) =
    let v = string_field obj key in let rest = first_string obj keys in if v == "" then rest else v

abbrev pub nonempty_ref : String → Option SquadRef
nonempty_ref s = if s == "" then none else some (record { uuid = s })

-- parseSquadRef; none for a value that gives no reference
unfoldable pub parse_squad_ref : Option Json → Option SquadRef
unfolding first_string
parse_squad_ref (some (text s)) = nonempty_ref s
parse_squad_ref (some (object obj)) = nonempty_ref (
    first_string obj
      ("uuid" ∷ "squadUuid" ∷ "squad_uuid" ∷ "externalSquadUuid" ∷ "external_squad_uuid" ∷ []))
parse_squad_ref _ = none

abbrev pub and_ref : Option SquadRef → List SquadRef → List SquadRef
and_ref none refs = refs
and_ref (some r) refs = r ∷ refs

unfoldable pub item_refs : Items → List SquadRef
unfolding parse_squad_ref
item_refs no_items = []
item_refs (item v vs) = and_ref (parse_squad_ref (some v)) (item_refs vs)

-- squadRefs
unfoldable pub squad_refs : Option Json → List SquadRef
unfolding item_refs
squad_refs (some (array items)) = item_refs items
squad_refs _ = []

abbrev pub response_keys : List String
response_keys = "response" ∷ "user" ∷ "users" ∷ "items" ∷ "data" ∷ []

-- The loop of collectUsers over the keys, from what it gives for each child.
unfoldable pub first_users : List String → List (String × List User) → List User
first_users [] children = []
first_users (key ∷ keys) children =
    let rest = first_users keys children in
    elim (find key children) [ none ↦ rest | some users ↦ if is_empty users then rest else users ]

abbrev pub one_or : Option User → List User → List User
one_or none users = users
one_or (some user) users = user ∷ []

abbrev pub and_user : Option User → List User → List User
and_user none users = users
and_user (some user) users = user ∷ users

module _ (number_int scan_int : String → ℤ) where
  -- The first of the keys whose value is a number or a string.
  unfoldable pub int64_field : Fields → List String → ℤ
  int64_field obj [] = pos 0
  int64_field obj (key ∷ keys) =
      let rest = int64_field obj keys in
      elim (get_field key obj) [
        | some (number n) ↦ number_int n
        | some (text s) ↦ scan_int s
        | _ ↦ rest
      ]

  abbrev pub user_of : Fields → User
  user_of obj = record {
    uuid = string_field obj "uuid";
    short_uuid = first_string obj ("shortUuid" ∷ "short_uuid" ∷ []);
    username = string_field obj "username";
    telegram_id = int64_field obj ("telegramId" ∷ "telegram_id" ∷ []);
    email = string_field obj "email";
    internal_squads = squad_refs (get_field "internalSquads" obj);
    active_internal_squads = squad_refs (get_field "activeInternalSquads" obj);
    external_squads = squad_refs (get_field "externalSquads" obj);
    external_squad = parse_squad_ref (get_field "externalSquad" obj);
    external_squad_uuid = first_string obj ("externalSquadUuid" ∷ "external_squad_uuid" ∷ []);
    subscription_page_config_uuid = first_string obj (
        "subscriptionPageConfigUuid" ∷ "subscriptionPageConfigUUID"
        ∷ "subscription_page_config_uuid" ∷ []);
  }

  -- parseUserObject
  unfoldable pub parse_user_object : Json → Option User
  parse_user_object (object obj) =
      if (string_field obj "username" == "") && (string_field obj "uuid" == "")
      then none
      else some (user_of obj)
  parse_user_object _ = none

  unfoldable pub item_users : Items → List User
  item_users no_items = []
  item_users (item v vs) = and_user (parse_user_object v) (item_users vs)

  unfoldable mutual
    -- collectUsers
    pub collect_users : Json → List User
    collect_users (array items) = item_users items
    collect_users (object fs) =
        one_or (parse_user_object (object fs)) (first_users response_keys (child_users fs))
    collect_users null = []
    collect_users (boolean b) = []
    collect_users (number n) = []
    collect_users (text s) = []

    -- What collectUsers gives for each child.
    pub child_users : Fields → List (String × List User)
    child_users no_fields = []
    child_users (field k v fs) = (k, collect_users v) ∷ child_users fs

  abbrev pub one_user : List User → Option User
  one_user (user ∷ []) = some user
  one_user _ = none

  -- DecodeUser from the decoded body, none for a body that is no JSON; the only error is
  -- "unparseable_user_response" or the decoder's.
  unfoldable pub decode_user : Option Json → Option User
  decode_user none = none
  decode_user (some root) = one_user (collect_users root)
