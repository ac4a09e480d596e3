-- ===== src/Remnawave/Squads.antt =====
-- internal/remnawave/user.go: the squads of a decoded user.
use remnaguard.Prelude.{
  String, Bool, true, false, Option, none, some, List, [], ◌∷◌, ◌++◌, ◌&&◌, if◌then◌else◌, ◌==◌,
  ◌≡◌, ◌≢◌, ◌⊎◌, inl, inr, refl, arith, eq_iff, All, All-append, Bool-cases, is_empty, find, ℤ,
  subst,
}
use remnaguard.Config.{TokenPolicy, contains}
use remnaguard.Json.{
  Json, null, boolean, number, text, array, object, Items, no_items, item, Fields, no_fields, field,
  get_field,
}
use remnaguard.Remnawave.Types.{SquadRef, User}
use remnaguard.Remnawave.Owns.{internal_squads_of, external_squads_of, owns_user, listed}
use remnaguard.Remnawave.Decode.{
  first_users, response_keys, user_of, parse_user_object, item_users, collect_users, child_users,
  decode_user, and_user, one_or, one_user, string_field,
}
use remnaguard.Remnawave.Ownership.{IsWithin, owns_user-IsOwned}
use remnaguard.Remnawave.Refs.{HasUuid, parse_squad_ref-HasUuid, squad_refs-HasUuid, listed-HasUuid}

-- A user with a name or a UUID, whose squads all have a UUID.
pub record IsDecoded (user : User) : Type 0 where
  pub known : ((user.username == "") && (user.uuid == "")) ≡ false
  pub internal : All HasUuid (internal_squads_of user)
  pub external : All HasUuid (external_squads_of user)

module _ (number_int scan_int : String → ℤ) where
  user_of-IsDecoded :
      (fs : Fields)
      → ((string_field fs "username" == "") && (string_field fs "uuid" == "")) ≡ false
      → IsDecoded (user_of number_int scan_int fs)
  user_of-IsDecoded fs h =
      let user = user_of number_int scan_int fs in
      record {
        known = h;
        internal =
            All-append HasUuid user.internal_squads user.active_internal_squads
              (squad_refs-HasUuid (get_field "internalSquads" fs))
              (squad_refs-HasUuid (get_field "activeInternalSquads" fs));
        external =
            All-append HasUuid (user.external_squads ++ listed user.external_squad) _
              (All-append HasUuid user.external_squads (listed user.external_squad)
                (squad_refs-HasUuid (get_field "externalSquads" fs))
                (listed-HasUuid user.external_squad
                  (parse_squad_ref-HasUuid (get_field "externalSquad" fs))))
              (last user.external_squad_uuid);
      }
    where
      last : (s : String) → All HasUuid (if s == "" then [] else record { uuid = s } ∷ [])
      last s =
          elim (Bool-cases (s == ""))
            as (λ _. All HasUuid (if s == "" then [] else record { uuid = s } ∷ [])) [
              | inl e ↦ rw e tt
              | inr e ↦ rw e (e, tt)
            ]

  parse_user_object-IsDecoded :
      (v : Json) (user : User)
      → parse_user_object number_int scan_int v ≡ some user
      → IsDecoded user
  unfolding parse_user_object
  parse_user_object-IsDecoded (object fs) user h =
      elim (Bool-cases ((string_field fs "username" == "") && (string_field fs "uuid" == ""))) [
        | inl e ↦ absurd (ground (arith, h, e))
        | inr e ↦ subst IsDecoded (ground (arith, h, e)) (user_of-IsDecoded fs e)
      ]
  parse_user_object-IsDecoded _ user h = absurd (ground (arith, h))

  and_user-IsDecoded :
      (o : Option User) (users : List User)
      → ((user : User) → o ≡ some user → IsDecoded user)
      → All IsDecoded users
      → All IsDecoded (and_user o users)
  and_user-IsDecoded none users first rest = rest
  and_user-IsDecoded (some user) users first rest = (first user refl, rest)

  item_users-IsDecoded : (items : Items) → All IsDecoded (item_users number_int scan_int items)
  unfolding item_users
  item_users-IsDecoded no_items = tt
  item_users-IsDecoded (item v vs) =
      and_user-IsDecoded (parse_user_object number_int scan_int v)
        (item_users number_int scan_int vs) (parse_user_object-IsDecoded v)
        (item_users-IsDecoded vs)

  one_or-IsDecoded :
      (o : Option User) (users : List User)
      → ((user : User) → o ≡ some user → IsDecoded user)
      → All IsDecoded users
      → All IsDecoded (one_or o users)
  one_or-IsDecoded none users first rest = rest
  one_or-IsDecoded (some user) users first rest = (first user refl, tt)

abbrev AllDecoded : List (String × List User) → Type 0
AllDecoded children = All (λ e. All IsDecoded e.1) children

find-AllDecoded :
    (key : String) (children : List (String × List User)) (users : List User)
    → AllDecoded children
    → find key children ≡ some users
    → All IsDecoded users
unfolding find
find-AllDecoded key [] users h found = absurd (ground (arith, found))
find-AllDecoded key ((k, v) ∷ children) users h found = elim (Bool-cases (k == key)) [
  | inl e ↦ subst (All IsDecoded) (ground (arith, found, e)) h.0
  | inr e ↦ find-AllDecoded key children users h.1 (ground (arith, found, e))
]

chosen-IsDecoded :
    (o : Option (List User)) (rest : List User)
    → ((users : List User) → o ≡ some users → All IsDecoded users)
    → All IsDecoded rest
    → All IsDecoded (elim o [ none ↦ rest | some users ↦ if is_empty users then rest else users ])
chosen-IsDecoded none rest h k = k
chosen-IsDecoded (some []) rest h k = k
chosen-IsDecoded (some (u ∷ us)) rest h k = h (u ∷ us) refl

first_users-IsDecoded :
    (keys : List String) (children : List (String × List User))
    → AllDecoded children
    → All IsDecoded (first_users keys children)
unfolding first_users
first_users-IsDecoded [] children h = tt
first_users-IsDecoded (key ∷ keys) children h =
    chosen-IsDecoded (find key children) (first_users keys children)
      (λ users found. find-AllDecoded key children users h found)
      (first_users-IsDecoded keys children h)

module _ (number_int scan_int : String → ℤ) where
  mutual
    unfolding collect_users

    collect_users-IsDecoded : (v : Json) → All IsDecoded (collect_users number_int scan_int v)
    collect_users-IsDecoded (array items) = item_users-IsDecoded number_int scan_int items
    collect_users-IsDecoded (object fs) =
        one_or-IsDecoded number_int scan_int (parse_user_object number_int scan_int (object fs)) _
          (parse_user_object-IsDecoded number_int scan_int (object fs))
          (first_users-IsDecoded response_keys (child_users number_int scan_int fs)
            (child_users-IsDecoded fs))
    collect_users-IsDecoded null = tt
    collect_users-IsDecoded (boolean b) = tt
    collect_users-IsDecoded (number n) = tt
    collect_users-IsDecoded (text s) = tt

    child_users-IsDecoded : (fs : Fields) → AllDecoded (child_users number_int scan_int fs)
    child_users-IsDecoded no_fields = tt
    child_users-IsDecoded (field k v fs) = (collect_users-IsDecoded v, child_users-IsDecoded fs)

  one_user-IsDecoded :
      (users : List User) (user : User)
      → All IsDecoded users
      → one_user number_int scan_int users ≡ some user
      → IsDecoded user
  one_user-IsDecoded (u ∷ []) user all h = subst IsDecoded (ground (arith, h)) all.0
  one_user-IsDecoded _ user all h = absurd (ground (arith, h))

  -- A user that DecodeUser returns has a name or a UUID, and every one of its squads has a UUID.
  pub decode_user-IsDecoded :
      (root : Json) (user : User)
      → decode_user number_int scan_int (some root) ≡ some user
      → IsDecoded user
  unfolding decode_user
  decode_user-IsDecoded root user h =
      one_user-IsDecoded (collect_users number_int scan_int root) user
        (collect_users-IsDecoded root) h

  allowed_squads :
      (allowed : List String) (squads : List SquadRef)
      → All HasUuid squads
      → All (λ s. (s.uuid ≡ "") ⊎ (contains allowed s.uuid ≡ true)) squads
      → All (λ s. contains allowed s.uuid ≡ true) squads
  allowed_squads allowed [] named within = tt
  allowed_squads allowed (s ∷ squads) named within =
      let rest = allowed_squads allowed squads named.1 within.1 in
      elim within.0 [
        | inl e ↦ absurd (ground (arith, eq_iff s.uuid "", e, named.0))
        | inr e ↦ (e, rest)
      ]

  restricted :
      (allowed : List String) (squads : List SquadRef)
      → allowed ≢ []
      → All HasUuid squads
      → IsWithin allowed squads
      → (squads ≢ []) × All (λ s. contains allowed s.uuid ≡ true) squads
  restricted allowed squads some_allowed named (inl e) = absurd (some_allowed e)
  restricted allowed squads some_allowed named (inr e) =
      (e.0, allowed_squads allowed squads named e.1)

  -- If a token restricts the internal squads, a user that DecodeUser returns and OwnsUser accepts is in at
  -- least one internal squad, active or not, and all its internal squads are allowed ones.
  pub owned_squads_allowed :
      (matches_regex : String → String → Option Bool) (tok : TokenPolicy) (root : Json)
      (user : User)
      → decode_user number_int scan_int (some root) ≡ some user
      → owns_user matches_regex (some tok) user ≡ none
      → tok.constraints.allowed_internal_squads ≢ []
      → (internal_squads_of user ≢ [])
        × All
            (λ s. contains tok.constraints.allowed_internal_squads s.uuid ≡ true)
            (internal_squads_of user)
  owned_squads_allowed matches_regex tok root user decoded owned some_allowed =
      restricted tok.constraints.allowed_internal_squads (internal_squads_of user) some_allowed
        ((decode_user-IsDecoded root user decoded).internal)
        ((owns_user-IsOwned matches_regex tok user owned).internal)
