-- ===== src/Server/Body/Allowed.antt =====
-- internal/server/server.go with internal/jsonpolicy/jsonpolicy.go: the bodies that validateBodyPolicy accepts.
use remnaguard.Prelude.{
  String, Bool, true, false, Option, none, some, List, [], ◌∷◌, ◌≡◌, ◌≢◌, ◌⊎◌, inl, inr, refl,
  arith, All, is_empty, eq_iff, or_false, and_true,
}
use remnaguard.Config.{Constraints, contains}
use remnaguard.Config.Valid.{NoRepeat}
use remnaguard.Json.{Json, object, Fields, no_fields, field, get_field}
use remnaguard.Json.Unmarshal.{unmarshal_strings}
use remnaguard.Json.Policy.{
  decoded, has_duplicate, decode_object_no_duplicate_keys, all_allowed, keys_of,
}
use remnaguard.Remnawave.Ownership.{first_error-none}
use remnaguard.Server.Body.Resources.{
  require_allowed_uuid, require_allowed_uuid_or_all, object_uuid_from_raw, patched_error, Patched,
  hosts_error, bulk_error, templates, internal_squads, external_squads, profiles, hosts, bulk_hosts,
  nodes, unlisted,
}

NoRepeat-keys :
    (seen : List String) (fs : Fields) → has_duplicate seen fs ≡ false → NoRepeat seen (keys_of fs)
unfolding has_duplicate
NoRepeat-keys seen no_fields h = tt
NoRepeat-keys seen (field k v fs) h =
    let (fresh, later) = or_false _ _ h in (fresh, NoRepeat-keys (k ∷ seen) fs later)

-- DecodeObjectNoDuplicateKeys gives an object exactly if the text spells one whose keys are all different,
-- and then that object.
pub decode_object_no_duplicate_keys_lem :
    (o : Option Json) (fs : Fields)
    → decode_object_no_duplicate_keys o ≡ decoded fs
    → (o ≡ some (object fs)) × NoRepeat [] (keys_of fs)
unfolding decode_object_no_duplicate_keys
decode_object_no_duplicate_keys_lem o fs h =
    (ground (arith, h), NoRepeat-keys [] fs (ground (arith, h)))

pub all_allowed_lem :
    (allowed : List String) (fs : Fields)
    → all_allowed allowed fs ≡ true
    → All (λ key. contains allowed key ≡ true) (keys_of fs)
unfolding all_allowed
all_allowed_lem allowed no_fields h = tt
all_allowed_lem allowed (field k v fs) h =
    let (here, later) = and_true _ _ h in (here, all_allowed_lem allowed fs later)

-- A resource that a token names, and that is one of the allowed ones unless all are.
abbrev pub MayTouch : Bool → List String → String → Type 0
MayTouch allow_all allowed uuid =
    (uuid ≢ "") × ((allow_all ≡ true) ⊎ (contains allowed uuid ≡ true))

may_touch :
    (uuid : String) (allowed : List String) (allow_all : Bool) (reason : String)
    → require_allowed_uuid_or_all uuid allowed allow_all reason ≡ none
    → MayTouch allow_all allowed uuid
unfolding require_allowed_uuid_or_all require_allowed_uuid
may_touch uuid allowed true reason h = (λ e. ground (arith, h, (eq_iff uuid "").1 e), inl refl)
may_touch uuid allowed false reason h =
    (λ e. ground (arith, h, (eq_iff uuid "").1 e), inr (ground (arith, h)))

one_listed :
    (uuid : String) (allowed : List String) (reason : String)
    → require_allowed_uuid uuid allowed reason ≡ none
    → MayTouch false allowed uuid
unfolding require_allowed_uuid
one_listed uuid allowed reason h =
    (λ e. ground (arith, h, (eq_iff uuid "").1 e), inr (ground (arith, h)))

hosts_lem :
    (c : Constraints) (uuids : List String)
    → hosts_error c uuids ≡ none
    → All (MayTouch c.allow_all_hosts c.allowed_hosts) uuids
unfolding hosts_error
hosts_lem c [] h = tt
hosts_lem c (uuid ∷ uuids) h =
    let (here, later) = first_error-none _ _ h in
    (may_touch uuid c.allowed_hosts c.allow_all_hosts "host_denied" here, hosts_lem c uuids later)

-- What a PATCH of a resource may name, by the kind of the resource.
abbrev pub MayPatch : Patched → Fields → Constraints → Type 0
MayPatch templates obj c =
    MayTouch false c.allowed_subscription_templates (object_uuid_from_raw obj)
MayPatch internal_squads obj c =
    MayTouch false c.allowed_writable_internal_squads (object_uuid_from_raw obj)
MayPatch external_squads obj c =
    MayTouch false c.allowed_writable_external_squads (object_uuid_from_raw obj)
MayPatch profiles obj c =
    MayTouch c.allow_all_config_profiles c.allowed_config_profiles (object_uuid_from_raw obj)
MayPatch hosts obj c = MayTouch c.allow_all_hosts c.allowed_hosts (object_uuid_from_raw obj)
MayPatch bulk_hosts obj c =
    (raw : Json) × (uuids : List String) × (get_field "uuids" obj ≡ some raw)
    × (unmarshal_strings raw ≡ some uuids)
    × (is_empty uuids ≡ false)
    × All (MayTouch c.allow_all_hosts c.allowed_hosts) uuids
MayPatch nodes obj c = MayTouch c.allow_all_nodes c.allowed_nodes (object_uuid_from_raw obj)
MayPatch unlisted obj c = Unit

bulk_lem :
    (c : Constraints) (obj : Fields) (o : Option Json)
    → get_field "uuids" obj ≡ o
    → bulk_error c o ≡ none
    → MayPatch bulk_hosts obj c
bulk_lem c obj none e h = absurd (ground (arith, h))
bulk_lem c obj (some raw) e h =
    let (uuids, read, some_ids, all) = go (unmarshal_strings raw) refl in
    (raw, uuids, e, read, some_ids, all)
  where
    go :
        (o : Option (List String))
        → unmarshal_strings raw ≡ o
        → (uuids : List String) × (unmarshal_strings raw ≡ some uuids)
          × (is_empty uuids ≡ false)
          × All (MayTouch c.allow_all_hosts c.allowed_hosts) uuids
    go none f = absurd (ground (arith, h, f))
    go (some []) f = absurd (ground (arith, h, f))
    go (some (uuid ∷ uuids)) f =
        (uuid ∷ uuids, f, refl, hosts_lem c (uuid ∷ uuids) (ground (arith, h, f)))

pub patched_lem :
    (k : Patched) (obj : Fields) (c : Constraints) → patched_error k obj c ≡ none → MayPatch k obj c
unfolding patched_error
patched_lem templates obj c h = one_listed _ _ _ h
patched_lem internal_squads obj c h = one_listed _ _ _ h
patched_lem external_squads obj c h = one_listed _ _ _ h
patched_lem profiles obj c h = may_touch _ _ _ _ h
patched_lem hosts obj c h = may_touch _ _ _ _ h
patched_lem bulk_hosts obj c h = bulk_lem c obj (get_field "uuids" obj) refl h
patched_lem nodes obj c h = may_touch _ _ _ _ h
patched_lem unlisted obj c h = tt
