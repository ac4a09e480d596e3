-- ===== src/Json/Policy.antt =====
-- internal/jsonpolicy/jsonpolicy.go: the decoding of an object without duplicate keys, and the check of its
-- fields. A document is given as the value that it spells, with an object's members in their order and as
-- often as they stand there; none stands for a text that spells no value.
use remnaguard.Prelude.{
  String, Bool, true, false, Option, none, some, List, [], ◌∷◌, ◌&&◌, ◌||◌, if◌then◌else◌,
}
use remnaguard.Config.{contains}
use remnaguard.Json.{Json, object, Fields, no_fields, field}

pub data Decoded : Type 0 where
  decoded : Fields → Decoded
  undecoded : String → Decoded

-- The loop's test for a key that came before.
unfoldable pub has_duplicate : List String → Fields → Bool
has_duplicate seen no_fields = false
has_duplicate seen (field key raw fs) = contains seen key || has_duplicate (key ∷ seen) fs

-- DecodeObjectNoDuplicateKeys, of a text within the limit
unfoldable pub decode_object_no_duplicate_keys : Option Json → Decoded
decode_object_no_duplicate_keys none = undecoded "invalid JSON"
decode_object_no_duplicate_keys (some (object fs)) =
    if has_duplicate [] fs then undecoded "duplicate JSON key" else decoded fs
decode_object_no_duplicate_keys (some _) = undecoded "top-level JSON object required"

-- A set of allowed keys, and the loop over the object's keys.
unfoldable pub all_allowed : List String → Fields → Bool
all_allowed allowed no_fields = true
all_allowed allowed (field key raw fs) = contains allowed key && all_allowed allowed fs

-- ValidateFields
unfoldable pub validate_fields : Fields → List String → Option String
validate_fields obj allowed = if all_allowed allowed obj then none else some "unknown JSON field"

abbrev pub keys_of : Fields → List String
keys_of no_fields = []
keys_of (field k v fs) = k ∷ keys_of fs
