-- ===== src/Server/Login/Members.antt =====
-- encoding/json: the members of a struct that json.Unmarshal or a decoder fills. A key is taken in any case, the
-- last one stays, and none is an error. What is missing keeps its zero value.
use remnaguard.Prelude.{String, Option, none, some, if◌then◌else◌, ◌==◌, to_lower, ℤ, atoi}
use remnaguard.Json.{Json, null, number, text, object, Fields, no_fields, field}

abbrev text_or : String → Json → Option String
text_or s null = some s
text_or s (text t) = some t
text_or s _ = none

-- A member that is a string, for its name in lower case.
unfoldable pub text_member : String → Option String → Fields → Option String
text_member name acc no_fields = acc
text_member name none (field k v fs) = none
text_member name (some s) (field k v fs) =
    text_member name (if to_lower k == name then text_or s v else some s) fs

abbrev int_or : ℤ → Json → Option ℤ
int_or n null = some n
int_or n (number m) = atoi m
int_or n _ = none

-- A member that is an int64.
unfoldable pub int_member : String → Option ℤ → Fields → Option ℤ
int_member name acc no_fields = acc
int_member name none (field k v fs) = none
int_member name (some n) (field k v fs) =
    int_member name (if to_lower k == name then int_or n v else some n) fs

-- A member that is a json.RawMessage; none where there is none.
unfoldable pub raw_member : String → Option Json → Fields → Option Json
raw_member name acc no_fields = acc
raw_member name acc (field k v fs) = raw_member name (if to_lower k == name then some v else acc) fs

-- The members of what a struct is decoded from: none at all for a null.
unfoldable pub members_of : Option Json → Option Fields
members_of (some (object fs)) = some fs
members_of (some null) = some no_fields
members_of _ = none
