-- ===== src/Json.antt =====
-- A decoded JSON value, as encoding/json gives it with UseNumber: a number keeps its text, an object is
-- a map, here a list of its entries with distinct keys.
use remnaguard.Prelude.{String, Bool, Option, none, some, if◌then◌else◌, ◌==◌}
pub mod Unmarshal
pub mod Policy

mutual
  pub data Json : Type 0 where
    null : Json
    boolean : Bool → Json
    number : String → Json
    text : String → Json
    array : Items → Json
    object : Fields → Json

  pub data Items : Type 0 where
    no_items : Items
    item : Json → Items → Items

  pub data Fields : Type 0 where
    no_fields : Fields
    field : String → Json → Fields → Fields

-- obj[key]
unfoldable pub get_field : String → Fields → Option Json
get_field key no_fields = none
get_field key (field k v fs) = let rest = get_field key fs in if k == key then some v else rest
