-- ===== src/Server/Response/Redacted.antt =====
-- internal/server/server.go: what redactSquadResponse leaves of a squad.
use remnaguard.Prelude.{
  String, Bool, true, false, Option, none, some, List, [], ◌∷◌, ◌==◌, ◌≡◌, ◌≢◌, inl, inr, refl, ap,
  subst, arith, All, Bool-cases, find, eq_iff,
}
use remnaguard.Config.{contains}
use remnaguard.Json.{
  Json, null, boolean, number, text, array, object, Fields, no_fields, field, get_field,
}
use remnaguard.Json.Policy.{keys_of}
use remnaguard.Proxy.{Response}
use remnaguard.Remnawave.Decode.{string_of}
use remnaguard.Server.Env.{Env}
use remnaguard.Server.Request.{ok}
use remnaguard.Server.ListFilter.{set_field}
use remnaguard.Server.ListFilter.Visible.{get-set_field}
use remnaguard.Server.Response.Squads.{
  uuid_of, keep_fields, squad_keys, sanitize_squad_object, squad_children, or_child, first_squad,
  with_child, sanitize_squad_node, sanitize_children,
}
use remnaguard.Server.Response.Policy.{redact_squad_response, redacted}

-- A squad with a UUID and nothing but the keys that may be seen, itself or in a field.
pub data Redacted : Json → Type 0 where
  here :
      (fs : Fields)
      → uuid_of fs ≢ ""
      → All (λ key. contains squad_keys key ≡ true) (keys_of fs)
      → Redacted (object fs)
  inside :
      (key : String) (child : Json) (fs : Fields)
      → get_field key fs ≡ some child
      → Redacted child
      → Redacted (object fs)

keep_fields_lem :
    (stays : String → Bool) (fs : Fields)
    → All (λ key. stays key ≡ true) (keys_of (keep_fields stays fs))
unfolding keep_fields
keep_fields_lem stays no_fields = tt
keep_fields_lem stays (field k v fs) = elim (Bool-cases (stays k)) [
  | inl e ↦ rw e (e, keep_fields_lem stays fs)
  | inr e ↦ rw e (keep_fields_lem stays fs)
]

get-keep_fields :
    (stays : String → Bool) (key : String) (fs : Fields)
    → stays key ≡ true
    → get_field key (keep_fields stays fs) ≡ get_field key fs
unfolding keep_fields get_field
get-keep_fields stays key no_fields h = refl
get-keep_fields stays key (field k v fs) h =
    ground (arith, h, eq_iff k key, get-keep_fields stays key fs h, ap stays)

option-inj : (v w : Json) → some v ≡ some w → v ≡ w
option-inj v w e = ground (arith, e)

-- What a child gives is in its field.
abbrev GoodChildren : Fields → List (String × Option Json) → Type 0
GoodChildren fs children =
    (key : String) (w : Json)
    → find key children ≡ some (some w)
    → ((old : Json) × (get_field key fs ≡ some old)) × Redacted w

or_child_lem :
    (fs : Fields) (children : List (String × Option Json)) (key : String) (o : Option (Option Json))
    (later : Option (String × Json)) (k : String) (v : Json)
    → GoodChildren fs children
    → find key children ≡ o
    → (later ≡ some (k, v) → ((old : Json) × (get_field k fs ≡ some old)) × Redacted v)
    → or_child key o later ≡ some (k, v)
    → ((old : Json) × (get_field k fs ≡ some old)) × Redacted v
or_child_lem fs children key none later k v good found next h = next h
or_child_lem fs children key (some none) later k v good found next h = next h
or_child_lem fs children key (some (some w)) later k v good found next h =
    let (listed, shown) = good key w found in
    (
      subst (λ j. (old : Json) × (get_field j fs ≡ some old)) (ground (arith, h)) listed,
      subst Redacted (ground (arith, h)) shown,
    )

first_squad_lem :
    (fs : Fields) (children : List (String × Option Json)) (keys : List String) (k : String)
    (v : Json)
    → GoodChildren fs children
    → first_squad keys children ≡ some (k, v)
    → ((old : Json) × (get_field k fs ≡ some old)) × Redacted v
unfolding first_squad
first_squad_lem fs children [] k v good h = absurd (ground (arith, h))
first_squad_lem fs children (key ∷ keys) k v good h =
    or_child_lem fs children key (find key children) (first_squad keys children) k v good refl
      (first_squad_lem fs children keys k v good) h

with_child_lem :
    (fs : Fields) (o : Option (String × Json)) (w : Json)
    → ((k : String) (v : Json)
        → o ≡ some (k, v)
        → ((old : Json) × (get_field k fs ≡ some old)) × Redacted v)
    → with_child fs o ≡ some w
    → Redacted w
with_child_lem fs none w good h = absurd (ground (arith, h))
with_child_lem fs (some (k, v)) w good h =
    let ((old, listed), shown) = good k v refl in
    subst Redacted (option-inj (object (set_field k v fs)) w h)
      (inside k v (set_field k v fs) (get-set_field k v old fs listed) shown)

sanitized :
    (fs : Fields) → (uuid_of fs == "") ≡ false → Redacted (object (sanitize_squad_object fs))
unfolding sanitize_squad_object contains
sanitized fs e =
    here (keep_fields (contains squad_keys) fs)
      (λ blank. ground (
        arith,
        e,
        (eq_iff (uuid_of fs) "").1 (
            subst (λ o. string_of o ≡ "") (get-keep_fields (contains squad_keys) "uuid" fs refl)
              blank),
      ))
      (keep_fields_lem (contains squad_keys) fs)

mutual
  unfolding sanitize_squad_node find get_field

  -- Where a squad was found, it is left with the keys that may be seen only.
  pub sanitize_squad_node-Redacted : (v w : Json) → sanitize_squad_node v ≡ some w → Redacted w
  sanitize_squad_node-Redacted (object fs) w h = elim (Bool-cases (uuid_of fs == "")) [
    | inl e ↦
        with_child_lem fs (first_squad squad_children (sanitize_children fs)) w
          (λ k v f.
            first_squad_lem fs (sanitize_children fs) squad_children k v (children-Redacted fs) f)
          (ground (arith, h, e))
    | inr e ↦
        subst Redacted (option-inj (object (sanitize_squad_object fs)) w (ground (arith, h, e)))
          (sanitized fs e)
  ]
  sanitize_squad_node-Redacted null w h = absurd (ground (arith, h))
  sanitize_squad_node-Redacted (boolean b) w h = absurd (ground (arith, h))
  sanitize_squad_node-Redacted (number n) w h = absurd (ground (arith, h))
  sanitize_squad_node-Redacted (text s) w h = absurd (ground (arith, h))
  sanitize_squad_node-Redacted (array items) w h = absurd (ground (arith, h))

  children-Redacted : (fs : Fields) → GoodChildren fs (sanitize_children fs)
  children-Redacted no_fields key w found = absurd (ground (arith, found))
  children-Redacted (field k v fs) key w found = elim (Bool-cases (k == key)) [
    | inl e ↦ ((v, ground (arith, e)), sanitize_squad_node-Redacted v w (ground (arith, found, e)))
    | inr e ↦
        let (listed, good) = children-Redacted fs key w (ground (arith, found, e)) in
        ((listed.0, ground (arith, e, listed.1)), good)
  ]

redacted_lem :
    (env : Env) (res out : Response) (o : Option Json)
    → redacted env res o ≡ ok out
    → (w : Json) × (o ≡ some w) × (out.body ≡ env.write_json w)
redacted_lem env res out none h = absurd (ground (arith, h))
redacted_lem env res out (some w) h = (w, refl, ground (arith, h))

-- The body that redactSquadResponse writes is a squad, itself or down a chain of fields, that has a UUID and
-- besides it its name and its view position at most.
pub redact_squad_response-Redacted :
    (env : Env) (res out : Response) (root : Option Json)
    → redact_squad_response env res root ≡ ok out
    → (w : Json) × (out.body ≡ env.write_json w) × Redacted w
unfolding redact_squad_response
redact_squad_response-Redacted env res out none h = absurd (ground (arith, h))
redact_squad_response-Redacted env res out (some root) h =
    let (w, found, body) = redacted_lem env res out (sanitize_squad_node root) h in
    (w, body, sanitize_squad_node-Redacted root w found)
