-- ===== src/Server/ListFilter/Visible.antt =====
-- internal/server/server.go: what a filtered list shows.
use remnaguard.Prelude.{
  eq_iff, false, ℕ, String, Option, none, some, List, [], ◌∷◌, ◌==◌, ◌≡◌, refl, ap, subst, arith,
  find, Bool-cases, inl, inr,
}
use remnaguard.Json.{
  Json, null, boolean, number, text, array, object, Fields, no_fields, field, get_field,
}
use remnaguard.Server.ListFilter.{
  ResponsePage, items_length, slice_page, Listed, listed, keep_items, set_field, list_keys,
  or_later, first_filtered, put_back, filter_list_node, filter_children,
}
use remnaguard.Server.ListFilter.Slices.{Shows, inside, ShowsAll, filtered-Shows}

pub get-set_field :
    (key : String) (v old : Json) (fs : Fields)
    → get_field key fs ≡ some old
    → get_field key (set_field key v fs) ≡ some v
unfolding get_field set_field
get-set_field key v old no_fields h = absurd (ground (arith, h))
get-set_field key v old (field k w fs) h = elim (Bool-cases (k == key)) [
  | inl e ↦ ground (arith, e)
  | inr e ↦ ground (arith, e, get-set_field key v old fs (ground (arith, h, e)))
]

get-set_field_other :
    (key k : String) (v : Json) (fs : Fields)
    → (k == key) ≡ false
    → get_field k (set_field key v fs) ≡ get_field k fs
unfolding get_field set_field
get-set_field_other key k v no_fields h = refl
get-set_field_other key k v (field l w fs) h =
    ground (arith, h, eq_iff k key, eq_iff l key, eq_iff l k, get-set_field_other key k v fs h)

abbrev or_else {ℓ} : {A : Type ℓ} → A → Option A → A
or_else x none = x
or_else x (some y) = y

option-inj {ℓ} : {A : Type ℓ} (x y : A) → some x ≡ some y → x ≡ y
option-inj x y e = ap (λ o. or_else x o) e

pair-inj : (x y : Listed) → some x ≡ some y → x ≡ y
pair-inj x y e = option-inj x y e

triple-inj : (x y : String × Listed) → some x ≡ some y → x ≡ y
triple-inj x y e = option-inj x y e

module _ (page : Option ResponsePage) (keep : Json → Option Json) where
  -- What is returned for a value shows of it what it may.
  abbrev Good : Json → Option Listed → Type 0
  Good v o = (out : Option Json) (n : ℕ) → o ≡ some (out, n) → ShowsAll keep n v out

  -- Every filtered child is in its field.
  abbrev GoodChildren : Fields → List (String × Option Listed) → Type 0
  GoodChildren fs children =
      (key : String) (o : Option Listed)
      → find key children ≡ some o
      → (old : Json) × (get_field key fs ≡ some old) × Good old o

  -- What is shown of the child under a key.
  abbrev ShowsChild : Fields → String → Option Json → ℕ → Type 0
  ShowsChild fs k out n = (old : Json) × (get_field k fs ≡ some old) × ShowsAll keep n old out

  or_later_lem :
      (fs : Fields) (children : List (String × Option Listed)) (key : String)
      (o : Option (Option Listed)) (later : Option (String × Listed)) (k : String) (v : Option Json)
      (n : ℕ)
      → GoodChildren fs children
      → find key children ≡ o
      → (later ≡ some (k, (v, n)) → ShowsChild fs k v n)
      → or_later key o later ≡ some (k, (v, n))
      → ShowsChild fs k v n
  or_later_lem fs children key (some (some (w, m))) later k v n good found next h =
      let (old, found_there, shown) = good key (some (w, m)) found in
      let same : (key, (w, m)) ≡ (k, (v, n)) = triple-inj (key, (w, m)) (k, (v, n)) h in
      subst (λ (t : String × Listed). ShowsChild fs t.0 t.1.0 t.1.1) same
        (old, found_there, shown w m refl)
  or_later_lem fs children key (some none) later k v n good found next h = next h
  or_later_lem fs children key none later k v n good found next h = next h

  first_filtered_lem :
      (fs : Fields) (children : List (String × Option Listed)) (keys : List String) (k : String)
      (v : Option Json) (n : ℕ)
      → GoodChildren fs children
      → first_filtered keys children ≡ some (k, (v, n))
      → ShowsChild fs k v n
  unfolding first_filtered
  first_filtered_lem fs children [] k v n good h = absurd (ground (arith, h))
  first_filtered_lem fs children (key ∷ keys) k v n good h =
      or_later_lem fs children key (find key children) (first_filtered keys children) k v n good
        refl (first_filtered_lem fs children keys k v n good) h

  put_back-Good :
      (fs : Fields) (o : Option (String × Listed))
      → ((k : String) (v : Option Json) (n : ℕ) → o ≡ some (k, (v, n)) → ShowsChild fs k v n)
      → Good (object fs) (put_back fs o)
  put_back-Good fs none good w m h = absurd (ground (arith, h))
  put_back-Good fs (some (k, (none, n))) good w m h =
      subst (λ (t : Listed). ShowsAll keep t.1 (object fs) t.0) (pair-inj (none, n) (w, m) h) tt
  put_back-Good fs (some (k, (some v, n))) good w m h =
      let (old, found_there, shown) = good k (some v) n refl in
      let same : (some (object (set_field k v fs)), n) ≡ (w, m) =
        pair-inj (some (object (set_field k v fs)), n) (w, m) h in
      subst (λ (t : Listed). ShowsAll keep t.1 (object fs) t.0) same
        (inside k old v fs (set_field k v fs) found_there (get-set_field k v old fs found_there)
          (λ l other. get-set_field_other k l v fs other) shown)

  mutual
    unfolding filter_list_node find get_field

    filter_list_node-Good : (v : Json) → Good v (filter_list_node page keep v)
    filter_list_node-Good (array items) w m h =
        let out = keep_items keep items in
        subst (λ (t : Listed). ShowsAll keep t.1 (array items) t.0)
          (pair-inj (listed (slice_page page out), items_length out) (w, m) h)
          (filtered-Shows keep page items)
    filter_list_node-Good (object fs) w m h =
        put_back-Good fs (first_filtered list_keys (filter_children page keep fs))
          (λ k v n e.
            first_filtered_lem fs (filter_children page keep fs) list_keys k v n
              (filter_children-Good fs) e)
          w m h
    filter_list_node-Good null w m h = absurd (ground (arith, h))
    filter_list_node-Good (boolean b) w m h = absurd (ground (arith, h))
    filter_list_node-Good (number n) w m h = absurd (ground (arith, h))
    filter_list_node-Good (text s) w m h = absurd (ground (arith, h))

    filter_children-Good : (fs : Fields) → GoodChildren fs (filter_children page keep fs)
    filter_children-Good no_fields key o found = absurd (ground (arith, found))
    filter_children-Good (field k v fs) key o found =
        let first = filter_list_node-Good v in
        let others = filter_children-Good fs key o in
        elim (Bool-cases (k == key)) [
          | inl e ↦ (
            v,
            ground (arith, e),
            subst (Good v) (option-inj (filter_list_node page keep v) o (ground (arith, found, e)))
                first,
          )
          | inr e ↦
              let (old, found_there, good) = others (ground (arith, found, e)) in
              (old, ground (arith, e, found_there), good)
        ]

  -- When filterListNodePaged accepts a value without a panic, what it returns is the value but for a list,
  -- itself or down a chain of fields, that shows only what the test makes of items that it keeps, in
  -- their order; the count that it returns is the number of items of that list that the test keeps,
  -- and not more of them are shown.
  pub filter_list_node-Shows :
      (v out : Json) (count : ℕ)
      → filter_list_node page keep v ≡ some (some out, count)
      → Shows keep count v out
  filter_list_node-Shows v out count h = filter_list_node-Good v (some out) count h
