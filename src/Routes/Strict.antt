-- ===== src/Routes/Strict.antt =====
-- internal/routes/catalog.go: what CheckOpenAPIStrict has compared.
use remnaguard.Prelude.{
  String, Bool, true, false, not, Option, List, [], ◌∷◌, ◌++◌, ◌==◌, ◌≡◌, refl, ap, sym, ◌∙◌, subst,
  arith, All, Bool-cases, inl, inr, is_empty, keep, map, eq_iff, and_true, not_true,
}
use remnaguard.Config.{contains}
use remnaguard.Config.Valid.{NoRepeat}
use remnaguard.Routes.Types.{Route}
use remnaguard.Routes.Openapi.{
  shape_key, route_faults, duplicate_keys, catalog_faults, spec_keys, want_keys, distinct,
  insert_text, sort_texts, check_openapi, check_openapi_strict,
}

insert_some : (s : String) (ts : List String) → is_empty (insert_text s ts) ≡ false
unfolding insert_text
insert_some s [] = refl
insert_some s (t ∷ ts) = ground arith

sort_none : (ss : List String) → is_empty (sort_texts ss) ≡ true → is_empty ss ≡ true
unfolding sort_texts
sort_none [] h = refl
sort_none (s ∷ ss) h = absurd (ground (arith, h, insert_some s (sort_texts ss)))

contains-distinct : (ks : List String) (k : String) → contains (distinct ks) k ≡ contains ks k
unfolding distinct contains
contains-distinct [] k = refl
contains-distinct (j ∷ ks) k = elim (Bool-cases (contains ks j)) [
  | inl e ↦ ground (arith, e, contains-distinct ks k, eq_iff j k, ap (contains ks))
  | inr e ↦ ground (arith, e, contains-distinct ks k)
]

keep_none :
    (p : String → Bool) (ks : List String) (k : String)
    → is_empty (keep p ks) ≡ true
    → contains ks k ≡ true
    → p k ≡ false
unfolding contains
keep_none p [] k h c = absurd (ground (arith, c))
keep_none p (j ∷ ks) k h c = elim (Bool-cases (p j)) [
  | inl e ↦ absurd (ground (arith, h, e))
  | inr e ↦ elim (Bool-cases (j == k)) [
    | inl f ↦ subst (λ x. p x ≡ false) ((eq_iff j k).0 f) e
    | inr f ↦ keep_none p ks k (ground (arith, h, e)) (ground (arith, c, f))
  ]
]

-- A key of one set that is none of the rest is in the other.
inside :
    (xs ys : List String) (k : String)
    → is_empty (sort_texts (keep (λ j. not (contains ys j)) (distinct xs))) ≡ true
    → contains xs k ≡ true
    → contains ys k ≡ true
inside xs ys k h c =
    let out =
      keep_none (λ j. not (contains ys j)) (distinct xs) k
        (sort_none (keep (λ j. not (contains ys j)) (distinct xs)) h)
        (contains-distinct xs k ∙ c) in
    ground (arith, out)

same_members :
    (xs ys : List String) (k : String)
    → (contains xs k ≡ true → contains ys k ≡ true)
    → (contains ys k ≡ true → contains xs k ≡ true)
    → contains xs k ≡ contains ys k
same_members xs ys k f g = elim (Bool-cases (contains xs k)) [
  | inl e ↦ e ∙ sym (f e)
  | inr e ↦ e ∙ sym (not_true (contains ys k) (λ c. ground (arith, g c, e)))
]

NoRepeat-shapes :
    (seen : List String) (rs : List Route)
    → is_empty (duplicate_keys seen rs) ≡ true
    → NoRepeat seen (map shape_key rs)
unfolding duplicate_keys
NoRepeat-shapes seen [] h = tt
NoRepeat-shapes seen (r ∷ rs) h = elim (Bool-cases (contains seen (shape_key r))) [
  | inl e ↦ absurd (ground (arith, h, e))
  | inr e ↦ (e, NoRepeat-shapes (shape_key r ∷ seen) rs (ground (arith, h, e)))
]

append_none :
    (xs ys : List String) → is_empty (xs ++ ys) ≡ true → (is_empty xs ≡ true) × (is_empty ys ≡ true)
append_none [] ys h = (refl, h)
append_none (x ∷ xs) ys h = absurd (ground (arith, h))

faultless :
    (rs : List Route)
    → is_empty (catalog_faults rs) ≡ true
    → All (λ r. is_empty (route_faults (shape_key r) r) ≡ true) rs
unfolding catalog_faults
faultless [] h = tt
faultless (r ∷ rs) h =
    let (here, later) = append_none (route_faults (shape_key r) r) (catalog_faults rs) h in
    (here, faultless rs later)

-- A catalog that CheckOpenAPIStrict accepts has exactly the document's methods and path shapes, none of them
-- twice, and no route of it lacks what a route has to have.
pub check_openapi_strict-IsComplete :
    (catalog : List Route) (paths : List (String × Option (List String)))
    → check_openapi_strict catalog paths ≡ true
    → ((key : String) → contains (want_keys catalog) key ≡ contains (spec_keys paths) key)
      × NoRepeat [] (map shape_key catalog)
      × All (λ r. is_empty (route_faults (shape_key r) r) ≡ true) catalog
unfolding check_openapi_strict check_openapi
check_openapi_strict-IsComplete catalog paths h =
    let want = want_keys catalog in
    let got = spec_keys paths in
    let (h3, duplicates) = and_true _ _ h in
    let (h2, _) = and_true _ _ h3 in
    let (h1, invalid) = and_true _ _ h2 in
    let (unknown, removed) = and_true _ _ h1 in
    (
      λ key. same_members want got key (inside want got key removed) (inside got want key unknown),
      NoRepeat-shapes [] catalog (sort_none (duplicate_keys [] catalog) duplicates),
      faultless catalog (sort_none (catalog_faults catalog) invalid),
    )
