-- ===== src/Server/ListFilter/Slices.antt =====
-- internal/server/server.go: what slicePage leaves of a list of items that a test keeps.
use remnaguard.Prelude.{
  wrap_int, ◌∙◌, ap, false, ◌==◌, ℕ, zero, suc, ◌+◌, ◌≤◌, String, Option, none, some, ◌≡◌, refl,
  arith, leb, nat_eq, if_both, ℤ, pos, negsuc,
}
use remnaguard.Json.{Json, array, object, Items, no_items, item, Fields, get_field}
use remnaguard.Server.ListFilter.{
  ResponsePage, items_length, drop_items, take_items, slice_page, slice_to, slice_from, listed,
  and_item, keep_items,
}

-- The items of the second list are what the test makes of items of the first that it keeps, in their order.
pub data ShownOf (keep : Json → Option Json) : Items → Items → Type 0 where
  end : ShownOf keep no_items no_items
  left_out : (v : Json) (vs ws : Items) → ShownOf keep vs ws → ShownOf keep (item v vs) ws
  shown :
      (v w : Json) (vs ws : Items)
      → keep v ≡ some w
      → ShownOf keep vs ws
      → ShownOf keep (item v vs) (item w ws)

abbrev pub one_if_kept : Option Json → ℕ
one_if_kept none = 0
one_if_kept (some w) = 1

-- The number of items that the test keeps.
abbrev pub kept_count : (Json → Option Json) → Items → ℕ
kept_count keep no_items = 0
kept_count keep (item v vs) = one_if_kept (keep v) + kept_count keep vs

-- A value and what is shown of it: a list, itself or in an object's field, becomes a list of what the test makes
-- of items that it keeps, whose number is n; the other fields of the objects around are as before.
pub data Shows (keep : Json → Option Json) (n : ℕ) : Json → Json → Type 0 where
  here :
      (items out : Items)
      → ShownOf keep items out
      → n ≡ kept_count keep items
      → items_length out ≤ n
      → Shows keep n (array items) (array out)
  inside :
      (key : String) (child child_shown : Json) (fs fs_shown : Fields)
      → get_field key fs ≡ some child
      → get_field key fs_shown ≡ some child_shown
      → ((k : String) → (k == key) ≡ false → get_field k fs_shown ≡ get_field k fs)
      → Shows keep n child child_shown
      → Shows keep n (object fs) (object fs_shown)

and_item-ShownOf :
    (keep : Json → Option Json) (v : Json) (o : Option Json) (vs rest : Items)
    → keep v ≡ o
    → ShownOf keep vs rest
    → ShownOf keep (item v vs) (and_item o rest)
and_item-ShownOf keep v none vs rest e h = left_out v vs rest h
and_item-ShownOf keep v (some w) vs rest e h = shown v w vs rest e h

pub keep_items-ShownOf :
    (keep : Json → Option Json) (items : Items) → ShownOf keep items (keep_items keep items)
unfolding keep_items
keep_items-ShownOf keep no_items = end
keep_items-ShownOf keep (item v vs) =
    and_item-ShownOf keep v (keep v) vs (keep_items keep vs) refl (keep_items-ShownOf keep vs)

length-and_item :
    (o : Option Json) (rest : Items)
    → items_length (and_item o rest) ≡ one_if_kept o + items_length rest
length-and_item none rest = omega arith
length-and_item (some w) rest = omega arith

pub length-keep_items :
    (keep : Json → Option Json) (items : Items)
    → items_length (keep_items keep items) ≡ kept_count keep items
unfolding keep_items
length-keep_items keep no_items = refl
length-keep_items keep (item v vs) =
    length-and_item (keep v) (keep_items keep vs)
    ∙ ap (λ n. one_if_kept (keep v) + n) (length-keep_items keep vs)

none_shown : (keep : Json → Option Json) (items : Items) → ShownOf keep items no_items
none_shown keep no_items = end
none_shown keep (item v vs) = left_out v vs no_items (none_shown keep vs)

drop_items-ShownOf :
    (keep : Json → Option Json) (n : ℕ) (items out : Items)
    → ShownOf keep items out
    → ShownOf keep items (drop_items n out)
unfolding drop_items
drop_items-ShownOf keep zero items out h = h
drop_items-ShownOf keep (suc n) no_items no_items end = end
drop_items-ShownOf keep (suc n) no_items (item w ws) h = elim h [ ]
drop_items-ShownOf keep (suc n) (item v vs) ws (left_out _ _ _ h) =
    left_out v vs (drop_items (suc n) ws) (drop_items-ShownOf keep (suc n) vs ws h)
drop_items-ShownOf keep (suc n) (item v vs) (item w ws) (shown _ _ _ _ e h) =
    left_out v vs (drop_items n ws) (drop_items-ShownOf keep n vs ws h)

take_items-ShownOf :
    (keep : Json → Option Json) (n : ℕ) (items out : Items)
    → ShownOf keep items out
    → ShownOf keep items (take_items n out)
unfolding take_items
take_items-ShownOf keep zero items out h = none_shown keep items
take_items-ShownOf keep (suc n) no_items no_items end = end
take_items-ShownOf keep (suc n) no_items (item w ws) h = elim h [ ]
take_items-ShownOf keep (suc n) (item v vs) ws (left_out _ _ _ h) =
    left_out v vs (take_items (suc n) ws) (take_items-ShownOf keep (suc n) vs ws h)
take_items-ShownOf keep (suc n) (item v vs) (item w ws) (shown _ _ _ _ e h) =
    shown v w vs (take_items n ws) e (take_items-ShownOf keep n vs ws h)

length-drop_items : (n : ℕ) (items : Items) → items_length (drop_items n items) ≤ items_length items
unfolding drop_items
length-drop_items zero items = omega arith
length-drop_items (suc n) no_items = omega arith
length-drop_items (suc n) (item v vs) = omega (arith, length-drop_items n vs)

length-take_items : (n : ℕ) (items : Items) → items_length (take_items n items) ≤ items_length items
unfolding take_items
length-take_items zero items = omega arith
length-take_items (suc n) no_items = omega arith
length-take_items (suc n) (item v vs) = omega (arith, length-take_items n vs)

-- What is shown of a list, unless the slice panics.
abbrev ShowsItems : (Json → Option Json) → Items → ℕ → Option Items → Type 0
ShowsItems keep items n none = Unit
ShowsItems keep items n (some out) = ShownOf keep items out × (items_length out ≤ n)

slice_to-Shows :
    (keep : Json → Option Json) (start size : ℕ) (end : ℤ) (items kept : Items)
    → ShownOf keep items kept
    → ShowsItems keep items (items_length kept) (slice_to start size end kept)
slice_to-Shows keep start size (negsuc e) items kept h = tt
slice_to-Shows keep start size (pos e) items kept h =
    let rest = drop_items start kept in
    (
      take_items-ShownOf keep size items rest (drop_items-ShownOf keep start items kept h),
      omega (arith, length-take_items size rest, length-drop_items start kept),
    )

slice_from-Shows :
    (keep : Json → Option Json) (start : ℤ) (size : ℕ) (items kept : Items)
    → ShownOf keep items kept
    → ShowsItems keep items (items_length kept) (slice_from start size kept)
slice_from-Shows keep (negsuc s) size items kept h = tt
slice_from-Shows keep (pos s) size items kept h =
    if_both (ShowsItems keep items (items_length kept)) (leb (items_length kept) s)
      (none_shown keep items, omega arith)
      (slice_to-Shows keep s size (wrap_int (s + size)) items kept h)

slice_page-Shows :
    (keep : Json → Option Json) (page : Option ResponsePage) (items kept : Items)
    → ShownOf keep items kept
    → ShowsItems keep items (items_length kept) (slice_page page kept)
unfolding slice_page
slice_page-Shows keep none items kept h = (h, omega arith)
slice_page-Shows keep (some page) items kept h =
    if_both (ShowsItems keep items (items_length kept)) (nat_eq page.size 0) (h, omega arith)
      (slice_from-Shows keep page.start page.size items kept h)

-- What is returned for a value, unless the slice panics.
abbrev pub ShowsAll : (Json → Option Json) → ℕ → Json → Option Json → Type 0
ShowsAll keep n v none = Unit
ShowsAll keep n v (some w) = Shows keep n v w

listed-Shows :
    (keep : Json → Option Json) (n : ℕ) (items : Items) (o : Option Items)
    → n ≡ kept_count keep items
    → ShowsItems keep items n o
    → ShowsAll keep n (array items) (listed o)
listed-Shows keep n items none e h = tt
listed-Shows keep n items (some out) e (parts, short) = here items out parts e short

-- A list whose items are filtered and sliced.
pub filtered-Shows :
    (keep : Json → Option Json) (page : Option ResponsePage) (items : Items)
    → ShowsAll keep
        (items_length (keep_items keep items))
        (array items)
        (listed (slice_page page (keep_items keep items)))
filtered-Shows keep page items =
    let kept = keep_items keep items in
    listed-Shows keep (items_length kept) items (slice_page page kept)
      (length-keep_items keep items)
      (slice_page-Shows keep page items kept (keep_items-ShownOf keep items))
