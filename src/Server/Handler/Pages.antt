-- ===== src/Server/Handler/Pages.antt =====
-- internal/server/server.go: lists in pages of a thousand, as handlePanelRestrictedUserList asks for them.
use remnaguard.Prelude.{
  ℕ, zero, suc, ◌+◌, ◌-◌, ◌≤◌, ◌||◌, ◌⊎◌, inl, inr, ◌≡◌, refl, ap, arith, ltb, leb, pos, lebℤ,
}
use Prim.Native.Nat.{◌/◌}
use remnaguard.Json.{Items, no_items, item}
use remnaguard.Server.ListFilter.{items_length, take_items, drop_items}
use remnaguard.Server.Handler.Listing.{append_items}

pub append-take :
    (n m k : ℕ) (items : Items)
    → n + m ≡ k
    → append_items (take_items n items) (take_items m (drop_items n items)) ≡ take_items k items
unfolding append_items take_items drop_items
append-take zero m k items e = ap (λ x. take_items x items) (omega (arith, e))
append-take (suc n) m zero items e = absurd (omega (arith, e))
append-take (suc n) zero (suc k) no_items e = refl
append-take (suc n) (suc m) (suc k) no_items e = refl
append-take (suc n) m (suc k) (item v vs) e = ap (item v) (append-take n m k vs (omega (arith, e)))

pub whole_taken : (n : ℕ) (items : Items) → items_length items ≤ n → take_items n items ≡ items
unfolding take_items
whole_taken zero no_items h = refl
whole_taken zero (item v vs) h = absurd (omega (arith, h))
whole_taken (suc n) no_items h = refl
whole_taken (suc n) (item v vs) h = ap (item v) (whole_taken n vs (omega (arith, h)))

pub length-take :
    (n : ℕ) (items : Items)
    → ((items_length (take_items n items) ≡ n) × (n ≤ items_length items))
      ⊎ ((items_length (take_items n items) ≡ items_length items) × (items_length items ≤ n))
unfolding take_items
length-take zero items = inl (refl, omega arith)
length-take (suc n) no_items = inr (refl, omega arith)
length-take (suc n) (item v vs) = elim (length-take n vs) [
  | inl (e, h) ↦ inl (omega (arith, e), omega (arith, h))
  | inr (e, h) ↦ inr (omega (arith, e), omega (arith, h))
]

length-drop : (n : ℕ) (items : Items) → items_length (drop_items n items) ≡ items_length items - n
unfolding drop_items
length-drop zero items = omega arith
length-drop (suc n) no_items = omega arith
length-drop (suc n) (item v vs) = omega (arith, length-drop n vs)

pub none_taken : (items : Items) → take_items 0 items ≡ no_items
unfolding take_items
none_taken items = refl

-- How many pages of a thousand are read from a start, the first one in any case.
abbrev pub pages_from : ℕ → ℕ → ℕ
pages_from start n = suc ((n - start - 1) / 1000)

-- A page is short, or the total is reached, exactly at the end of the list.
pub stops_at_end :
    (start : ℕ) (items : Items)
    → (ltb (items_length (take_items 1000 (drop_items start items))) 1000
        || lebℤ (pos (items_length items)) (pos (start + 1000)))
      ≡ leb (items_length items) (start + 1000)
stops_at_end start items =
    let rest = drop_items start items in
    elim (length-take 1000 rest) [
      | inl (e, h) ↦ ground (arith, e, h, length-drop start items)
      | inr (e, h) ↦ ground (arith, e, h, length-drop start items)
    ]
