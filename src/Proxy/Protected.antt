-- ===== src/Proxy/Protected.antt =====
-- internal/proxy/proxy.go: the names of headers that an extension may not set.
use remnaguard.Prelude.{
  String, Bool, true, false, not, some, List, [], ◌∷◌, ◌&&◌, if◌then◌else◌, ◌==◌, ◌≡◌, refl, ap,
  ◌∙◌, arith, eq_iff, to_lower, any, all, All, find, find-store, Bool-cases, subst, inl, inr,
  text_functions,
}
use remnaguard.Config.{contains}
use remnaguard.Config.Headers.{is_protected_lower, protected_outbound_header}
use remnaguard.Header.{Header, header_set}
use remnaguard.Httputil.Strip.{hop_by_hop_names, names_key}
use remnaguard.Proxy.Defs.{set_all}

pub find-header_set :
    (name value key : String) (h : Header)
    → find key (header_set name value h)
      ≡ (if to_lower name == key then some (value ∷ []) else find key h)
unfolding header_set
find-header_set name value key h = find-store (to_lower name) key (value ∷ []) h

-- No extra header has a name that the configuration's validation refuses.
abbrev pub IsUnprotected : List (String × String) → Type 0
IsUnprotected extra = All (λ e. protected_outbound_header e.0 ≡ false) extra

pub unprotected_name :
    (name key : String)
    → protected_outbound_header name ≡ false
    → is_protected_lower key ≡ true
    → (to_lower name == key) ≡ false
unfolding protected_outbound_header
unprotected_name name key free h = ground (arith, eq_iff (to_lower name) key)

-- Setting unprotected names leaves a protected key as it is.
pub find-set_all :
    (extra : List (String × String)) (key : String) (h : Header)
    → IsUnprotected extra
    → is_protected_lower key ≡ true
    → find key (set_all extra h) ≡ find key h
unfolding set_all
find-set_all [] key h free p = refl
find-set_all ((k, v) ∷ extra) key h (f, free) p =
    find-set_all extra key (header_set k v h) free p
    ∙ find-header_set k v key h
    ∙ ap (λ b. if b then some (v ∷ []) else find key h) (unprotected_name k key f p)

-- Whether one of the extra headers sets a key.
abbrev pub sets_key : List (String × String) → String → Bool
sets_key extra key = any (λ e. to_lower e.0 == key) extra

-- Setting other names leaves a key as it is.
pub find-set_all_other :
    (extra : List (String × String)) (key : String) (h : Header)
    → sets_key extra key ≡ false
    → find key (set_all extra h) ≡ find key h
unfolding set_all
find-set_all_other [] key h free = refl
find-set_all_other ((k, v) ∷ extra) key h free =
    let other : (to_lower k == key) ≡ false = ground (arith, free) in
    find-set_all_other extra key (header_set k v h) (ground (arith, free))
    ∙ find-header_set k v key h
    ∙ ap (λ b. if b then some (v ∷ []) else find key h) other

pub all_names :
    (f : String → Bool) (names : List String) (key : String)
    → names_key names key ≡ true
    → all (λ n. f (to_lower n)) names ≡ true
    → f key ≡ true
all_names f [] key h a = ground (arith, h)
all_names f (n ∷ names) key h a =
    let next = all_names f names key in
    elim (Bool-cases (to_lower n == key)) [
      | inl e ↦ subst (λ k. f k ≡ true) ((eq_iff (to_lower n) key).0 e) (ground (arith, a))
      | inr e ↦ ground (arith, next, h, a, e)
    ]

-- What the fixed names of StripHopByHop have in common.
abbrev pub is_hop_by_hop : String → Bool
is_hop_by_hop key =
    is_protected_lower key && not ("accept-encoding" == key) && not ("authorization" == key)

pub hop_by_hop_names_lem : all (λ n. is_hop_by_hop (to_lower n)) hop_by_hop_names ≡ true
unfolding is_protected_lower text_functions contains
hop_by_hop_names_lem = refl

pub lower_names :
    (to_lower "Authorization" ≡ "authorization") × (to_lower "Accept-Encoding" ≡ "accept-encoding")
unfolding text_functions
lower_names = (refl, refl)

pub authorization_protected : is_protected_lower "authorization" ≡ true
unfolding is_protected_lower contains text_functions
authorization_protected = refl
