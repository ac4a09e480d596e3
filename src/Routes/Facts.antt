-- ===== src/Routes/Facts.antt =====
-- internal/routes/catalog.go: what holds of every route of the catalog.
use remnaguard.Prelude.{
  String, Bool, true, false, List, [], ◌∷◌, ◌||◌, ◌==◌, all, ◌≡◌, ◌≢◌, refl, subst, eq_iff, or_true,
  and_true, Bool-cases, inl, inr, Some, text_functions,
}
use remnaguard.Routes.Types.{
  Route, Support, policy_enforced, privileged, unsupported, public_subscription, other,
}
use remnaguard.Routes.Catalog.{catalog, before}

-- A route whose method is not GET is privileged.
abbrev is_privileged : Support → Bool
is_privileged privileged = true
is_privileged _ = false

abbrev closed_write : Route → Bool
closed_write r = r.method == "GET" || is_privileged r.support

closed_writes : all closed_write (catalog "2.8.1") ≡ true
unfolding catalog before text_functions
closed_writes = refl

catalog_elsewhere : (version : String) → (version == "2.8.1") ≡ false → catalog version ≡ []
unfolding catalog
catalog_elsewhere version e = rw e

all_listed :
    (p : Route → Bool) (rs : List Route) (r : Route)
    → all p rs ≡ true
    → Some (λ s. s ≡ r) rs
    → p r ≡ true
all_listed p [] r h m = elim m [ ]
all_listed p (x ∷ rs) r h (inl e) = rw (← e) (and_true _ _ h).0
all_listed p (x ∷ rs) r h (inr m) = all_listed p rs r (and_true _ _ h).1 m

privileged_of : (s : Support) → is_privileged s ≡ true → s ≡ privileged
privileged_of privileged h = refl
privileged_of policy_enforced h = cc
privileged_of unsupported h = cc
privileged_of public_subscription h = cc
privileged_of (other t) h = cc

-- Every route of a catalog whose method is not GET is privileged.
pub catalog_write_privileged :
    (version : String) (r : Route)
    → Some (λ s. s ≡ r) (catalog version)
    → r.method ≢ "GET"
    → r.support ≡ privileged
catalog_write_privileged version r m not_get = elim (Bool-cases (version == "2.8.1")) [
  | inl e ↦
      let closed =
        all_listed closed_write (catalog "2.8.1") r closed_writes
          (subst (λ v. Some (λ s. s ≡ r) (catalog v)) ((eq_iff _ _).0 e) m) in
      privileged_of r.support
        (elim (or_true _ _ closed) [ inl get ↦ absurd (not_get ((eq_iff _ _).0 get)) | inr p ↦ p ])
  | inr e ↦ absurd (subst (λ rs. Some (λ s. s ≡ r) rs) (catalog_elsewhere version e) m)
]
