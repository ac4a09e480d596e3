-- ===== src/Server/Response/Recounted.antt =====
-- internal/server/server.go: what redactCountMetadata writes.
use remnaguard.Prelude.{
  String, Bool, true, false, [], ◌∷◌, ◌≡◌, ◌⊎◌, inl, inr, refl, if◌then◌else◌, Bool-cases,
}
use remnaguard.Config.{contains}
use remnaguard.Json.{Json, null, boolean, number, text, array, object, Fields, no_fields, field}
use remnaguard.Server.Response.Squads.{redact_count_metadata, redact_fields}

abbrev counts : String → Bool
counts =
    contains
      ("total" ∷ "count" ∷ "totalItems" ∷ "total_items" ∷ "recordsTotal" ∷ "records_total" ∷ [])

abbrev may_hold_counts : String → Bool
may_hold_counts = contains ("response" ∷ "meta" ∷ "pagination" ∷ [])

abbrev is_object : Json → Bool
is_object (object fs) = true
is_object _ = false

-- Fields before and after: every count is n, also in the objects that may hold counts, and the rest is as before.
pub data Recounted (n : String) : Fields → Fields → Type 0 where
  done : Recounted n no_fields no_fields
  counted :
      (k : String) (v : Json) (fs gs : Fields)
      → counts k ≡ true
      → Recounted n fs gs
      → Recounted n (field k v fs) (field k (number n) gs)
  within :
      (k : String) (inner inner_after fs gs : Fields)
      → counts k ≡ false
      → may_hold_counts k ≡ true
      → Recounted n inner inner_after
      → Recounted n fs gs
      → Recounted n (field k (object inner) fs) (field k (object inner_after) gs)
  kept :
      (k : String) (v : Json) (fs gs : Fields)
      → counts k ≡ false
      → (may_hold_counts k ≡ false) ⊎ (is_object v ≡ false)
      → Recounted n fs gs
      → Recounted n (field k v fs) (field k v gs)

-- A value before and after.
abbrev pub IsRecounted : String → Json → Json → Type 0
IsRecounted n (object fs) after = (gs : Fields) × (after ≡ object gs) × Recounted n fs gs
IsRecounted n v after = after ≡ v

plain-Recounted :
    (n k : String) (v : Json) (fs gs : Fields)
    → is_object v ≡ false
    → Recounted n fs gs
    → Recounted n
        (field k v fs)
        (field k (if counts k then number n else if may_hold_counts k then v else v) gs)
plain-Recounted n k v fs gs plain rest = elim (Bool-cases (counts k)) [
  | inl e ↦ rw e (counted k v fs gs e rest)
  | inr e ↦ rw e (elim (Bool-cases (may_hold_counts k)) [
    | inl f ↦ rw f (kept k v fs gs e (inr plain) rest)
    | inr f ↦ rw f (kept k v fs gs e (inl f) rest)
  ])
]

redact_fields-Recounted : (n : String) (fs : Fields) → Recounted n fs (redact_fields n fs)
unfolding redact_fields
redact_fields-Recounted n no_fields = done
redact_fields-Recounted n (field k (object inner) fs) =
    let rest = redact_fields-Recounted n fs in
    elim (Bool-cases (counts k)) [
      | inl e ↦ rw e (counted k (object inner) fs (redact_fields n fs) e rest)
      | inr e ↦ rw e (elim (Bool-cases (may_hold_counts k)) [
        | inl f ↦ rw f (
            within k inner (redact_fields n inner) fs (redact_fields n fs) e f
              (redact_fields-Recounted n inner) rest)
        | inr f ↦ rw f (kept k (object inner) fs (redact_fields n fs) e (inl f) rest)
      ])
    ]
redact_fields-Recounted n (field k null fs) =
    plain-Recounted n k null fs (redact_fields n fs) refl (redact_fields-Recounted n fs)
redact_fields-Recounted n (field k (boolean b) fs) =
    plain-Recounted n k (boolean b) fs (redact_fields n fs) refl (redact_fields-Recounted n fs)
redact_fields-Recounted n (field k (number m) fs) =
    plain-Recounted n k (number m) fs (redact_fields n fs) refl (redact_fields-Recounted n fs)
redact_fields-Recounted n (field k (text s) fs) =
    plain-Recounted n k (text s) fs (redact_fields n fs) refl (redact_fields-Recounted n fs)
redact_fields-Recounted n (field k (array items) fs) =
    plain-Recounted n k (array items) fs (redact_fields n fs) refl (redact_fields-Recounted n fs)

pub redact_count_metadata-IsRecounted :
    (n : String) (v : Json) → IsRecounted n v (redact_count_metadata n v)
unfolding redact_fields
redact_count_metadata-IsRecounted n (object fs) =
    (redact_fields n fs, refl, redact_fields-Recounted n fs)
redact_count_metadata-IsRecounted n null = refl
redact_count_metadata-IsRecounted n (boolean b) = refl
redact_count_metadata-IsRecounted n (number m) = refl
redact_count_metadata-IsRecounted n (text s) = refl
redact_count_metadata-IsRecounted n (array items) = refl
