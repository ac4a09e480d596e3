-- ===== src/RateLimit/Window.antt =====
-- internal/ratelimit/limit.go: how many requests a fixed window lets through.
use remnaguard.Prelude.{
  ℕ, ◌+◌, ◌-◌, ◌≤◌, ◌<◌, String, Bool, true, false, List, [], ◌∷◌, ltb, leb, nat_eq, inl, inr,
  Bool-cases, if◌then◌else◌, ◌||◌, ◌&&◌, ◌==◌, eq_iff, find, find-store, dec_le, pos, ℤ, Option,
  some, ◌≡◌, refl, arith,
}
use remnaguard.RateLimit.Rate.{new_fixed_window, new_fixed_window_shape, ok}
use remnaguard.RateLimit.Defs.{Bucket, FixedWindow, bucket_of, elapsed, allow, zero_bucket}

-- What a call does to the bucket of its key.
abbrev hit : ℕ → ℤ → Bucket → ℕ → Bucket × Bool
hit limit window b now =
    if nat_eq b.start 0 || elapsed window b.start now
    then (record { start = now; count = 1 }, true)
    else if leb limit b.count
    then (b, false)
    else (record b { count = b.count + 1 }, true)

-- A call changes the bucket of its own key alone.
pub bucket_of-allow :
    (f : FixedWindow) (k j : String) (t : ℕ)
    → bucket_of j (allow f k t).0.buckets ≡ (
        if k == j
        then (hit f.limit f.window (bucket_of k f.buckets) t).0
        else bucket_of j f.buckets)
unfolding allow
bucket_of-allow f k j t =
    let b = bucket_of k f.buckets in
    ground (
      arith,
      eq_iff k j,
      find-store k j (record { start = t; count = 1 }) f.buckets,
      find-store k j (record b { count = b.count + 1 }) f.buckets,
    )

allow-hit :
    (f : FixedWindow) (k : String) (t : ℕ)
    → (allow f k t).1 ≡ (hit f.limit f.window (bucket_of k f.buckets) t).1
unfolding allow
allow-hit f k t = ground arith

settings-allow :
    (f : FixedWindow) (k : String) (t : ℕ)
    → ((allow f k t).0.limit ≡ f.limit) × ((allow f k t).0.window ≡ f.window)
unfolding allow
settings-allow f k t = ground arith

abbrev one_if : Bool → ℕ
one_if b = if b then 1 else 0

-- How many of the calls with this key are let through at a time in [from, until).
unfoldable pub admitted : String → ℕ → ℕ → FixedWindow → List (String × ℕ) → ℕ
admitted key from until f [] = 0
admitted key from until f ((k, t) ∷ calls) =
    one_if ((allow f k t).1 && k == key && leb from t && ltb t until)
    + admitted key from until (allow f k t).0 calls

-- The clock does not run backwards, and never shows Go's zero time.
abbrev pub IsClocked : ℕ → List (String × ℕ) → Type 0
IsClocked now [] = Unit
IsClocked now ((k, t) ∷ calls) = (now ≤ t) × (0 < t) × IsClocked t calls

-- The same count, from the key's bucket alone.
counted : String → ℕ → ℕ → ℕ → ℤ → Bucket → List (String × ℕ) → ℕ
counted key from until limit window b [] = 0
counted key from until limit window b ((k, t) ∷ calls) =
    let rest = counted key from until limit window (hit limit window b t).0 calls in
    let skip = counted key from until limit window b calls in
    if k == key then one_if ((hit limit window b t).1 && leb from t && ltb t until) + rest else skip

admitted-counted :
    (key : String) (from until : ℕ) (f : FixedWindow) (calls : List (String × ℕ))
    → admitted key from until f calls
      ≡ counted key from until f.limit f.window (bucket_of key f.buckets) calls
unfolding admitted counted
admitted-counted key from until f [] = refl
admitted-counted key from until f ((k, t) ∷ calls) = ground (
  arith,
  eq_iff k key,
  admitted-counted key from until (allow f k t).0 calls,
  bucket_of-allow f k key t,
  allow-hit f k t,
  settings-allow f k t,
)

record IsFit (limit now : ℕ) (b : Bucket) : Type 0 where
  full : b.count ≤ limit
  unused : b.start ≡ 0 → b.count ≡ 0
  past : b.start ≤ now

-- What a bucket may still let through in [from, from + w).
abbrev budget : ℕ → ℕ → ℕ → Bucket → ℕ
budget limit from w b =
    if ltb b.start from
    then limit + limit - b.count
    else if ltb b.start (from + w)
    then limit - b.count
    else 0

hit-IsFit :
    (limit w now t : ℕ) (b : Bucket)
    → 0 < limit
    → now ≤ t
    → 0 < t
    → IsFit limit now b
    → IsFit limit t (hit limit (pos w) b t).0
hit-IsFit limit w now t b p q r h = ground arith

hit-budget :
    (limit w from now t : ℕ) (b : Bucket)
    → 0 < limit
    → from ≤ t
    → now ≤ t
    → 0 < t
    → IsFit limit now b
    → one_if ((hit limit (pos w) b t).1 && leb from t && ltb t (from + w))
        + budget limit from w (hit limit (pos w) b t).0
      ≤ budget limit from w b
hit-budget limit w from now t b p q r z h = ground arith

later : {limit now t : ℕ} {b : Bucket} → now ≤ t → IsFit limit now b → IsFit limit t b
later p h = record { full = h.full; unused = h.unused; past = omega (arith, h.past) }

-- Every call from `from` on is paid for by the budget.
counted_late :
    (key : String) (limit w from now : ℕ) (b : Bucket) (calls : List (String × ℕ))
    → 0 < limit
    → from ≤ now
    → IsFit limit now b
    → IsClocked now calls
    → counted key from (from + w) limit (pos w) b calls ≤ budget limit from w b
unfolding counted
counted_late key limit w from now b [] p q h c = ground arith
counted_late key limit w from now b ((k, t) ∷ calls) p q h c =
    let after = (hit limit (pos w) b t).0 in
    let spent = hit-budget limit w from now t b p (omega (arith, q, c.0)) c.0 c.1 h in
    let rest =
      counted_late key limit w from t after calls p (omega (arith, q, c.0))
        (hit-IsFit limit w now t b p c.0 c.1 h) c.2 in
    let other =
      counted_late key limit w from t b calls p (omega (arith, q, c.0)) (later c.0 h) c.2 in
    elim (Bool-cases (k == key)) [ inl e ↦ rw e (omega (arith, spent, rest)) | inr e ↦ rw e other ]

budget_bound : (limit from w : ℕ) (b : Bucket) → budget limit from w b ≤ limit + limit
budget_bound limit from w b = ground arith

counted_bound :
    (key : String) (limit w from now : ℕ) (b : Bucket) (calls : List (String × ℕ))
    → 0 < limit
    → IsFit limit now b
    → IsClocked now calls
    → counted key from (from + w) limit (pos w) b calls ≤ limit + limit
unfolding counted
counted_bound key limit w from now b [] p h c = omega arith
counted_bound key limit w from now b ((k, t) ∷ calls) p h c = elim (dec_le from t) [
  | yes reached ↦
      let whole : IsClocked t ((k, t) ∷ calls) = (omega arith, c.1, c.2) in
      let paid = counted_late key limit w from t b ((k, t) ∷ calls) p reached (later c.0 h) whole in
      unfold counted in omega (arith, paid, budget_bound limit from w b)
  | no early ↦
      let after = (hit limit (pos w) b t).0 in
      let uncounted : leb from t ≡ false = ground arith in
      let rest =
        counted_bound key limit w from t after calls p (hit-IsFit limit w now t b p c.0 c.1 h)
          c.2 in
      let other = counted_bound key limit w from t b calls p (later c.0 h) c.2 in
      elim (Bool-cases (k == key)) [ inl e ↦ rw e (ground arith) | inr e ↦ rw e other ]
]

module _ (parse_duration : String → Option ℤ) where
  -- A limiter that NewFixedWindow makes for a window of `w` nanoseconds, run on calls whose times do
  -- not fall and are never the zero time, lets through at most twice its limit of calls with one key
  -- in any span of `w` nanoseconds, whatever the other keys do.
  pub admitted_bound :
      (spec key : String) (f : FixedWindow) (w from : ℕ) (calls : List (String × ℕ))
      → new_fixed_window parse_duration spec ≡ ok (some f)
      → f.window ≡ pos w
      → IsClocked 0 calls
      → admitted key from (from + w) f calls ≤ f.limit + f.limit
  unfolding find
  admitted_bound spec key f w from calls made same c =
      let (positive, none_yet) = new_fixed_window_shape parse_duration spec f made in
      let h = counted_bound key f.limit w from 0 zero_bucket calls positive (omega arith) c in
      rw (admitted-counted key from (from + w) f calls, same, none_yet) h
