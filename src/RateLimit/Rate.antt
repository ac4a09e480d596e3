-- ===== src/RateLimit/Rate.antt =====
-- internal/ratelimit/limit.go: ParseRate and NewFixedWindow. Go's `time.ParseDuration` is the
-- parameter `parse_duration`; its error is `none`.
use remnaguard.Prelude.{
  ℕ, zero, suc, ◌*◌, ◌<◌, String, Option, none, some, List, [], ◌∷◌, if◌then◌else◌, ◌||◌, ◌==◌,
  trim_space, split, atoi, ℤ, pos, negsuc, ◌≡◌, arith,
}
use remnaguard.RateLimit.Defs.{FixedWindow}

pub data RateError : Type 0 where
  invalid_rate : String → RateError
  invalid_rate_window : String → RateError

pub data RateResult (A : Type 0) : Type 0 where
  ok : A → RateResult A
  err : RateError → RateResult A

abbrev pub second : ℕ
second = 1_000_000_000

module _ (parse_duration : String → Option ℤ) where
  unfoldable pub rate_window : ℕ → String → RateResult (ℕ × ℤ)
  rate_window n unit =
      if unit == "s" || unit == "sec" || unit == "second"
      then ok (n, pos second)
      else if unit == "m" || unit == "min" || unit == "minute"
      then ok (n, pos (60 * second))
      else if unit == "h" || unit == "hour"
      then ok (n, pos (3600 * second))
      else elim (parse_duration unit) [ none ↦ err (invalid_rate_window unit) | some d ↦ ok (n, d) ]

  unfoldable pub rate_of_count : String → Option ℤ → String → RateResult (ℕ × ℤ)
  unfolding rate_window
  rate_of_count spec none unit = err (invalid_rate spec)
  rate_of_count spec (some (negsuc n)) unit = err (invalid_rate spec)
  rate_of_count spec (some (pos n)) unit = rate_window n unit

  unfoldable pub rate_of_parts : String → List String → RateResult (ℕ × ℤ)
  unfolding rate_of_count
  rate_of_parts spec (count ∷ unit ∷ []) = rate_of_count spec (atoi count) unit
  rate_of_parts spec _ = err (invalid_rate spec)

  -- ParseRate; the blank text is the rate 0.
  unfoldable pub parse_rate : String → RateResult (ℕ × ℤ)
  unfolding rate_of_parts
  parse_rate spec =
      let trimmed = trim_space spec in
      if trimmed == "" then ok (0, pos 0) else rate_of_parts trimmed (split b'/' trimmed)

  abbrev limiter : ℕ × ℤ → Option FixedWindow
  limiter (zero, w) = none
  limiter (suc n, w) = some (record { limit = suc n; window = w; buckets = [] })

  -- NewFixedWindow; a limit of 0 gives the nil limiter.
  unfoldable pub new_fixed_window : String → RateResult (Option FixedWindow)
  unfolding parse_rate
  new_fixed_window spec = elim (parse_rate spec) [ err e ↦ err e | ok r ↦ ok (limiter r) ]

  limiter_shape :
      (r : ℕ × ℤ) (f : FixedWindow) → limiter r ≡ some f → (0 < f.limit) × (f.buckets ≡ [])
  limiter_shape (zero, w) f h = ground arith
  limiter_shape (suc n, w) f h = ground arith

  -- A limiter that NewFixedWindow makes has a positive limit and no bucket yet.
  pub new_fixed_window_shape :
      (spec : String) (f : FixedWindow)
      → new_fixed_window spec ≡ ok (some f)
      → (0 < f.limit) × (f.buckets ≡ [])
  unfolding new_fixed_window
  new_fixed_window_shape spec f h = go (parse_rate spec) h
    where
      go :
          (r : RateResult (ℕ × ℤ))
          → (elim r as (λ _. RateResult (Option FixedWindow)) [
            | err e ↦ err e
            | ok q ↦ ok (limiter q)
          ])
            ≡ ok (some f)
          → (0 < f.limit) × (f.buckets ≡ [])
      go (err e) h = ground arith
      go (ok q) h = limiter_shape q f (ground arith)
