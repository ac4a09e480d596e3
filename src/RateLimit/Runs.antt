-- ===== src/RateLimit/Runs.antt =====
-- Runs of the rate limiter, and its theorems at concrete inputs.
use remnaguard.Prelude.{
  ℕ, String, true, false, Option, none, some, List, [], ◌∷◌, ◌≤◌, ◌≡◌, ◌↔◌, refl, arith, ℤ, pos,
  negsuc, find, store, text_functions, atoi,
}
use remnaguard.RateLimit.Defs.{FixedWindow, allow, new_semaphore, PerKey, new_per_key, acquire_key}
use remnaguard.RateLimit.Rate.{parse_rate, new_fixed_window, invalid_rate, ok, err}
use remnaguard.RateLimit.Semaphores.{Reach, start, enter, times, concurrency_bound}
use remnaguard.RateLimit.Window.{admitted, admitted_bound}

abbrev no_duration : String → Option ℤ
no_duration unit = none

rates :
    (parse_rate no_duration " 600/m " ≡ ok (600, pos 60_000_000_000))
    × (parse_rate no_duration "-1/s" ≡ err (invalid_rate "-1/s"))
    × (parse_rate no_duration "" ≡ ok (0, pos 0))
unfolding parse_rate atoi text_functions
rates = (refl, refl, refl)

abbrev twice_a_second : FixedWindow
twice_a_second = record { limit = 2; window = pos 1_000_000_000; buckets = [] }

made : new_fixed_window no_duration "2/s" ≡ ok (some twice_a_second)
unfolding new_fixed_window atoi text_functions
made = refl

-- Two calls at the end of one window and two at the start of the next: the bound is reached.
abbrev burst : List (String × ℕ)
burst =
    ("a", 1)
    ∷ ("a", 900_000_000)
    ∷ ("b", 900_000_000)
    ∷ ("a", 1_000_000_001)
    ∷ ("a", 1_000_000_002)
    ∷ ("a", 1_000_000_003)
    ∷ []

burst_run : admitted "a" 900_000_000 1_900_000_000 twice_a_second burst ≡ 3
unfolding admitted allow find store
burst_run = refl

admitted_bound_example : admitted "a" 900_000_000 1_900_000_000 twice_a_second burst ≤ 4
admitted_bound_example =
    admitted_bound no_duration "2/s" "a" twice_a_second 1_000_000_000 900_000_000 burst made refl
      (omega arith)

abbrev one_each : ℤ
one_each = negsuc 4

let_in : (acquire_key (new_per_key one_each) "a").1 ≡ true
unfolding acquire_key find new_semaphore
let_in = refl

abbrev busy : PerKey
busy = (acquire_key (new_per_key one_each) "a").0

busy-Reach : Reach one_each ("a" ∷ []) busy
busy-Reach = enter "a" start let_in

concurrency_bound_example :
    (times "a" ("a" ∷ []) ≤ (new_semaphore one_each).size)
    × (((acquire_key busy "a").1 ≡ false) ↔ (times "a" ("a" ∷ []) ≡ (new_semaphore one_each).size))
concurrency_bound_example = concurrency_bound one_each ("a" ∷ []) busy "a" busy-Reach
