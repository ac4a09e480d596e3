-- ===== src/RateLimit/Defs.antt =====
-- internal/ratelimit/limit.go: the data and the operations.
use remnaguard.Prelude.{
  ℕ, zero, suc, ◌+◌, ◌-◌, String, Bool, true, false, Option, none, some, List, [], ltb, leb, nat_eq,
  if◌then◌else◌, ◌||◌, find, store, ℤ, pos, negsuc,
}

-- The channel's capacity, and how many tokens it holds.
pub record Semaphore : Type 0 where
  pub size : ℕ
  pub held : ℕ

unfoldable pub new_semaphore : ℤ → Semaphore
new_semaphore (pos zero) = record { size = 1; held = 0 }
new_semaphore (pos (suc n)) = record { size = suc n; held = 0 }
new_semaphore (negsuc n) = record { size = 1; held = 0 }

unfoldable pub acquire : Semaphore → Semaphore × Bool
acquire s = if ltb s.held s.size then (record s { held = s.held + 1 }, true) else (s, false)

-- `none`: the receive blocks, as the channel is empty.
unfoldable pub release : Semaphore → Option Semaphore
release s = if nat_eq s.held 0 then none else some (record s { held = s.held - 1 })

pub record PerKey : Type 0 where
  pub n : ℤ
  pub m : List (String × Semaphore)

abbrev pub new_per_key : ℤ → PerKey
new_per_key n = record { n = n; m = [] }

-- Get: the key's semaphore, which is made on first use.
unfoldable pub get : PerKey → String → PerKey × Semaphore
unfolding new_semaphore
get p key = elim (find key p.m) [
  | some s ↦ (p, s)
  | none ↦ (record p { m = store key (new_semaphore p.n) p.m }, new_semaphore p.n)
]

-- `sem := p.Get(key)` and `sem.Acquire()`: the map keeps a pointer, so it sees the new count.
unfoldable pub acquire_key : PerKey → String → PerKey × Bool
unfolding get acquire
acquire_key p key =
    let (p', s) = get p key in let (s', ok) = acquire s in (record p' { m = store key s' p'.m }, ok)

abbrev pub write_back : PerKey → String → Option Semaphore → Option PerKey
write_back p key none = none
write_back p key (some s) = some (record p { m = store key s p.m })

-- `defer sem.Release()` of a semaphore that Get returned; `none`: it blocks.
unfoldable pub release_key : PerKey → String → Option PerKey
unfolding get release
release_key p key = let (p', s) = get p key in write_back p' key (release s)

pub record Bucket : Type 0 where
  pub start : ℕ
  pub count : ℕ

pub record FixedWindow : Type 0 where
  pub limit : ℕ
  pub window : ℤ
  pub buckets : List (String × Bucket)

-- The zero bucket, which a map gives for a missing key.
abbrev pub zero_bucket : Bucket
zero_bucket = record { start = 0; count = 0 }

abbrev pub or_zero : Option Bucket → Bucket
or_zero none = zero_bucket
or_zero (some b) = b

abbrev pub bucket_of : String → List (String × Bucket) → Bucket
bucket_of key m = or_zero (find key m)

-- now.Sub(start) >= window, as whole numbers
abbrev pub elapsed : ℤ → ℕ → ℕ → Bool
elapsed (pos w) start now = leb (start + w) now
elapsed (negsuc w) start now = leb start (now + w + 1)

-- Allow for a limiter that is not nil, at the clock's time `now`.
unfoldable pub allow : FixedWindow → String → ℕ → FixedWindow × Bool
allow f key now =
    let b = bucket_of key f.buckets in
    if nat_eq b.start 0 || elapsed f.window b.start now
    then (record f { buckets = store key (record { start = now; count = 1 }) f.buckets }, true)
    else if leb f.limit b.count
    then (f, false)
    else (record f { buckets = store key (record b { count = b.count + 1 }) f.buckets }, true)

-- Allow: a nil limiter allows everything.
unfoldable pub allow_nilable : Option FixedWindow → String → ℕ → Option FixedWindow × Bool
unfolding allow
allow_nilable none key now = (none, true)
allow_nilable (some f) key now = let (f', ok) = allow f key now in (some f', ok)
