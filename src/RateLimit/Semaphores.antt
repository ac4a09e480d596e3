-- ===== src/RateLimit/Semaphores.antt =====
-- internal/ratelimit/limit.go: the semaphores by key, shared by requests that enter and leave in any
-- order. A request that was let in holds one token of its key's semaphore until it leaves.
use remnaguard.Prelude.{
  ℕ, suc, ◌+◌, ◌-◌, ◌≤◌, ◌<◌, String, true, false, Option, none, some, List, [], ◌∷◌, ◌++◌,
  if◌then◌else◌, ◌==◌, eq_iff, eq_refl, find, find-store, store, ℤ, pos, negsuc, zero, ◌≡◌, refl,
  subst, ◌↔◌, arith,
}
use remnaguard.RateLimit.Defs.{
  Semaphore, new_semaphore, acquire, release, PerKey, new_per_key, get, write_back, acquire_key,
  release_key,
}

-- The semaphore that Get returns for a key.
abbrev pub sem_of : PerKey → String → Semaphore
sem_of p key = (get p key).1

sem_of-get :
    (p : PerKey) (k j : String) (s : Semaphore)
    → sem_of (record (get p k).0 { m = store k s (get p k).0.m }) j
      ≡ (if k == j then s else sem_of p j)
unfolding get
sem_of-get p k j s = ground (
  arith,
  eq_iff k j,
  find-store k j s (get p k).0.m,
  find-store k j s p.m,
  find-store k j (new_semaphore p.n) p.m,
  find-store k j s (store k (new_semaphore p.n) p.m),
)

pub sem_of-acquire_key :
    (p : PerKey) (k j : String)
    → sem_of (acquire_key p k).0 j ≡ (if k == j then (acquire (sem_of p k)).0 else sem_of p j)
unfolding acquire_key
sem_of-acquire_key p k j = sem_of-get p k j (acquire (sem_of p k)).0

pub verdict-acquire_key : (p : PerKey) (k : String) → (acquire_key p k).1 ≡ (acquire (sem_of p k)).1
unfolding acquire_key
verdict-acquire_key p k = refl

released-sem_of :
    (p q : PerKey) (k j : String) (o : Option Semaphore)
    → write_back (get p k).0 k o ≡ some q
    → (s : Semaphore) × (o ≡ some s) × (sem_of q j ≡ (if k == j then s else sem_of p j))
released-sem_of p q k j none h = ground arith
released-sem_of p q k j (some s) h = (
  s,
  refl,
  subst (λ (r : PerKey). sem_of r j ≡ (if k == j then s else sem_of p j)) (ground arith)
      (sem_of-get p k j s),
)

pub sem_of-release_key :
    (p q : PerKey) (k j : String)
    → release_key p k ≡ some q
    → (s : Semaphore) × (release (sem_of p k) ≡ some s)
      × (sem_of q j ≡ (if k == j then s else sem_of p j))
unfolding release_key
sem_of-release_key p q k j h = released-sem_of p q k j (release (sem_of p k)) h

pub release_key-ne-none :
    (p : PerKey) (k : String) → 0 < (sem_of p k).held → (q : PerKey) × (release_key p k ≡ some q)
unfolding release_key
release_key-ne-none p k h =
    let s = sem_of p k in
    (
      record (get p k).0 { m = store k (record s { held = s.held - 1 }) (get p k).0.m },
      ground arith,
    )

-- How often a key stands in a list of requests.
pub times : String → List String → ℕ
times key [] = 0
times key (k ∷ ks) = (if k == key then 1 else 0) + times key ks

times-append :
    (key : String) (xs ys : List String) → times key (xs ++ ys) ≡ times key xs + times key ys
unfolding times
times-append key [] ys = omega arith
times-append key (x ∷ xs) ys = omega (arith, times-append key xs ys)

-- The states that the requests of a server reach, with the keys of the requests that were let in
-- and have not left. A request may be refused, and those within may leave in any order.
pub data Reach (n : ℤ) : List String → PerKey → Type 0 where
  start : Reach n [] (new_per_key n)
  enter :
      {within : List String} {p : PerKey} (key : String)
      → Reach n within p
      → (acquire_key p key).1 ≡ true
      → Reach n (key ∷ within) (acquire_key p key).0
  refuse :
      {within : List String} {p : PerKey} (key : String)
      → Reach n within p
      → (acquire_key p key).1 ≡ false
      → Reach n within (acquire_key p key).0
  leave :
      {p q : PerKey} (key : String) (before after : List String)
      → Reach n (before ++ key ∷ after) p
      → release_key p key ≡ some q
      → Reach n (before ++ after) q

-- What every reachable state keeps, at each key.
record IsHeld (n : ℤ) (within : List String) (p : PerKey) (key : String) : Type 0 where
  sized : (sem_of p key).size ≡ (new_semaphore n).size
  counted : (sem_of p key).held ≡ times key within
  fits : (sem_of p key).held ≤ (new_semaphore n).size

enter-IsHeld :
    (n : ℤ) (within : List String) (p : PerKey) (k key : String)
    → (acquire_key p k).1 ≡ true
    → IsHeld n within p key
    → IsHeld n (k ∷ within) (acquire_key p k).0 key
unfolding acquire times
enter-IsHeld n within p k key let_in h =
    ground (arith, verdict-acquire_key p k, sem_of-acquire_key p k key, eq_iff k key)

refuse-IsHeld :
    (n : ℤ) (within : List String) (p : PerKey) (k key : String)
    → (acquire_key p k).1 ≡ false
    → IsHeld n within p key
    → IsHeld n within (acquire_key p k).0 key
unfolding acquire
refuse-IsHeld n within p k key refused h =
    ground (arith, verdict-acquire_key p k, sem_of-acquire_key p k key, eq_iff k key)

leave-IsHeld :
    (n : ℤ) (before after : List String) (p q : PerKey) (k key : String)
    → release_key p k ≡ some q
    → IsHeld n (before ++ k ∷ after) p key
    → IsHeld n (before ++ after) q key
unfolding release times
leave-IsHeld n before after p q k key left h =
    let (s, freed, same) = sem_of-release_key p q k key left in
    ground (arith, eq_iff k key, times-append key before (k ∷ after), times-append key before after)

new_semaphore_shape : (n : ℤ) → (0 < (new_semaphore n).size) × ((new_semaphore n).held ≡ 0)
unfolding new_semaphore
new_semaphore_shape (pos zero) = omega arith
new_semaphore_shape (pos (suc n)) = omega arith
new_semaphore_shape (negsuc n) = omega arith

Reach-IsHeld :
    {n : ℤ} {within : List String} {p : PerKey} (key : String)
    → Reach n within p
    → IsHeld n within p key
unfolding times get find
Reach-IsHeld {n} key start = ground (arith, new_semaphore_shape n)
Reach-IsHeld {n} key (enter {within} {p} k r let_in) =
    enter-IsHeld n within p k key let_in (Reach-IsHeld key r)
Reach-IsHeld {n} key (refuse {within} {p} k r refused) =
    refuse-IsHeld n within p k key refused (Reach-IsHeld key r)
Reach-IsHeld {n} key (leave {p} {q} k before after r left) =
    leave-IsHeld n before after p q k key left (Reach-IsHeld key r)

-- However requests enter and leave, the requests of one key that are within never outnumber the
-- configured count (1 if that is not positive); a request is refused exactly if its key's requests
-- within are that many.
pub concurrency_bound :
    (n : ℤ) (within : List String) (p : PerKey) (key : String)
    → Reach n within p
    → (times key within ≤ (new_semaphore n).size)
      × (((acquire_key p key).1 ≡ false) ↔ (times key within ≡ (new_semaphore n).size))
unfolding acquire
concurrency_bound n within p key r =
    let h = Reach-IsHeld key r in
    (
      omega (arith, h.counted, h.fits),
      (
        λ e. ground (arith, verdict-acquire_key p key),
        λ e. ground (arith, verdict-acquire_key p key),
      ),
    )

-- A request that is within can always leave: its release does not block.
pub leave_possible :
    (n : ℤ) (before after : List String) (p : PerKey) (key : String)
    → Reach n (before ++ key ∷ after) p
    → (q : PerKey) × (release_key p key ≡ some q) × Reach n (before ++ after) q
unfolding times
leave_possible n before after p key r =
    let h = Reach-IsHeld key r in
    let (q, left) =
      release_key-ne-none p key
        (ground (arith, h.counted, times-append key before (key ∷ after), eq_refl key)) in
    (q, left, leave key before after r left)
