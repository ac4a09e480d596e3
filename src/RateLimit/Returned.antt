-- ===== src/RateLimit/Returned.antt =====
-- internal/ratelimit/limit.go: a request that leaves gives back what it took.
use remnaguard.Prelude.{
  ℕ, ◌+◌, ◌-◌, ◌<◌, String, Bool, true, false, some, if◌then◌else◌, ◌==◌, ◌≡◌, refl, ap, sym, ◌∙◌,
  subst, arith, eq_iff, eq_refl, Bool-cases, inl, inr, ltb,
}
use remnaguard.RateLimit.Defs.{Semaphore, acquire, release, PerKey, acquire_key, release_key}
use remnaguard.RateLimit.Semaphores.{
  sem_of, sem_of-acquire_key, verdict-acquire_key, sem_of-release_key, release_key-ne-none,
}

taken : (s : Semaphore) → (acquire s).1 ≡ true → (acquire s).0 ≡ record s { held = s.held + 1 }
unfolding acquire
taken s h = elim (Bool-cases (ltb s.held s.size)) [
  | inl e ↦ rw e refl
  | inr e ↦ absurd (ground (arith, h, e))
]

refused_same : (s : Semaphore) → (acquire s).1 ≡ false → (acquire s).0 ≡ s
unfolding acquire
refused_same s h = elim (Bool-cases (ltb s.held s.size)) [
  | inl e ↦ absurd (ground (arith, h, e))
  | inr e ↦ rw e refl
]

given_back : (s : Semaphore) → release (record s { held = s.held + 1 }) ≡ some s
unfolding release
given_back s = nonzero ∙ ap (λ n. some (record s { held = n })) (minus s.held)
  where
    nonzero : release (record s { held = s.held + 1 }) ≡ some (record s { held = s.held + 1 - 1 })
    nonzero = ground arith

    minus : (n : ℕ) → n + 1 - 1 ≡ n
    minus n = omega arith

pub release-acquire : (s : Semaphore) → (acquire s).1 ≡ true → release (acquire s).0 ≡ some s
release-acquire s h = ap release (taken s h) ∙ given_back s

-- A refused request leaves every key's semaphore as it was.
pub refused_key :
    (p : PerKey) (k j : String)
    → (acquire_key p k).1 ≡ false
    → sem_of (acquire_key p k).0 j ≡ sem_of p j
refused_key p k j h = elim (Bool-cases (k == j)) [
  | inl e ↦
      let same = (eq_iff k j).0 e in
      sem_of-acquire_key p k j
      ∙ rw e (
          refused_same (sem_of p k) (sym (verdict-acquire_key p k) ∙ h)
          ∙ ap (λ key. sem_of p key) same)
  | inr e ↦ sem_of-acquire_key p k j ∙ rw e refl
]

-- Once the semaphores are as they were after a request was let in, it can leave, and then they are as they
-- were before.
pub release-acquire_key :
    (p after : PerKey) (k : String)
    → (acquire_key p k).1 ≡ true
    → ((j : String) → sem_of after j ≡ sem_of (acquire_key p k).0 j)
    → (q : PerKey) × (release_key after k ≡ some q) × ((j : String) → sem_of q j ≡ sem_of p j)
release-acquire_key p after k let_in same =
    let s = sem_of p k in
    let verdict : (acquire s).1 ≡ true = sym (verdict-acquire_key p k) ∙ let_in in
    let own : sem_of after k ≡ (acquire s).0 =
      same k ∙ sem_of-acquire_key p k k ∙ rw (eq_refl k) refl in
    let holds : 0 < (sem_of after k).held =
      subst (λ (x : Semaphore). 0 < x.held) (sym (own ∙ taken s verdict)) (omega arith) in
    let (q, left) = release_key-ne-none after k holds in
    (
      q,
      left,
      λ j.
          let (t, freed, found) = sem_of-release_key after q k j left in
          let back : some t ≡ some s = sym freed ∙ ap release own ∙ release-acquire s verdict in
          found ∙ settled (k == j) t j back refl,
    )
  where
    settled :
        (b : Bool) (t : Semaphore) (j : String)
        → some t ≡ some (sem_of p k)
        → (k == j) ≡ b
        → (if b then t else sem_of after j) ≡ sem_of p j
    settled true t j back e = ground (arith, back) ∙ ap (λ key. sem_of p key) ((eq_iff k j).0 e)
    settled false t j back e = same j ∙ sem_of-acquire_key p k j ∙ rw e refl
