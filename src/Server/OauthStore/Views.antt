-- ===== src/Server/OauthStore/Views.antt =====
-- internal/server/server.go: panelOAuthStore as a function from states to the attempts that wait for them.
use remnaguard.Prelude.{
  ℕ, String, Bool, true, false, Option, none, some, List, [], ◌∷◌, if◌then◌else◌, ◌==◌, ◌≡◌, refl,
  ap, ◌∙◌, sym, arith, eq_iff, eq_refl, length, ltb, find, store, without, find-store, find-without,
  subst, Bool-cases, inl, inr, All, ℤ, fun_ext,
}
use remnaguard.Server.OauthStore.{
  Attempt, OauthStore, prune, is_full, put, taken_from, take, StoreCall, put_call, take_call,
  clear_call, after_call,
}
use remnaguard.Server.OauthStore.Once.{find-prune}

abbrev pub View : Type 0
View = String → Option Attempt

abbrev pub live : ℕ → Option Attempt → Option Attempt
live now none = none
live now (some a) = if ltb a.expires_at now then none else some a

-- The attempts that have not expired.
abbrev pub expire : ℕ → View → View
expire now f k = live now (f k)

abbrev pub set : String → Option Attempt → View → View
set k o f j = if k == j then o else f j

-- No state stands twice.
abbrev pub Distinct : List (String × Attempt) → Type 0
Distinct [] = Unit {0}
Distinct ((k, a) ∷ m) = (find k m ≡ none) × Distinct m

-- As many attempts as the store may hold have not expired.
pub record IsCrowded (max : ℤ) (f : View) : Type 0 where
  pub attempts : List (String × Attempt)
  pub distinct : Distinct attempts
  pub waiting : All (λ e. f e.0 ≡ some e.1) attempts
  pub full : is_full max (length attempts) ≡ true

-- What a call returns.
pub data Answer : Type 0 where
  accepted refused cleared : Answer
  handed : Option Attempt → Answer

abbrev pub answer_put : Bool → Answer
answer_put true = accepted
answer_put false = refused

abbrev answer : StoreCall → OauthStore → Answer
answer (put_call k a now) s = answer_put (put k a now s).1
answer (take_call k now) s = handed (take k now s).1
answer clear_call s = cleared

unfoldable pub answers : List StoreCall → OauthStore → List Answer
unfolding put take after_call
answers [] s = []
answers (c ∷ cs) s = let rest = answers cs (after_call c s) in answer c s ∷ rest

-- The calls, their answers and what they leave, as the store promises them: each call first drops the attempts
-- that have expired; put keeps the attempt, or refuses it where the store is crowded; take gives the
-- attempt and drops it.
pub data Runs (max : ℤ) : View → List StoreCall → List Answer → View → Type 0 where
  done : {f : View} → Runs max f [] [] f
  put_accepted :
      {f g : View} {cs : List StoreCall} {xs : List Answer} (k : String) (a : Attempt) (now : ℕ)
      → Runs max (set k (some a) (expire now f)) cs xs g
      → Runs max f (put_call k a now ∷ cs) (accepted ∷ xs) g
  put_refused :
      {f g : View} {cs : List StoreCall} {xs : List Answer} (k : String) (a : Attempt) (now : ℕ)
      → IsCrowded max (expire now f)
      → Runs max (expire now f) cs xs g
      → Runs max f (put_call k a now ∷ cs) (refused ∷ xs) g
  take_given :
      {f g : View} {cs : List StoreCall} {xs : List Answer} (k : String) (now : ℕ)
      → Runs max (set k none (expire now f)) cs xs g
      → Runs max f (take_call k now ∷ cs) (handed (expire now f k) ∷ xs) g
  clear_done :
      {f g : View} {cs : List StoreCall} {xs : List Answer}
      → Runs max (λ _. none) cs xs g
      → Runs max f (clear_call ∷ cs) (cleared ∷ xs) g

abbrev pub view : OauthStore → View
view s k = find k s.attempts

pub prune-Distinct : (now : ℕ) (m : List (String × Attempt)) → Distinct m → Distinct (prune now m)
unfolding prune
prune-Distinct now [] d = tt
prune-Distinct now ((k, a) ∷ m) (fresh, d) =
    elim (Bool-cases (ltb a.expires_at now))
      as (λ _. Distinct (if ltb a.expires_at now then prune now m else (k, a) ∷ prune now m)) [
        | inl e ↦ rw e (prune-Distinct now m d)
        | inr e ↦ rw e (find-prune k now m fresh, prune-Distinct now m d)
      ]

pub store-Distinct :
    (k : String) (a : Attempt) (m : List (String × Attempt)) → Distinct m → Distinct (store k a m)
unfolding store find
store-Distinct k a [] d = (refl, tt)
store-Distinct k a ((j, b) ∷ m) (fresh, d) =
    elim (Bool-cases (j == k))
      as (λ _. Distinct (if j == k then (j, a) ∷ m else (j, b) ∷ store k a m)) [
        | inl e ↦ rw e (fresh, d)
        | inr e ↦ rw e (
          find-store k j a m ∙ ground (arith, eq_iff j k, eq_iff k j, e, fresh),
          store-Distinct k a m d,
        )
      ]

without-Distinct : (k : String) (m : List (String × Attempt)) → Distinct m → Distinct (without k m)
unfolding without
without-Distinct k [] d = tt
without-Distinct k ((j, b) ∷ m) (fresh, d) =
    elim (Bool-cases (j == k))
      as (λ _. Distinct (if j == k then without k m else (j, b) ∷ without k m)) [
        | inl e ↦ rw e (without-Distinct k m d)
        | inr e ↦ rw e (find-without k j m ∙ ground (arith, fresh), without-Distinct k m d)
      ]

pub find-prune_live :
    (now : ℕ) (m : List (String × Attempt)) (k : String)
    → Distinct m
    → find k (prune now m) ≡ live now (find k m)
unfolding prune find
find-prune_live now [] k d = refl
find-prune_live now ((j, a) ∷ m) k (fresh, d) =
    let later = find-prune_live now m k d in
    elim (Bool-cases (ltb a.expires_at now)) [
      | inl e ↦ elim (Bool-cases (j == k)) [
        | inl f ↦
            let gone : find k m ≡ none = subst (λ x. find x m ≡ none) ((eq_iff j k).0 f) fresh in
            ground (arith, e, f, later, gone)
        | inr f ↦ ground (arith, e, f, later)
      ]
      | inr e ↦ elim (Bool-cases (j == k)) [
        | inl f ↦ ground (arith, e, f)
        | inr f ↦ ground (arith, e, f, later)
      ]
    ]

-- Every entry of a list without repeats is what is found at its key.
found_within :
    (k : String) (a : Attempt) (m n : List (String × Attempt))
    → find k m ≡ none
    → All (λ e. find e.0 n ≡ some e.1) m
    → All (λ e. find e.0 ((k, a) ∷ n) ≡ some e.1) m
unfolding find
found_within k a [] n fresh h = tt
found_within k a ((j, b) ∷ m) n fresh (here, later) = (
  ground (arith, here, fresh, eq_iff j k, eq_iff k j),
  found_within k a m n (ground (arith, fresh)) later,
)

pub all_found : (m : List (String × Attempt)) → Distinct m → All (λ e. find e.0 m ≡ some e.1) m
unfolding find
all_found [] d = tt
all_found ((k, a) ∷ m) (fresh, d) =
    (ground (arith, eq_refl k), found_within k a m m fresh (all_found m d))

pub view_pruned :
    (now : ℕ) (s : OauthStore)
    → Distinct s.attempts
    → (λ k. find k (prune now s.attempts)) ≡ expire now (view s)
view_pruned now s d = fun_ext λ k. find-prune_live now s.attempts k d

pub put_view :
    (k : String) (a : Attempt) (now : ℕ) (s : OauthStore)
    → Distinct s.attempts
    → (λ j. find j (store k a (prune now s.attempts))) ≡ set k (some a) (expire now (view s))
put_view k a now s d = fun_ext λ j.
    find-store k j a (prune now s.attempts)
    ∙ ap (λ o. if k == j then some a else o) (find-prune_live now s.attempts j d)

pub take_view :
    (k : String) (s : OauthStore) (o : Option Attempt) (j : String)
    → find k s.attempts ≡ o
    → find j (taken_from k s o).0.attempts ≡ set k none (view s) j
take_view k s none j same = elim (Bool-cases (k == j)) [
  | inl e ↦ ap (λ x. find x s.attempts) (sym ((eq_iff k j).0 e)) ∙ same ∙ ground (arith, e)
  | inr e ↦ ground (arith, e)
]
take_view k s (some a) j same = find-without k j s.attempts

pub take-Distinct :
    (k : String) (s : OauthStore) (o : Option Attempt)
    → Distinct s.attempts
    → Distinct (taken_from k s o).0.attempts
take-Distinct k s none d = d
take-Distinct k s (some a) d = without-Distinct k s.attempts d

pub taken_answer : (k : String) (s : OauthStore) (o : Option Attempt) → (taken_from k s o).1 ≡ o
taken_answer k s none = refl
taken_answer k s (some a) = refl
