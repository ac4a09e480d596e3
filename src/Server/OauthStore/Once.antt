-- ===== src/Server/OauthStore/Once.antt =====
-- internal/server/server.go: an attempt of a panelOAuthStore is given back once.
use remnaguard.Prelude.{
  ℕ, ◌≤◌, String, Bool, true, false, Option, none, some, List, [], ◌∷◌, if◌then◌else◌, ◌==◌, ◌≡◌,
  refl, ap, ◌∙◌, sym, arith, length, ltb, find, find-store, find-without, subst, eq_refl,
  Bool-cases, inl, inr, All,
}
use remnaguard.Server.OauthStore.{
  Attempt, OauthStore, prune, is_full, put, taken_from, take, clear, StoreCall, put_call, take_call,
  clear_call, after_call, after_calls,
}

-- Whether a call of a sequence puts an attempt under the state.
abbrev pub puts : String → StoreCall → Bool
puts state (put_call k a now) = k == state
puts state (take_call k now) = false
puts state clear_call = false

pub find-prune :
    (state : String) (now : ℕ) (m : List (String × Attempt))
    → find state m ≡ none
    → find state (prune now m) ≡ none
unfolding prune find
find-prune state now [] h = refl
find-prune state now ((k, a) ∷ m) h = elim (Bool-cases (k == state)) [
  | inl e ↦ absurd (ground (arith, h, e))
  | inr e ↦ ground (arith, e, find-prune state now m (ground (arith, h, e)))
]

abbrev IsMissing : String → OauthStore → Type 0
IsMissing state s = find state s.attempts ≡ none

if_store :
    (state : String) (b : Bool) (x y : OauthStore)
    → IsMissing state x
    → IsMissing state y
    → IsMissing state ((if◌then◌else◌ {A = OauthStore × Bool} b (x, false) (y, true)).0)
if_store state true x y h k = h
if_store state false x y h k = k

taken_from-IsMissing :
    (state k : String) (s : OauthStore) (o : Option Attempt)
    → IsMissing state s
    → IsMissing state (taken_from k s o).0
taken_from-IsMissing state k s none h = h
taken_from-IsMissing state k s (some a) h = find-without k state s.attempts ∙ ground (arith, h)

after_call-IsMissing :
    (state : String) (c : StoreCall) (s : OauthStore)
    → puts state c ≡ false
    → IsMissing state s
    → IsMissing state (after_call c s)
unfolding after_call put take clear find
after_call-IsMissing state (put_call k a now) s other h =
    let kept = find-prune state now s.attempts h in
    if_store state (is_full s.max (length (prune now s.attempts))) _ _ kept
      (find-store k state a (prune now s.attempts) ∙ ground (arith, kept, other))
after_call-IsMissing state (take_call k now) s other h =
    let kept = prune now s.attempts in
    taken_from-IsMissing state k (record s { attempts = kept }) (find k kept)
      (find-prune state now s.attempts h)
after_call-IsMissing state clear_call s other h = refl

after_calls-IsMissing :
    (state : String) (cs : List StoreCall) (s : OauthStore)
    → All (λ c. puts state c ≡ false) cs
    → IsMissing state s
    → IsMissing state (after_calls cs s)
unfolding after_calls
after_calls-IsMissing state [] s other h = h
after_calls-IsMissing state (c ∷ cs) s other h =
    after_calls-IsMissing state cs (after_call c s) other.1
      (after_call-IsMissing state c s other.0 h)

take_missing :
    (state : String) (now : ℕ) (s : OauthStore) → IsMissing state s → (take state now s).1 ≡ none
unfolding take
take_missing state now s h =
    ap (λ o. (taken_from state (record s { attempts = prune now s.attempts }) o).1)
      (find-prune state now s.attempts h)

find-prune_live :
    (state : String) (now : ℕ) (m : List (String × Attempt)) (a : Attempt)
    → find state (prune now m) ≡ some a
    → now ≤ a.expires_at
unfolding prune find
find-prune_live state now [] a h = absurd (ground (arith, h))
find-prune_live state now ((k, b) ∷ m) a h = elim (Bool-cases (ltb b.expires_at now)) [
  | inl e ↦ find-prune_live state now m a (ground (arith, h, e))
  | inr e ↦ elim (Bool-cases (k == state)) [
    | inl f ↦ subst (λ x. now ≤ x.expires_at) (some_eq (head e f)) (ground (arith, e))
    | inr f ↦ find-prune_live state now m a (ground (arith, h, e, f))
  ]
]
  where
    head : ltb b.expires_at now ≡ false → (k == state) ≡ true → some b ≡ some a
    head e f = ground (arith, h, e, f)

    some_eq : some b ≡ some a → b ≡ a
    some_eq e = ground (arith, e)

taken_lem :
    (state : String) (s : OauthStore) (o : Option Attempt) (a : Attempt)
    → o ≡ find state s.attempts
    → (taken_from state s o).1 ≡ some a
    → (find state s.attempts ≡ some a) × IsMissing state (taken_from state s o).0
taken_lem state s none a same h = absurd (ground (arith, h))
taken_lem state s (some b) a same h = (
  sym same ∙ h,
  find-without state state s.attempts
      ∙ ap (λ t. if t then none else find state s.attempts) (eq_refl state),
)

-- An attempt that take gives back has not expired, and it is given back once: however the store is used
-- afterwards, take gives nothing for that state until a call puts an attempt under it again.
pub taken_once :
    (state : String) (now later : ℕ) (s : OauthStore) (a : Attempt) (cs : List StoreCall)
    → (take state now s).1 ≡ some a
    → All (λ c. puts state c ≡ false) cs
    → (now ≤ a.expires_at) × ((take state later (after_calls cs (take state now s).0)).1 ≡ none)
unfolding take
taken_once state now later s a cs h other =
    let kept = prune now s.attempts in
    let (found, missing) =
      taken_lem state (record s { attempts = kept }) (find state kept) a refl h in
    (
      find-prune_live state now s.attempts a found,
      take_missing state later (after_calls cs (take state now s).0)
          (after_calls-IsMissing state cs (take state now s).0 other missing),
    )
