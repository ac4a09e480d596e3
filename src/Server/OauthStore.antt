-- ===== src/Server/OauthStore.antt =====
-- internal/server/server.go: panelOAuthStore, the login attempts that wait for their callback. Times are
-- nanoseconds; the lock makes each operation one step.
use remnaguard.Prelude.{
  ℕ, zero, suc, ◌+◌, ◌≤◌, ◌<◌, String, Bool, true, false, not, Option, none, some, List, [], ◌∷◌,
  ◌&&◌, ◌||◌, if◌then◌else◌, ◌==◌, ◌≡◌, ◌≢◌, refl, ap, ◌∙◌, sym, arith, eq_iff, length, ltb, leb,
  find, store, without, find-store, find-without, subst, eq_refl, Bool-cases, inl, inr, ℤ, pos,
  negsuc, All,
}
pub mod Bounded
pub mod Once
pub mod Views
pub mod Refines

pub record Attempt : Type 0 where
  pub code_verifier : String
  pub nonce : String
  pub expires_at : ℕ
  pub generation : ℕ

pub record OauthStore : Type 0 where
  pub attempts : List (String × Attempt)
  pub max : ℤ

abbrev pub new_store : ℤ → OauthStore
new_store max = record { attempts = []; max = max }

-- pruneLocked, of the attempts; now.After(attempt.ExpiresAt) is `ltb attempt.expires_at now`.
unfoldable pub prune : ℕ → List (String × Attempt) → List (String × Attempt)
prune now [] = []
prune now ((state, attempt) ∷ attempts) =
    let rest = prune now attempts in
    if ltb attempt.expires_at now then rest else (state, attempt) ∷ rest

abbrev pub is_full : ℤ → ℕ → Bool
is_full (pos n) count = ltb 0 n && leb n count
is_full (negsuc n) count = false

unfoldable pub put : String → Attempt → ℕ → OauthStore → OauthStore × Bool
put state attempt now s =
    let kept = prune now s.attempts in
    if is_full s.max (length kept)
    then (record s { attempts = kept }, false)
    else (record s { attempts = store state attempt kept }, true)

abbrev pub taken_from : String → OauthStore → Option Attempt → OauthStore × Option Attempt
taken_from state s none = (s, none)
taken_from state s (some attempt) = (record s { attempts = without state s.attempts }, some attempt)

unfoldable pub take : String → ℕ → OauthStore → OauthStore × Option Attempt
take state now s =
    let kept = prune now s.attempts in
    taken_from state (record s { attempts = kept }) (find state kept)

unfoldable pub clear : OauthStore → OauthStore
clear s = record s { attempts = [] }

-- One call, with the time at which it is made.
pub data StoreCall : Type 0 where
  put_call : String → Attempt → ℕ → StoreCall
  take_call : String → ℕ → StoreCall
  clear_call : StoreCall

unfoldable pub after_call : StoreCall → OauthStore → OauthStore
after_call (put_call state attempt now) s = (put state attempt now s).0
after_call (take_call state now) s = (take state now s).0
after_call clear_call s = clear s

unfoldable pub after_calls : List StoreCall → OauthStore → OauthStore
after_calls [] s = s
after_calls (c ∷ cs) s = after_calls cs (after_call c s)
