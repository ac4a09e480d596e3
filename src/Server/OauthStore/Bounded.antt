-- ===== src/Server/OauthStore/Bounded.antt =====
-- internal/server/server.go: the number of attempts in a panelOAuthStore.
use remnaguard.Prelude.{
  ℕ, suc, ◌≤◌, ◌<◌, String, Bool, true, false, Option, none, some, List, [], ◌∷◌, if◌then◌else◌,
  ◌≡◌, refl, arith, length, find, store, without, subst, ℤ, pos,
}
use remnaguard.Server.OauthStore.{
  Attempt, OauthStore, new_store, prune, is_full, put, taken_from, take, clear, StoreCall, put_call,
  take_call, clear_call, after_call, after_calls,
}

length-prune : (now : ℕ) (m : List (String × Attempt)) → length (prune now m) ≤ length m
unfolding prune
length-prune now [] = omega arith
length-prune now ((k, a) ∷ m) = ground (arith, length-prune now m)

length-store :
    (k : String) (a : Attempt) (m : List (String × Attempt)) → length (store k a m) ≤ suc (length m)
unfolding store
length-store k a [] = omega arith
length-store k a ((j, b) ∷ m) = ground (arith, length-store k a m)

length-without : (k : String) (m : List (String × Attempt)) → length (without k m) ≤ length m
unfolding without
length-without k [] = omega arith
length-without k ((j, b) ∷ m) = ground (arith, length-without k m)

abbrev HasRoom : ℕ → OauthStore → Type 0
HasRoom n s = (s.max ≡ pos n) × (length s.attempts ≤ n)

either-HasRoom :
    (n : ℕ) (b : Bool) (x y : OauthStore)
    → HasRoom n x
    → (b ≡ false → HasRoom n y)
    → HasRoom n ((if◌then◌else◌ {A = OauthStore × Bool} b (x, false) (y, true)).0)
either-HasRoom n true x y h k = h
either-HasRoom n false x y h k = k refl

room :
    (n : ℕ) (max : ℤ) (count more : ℕ)
    → max ≡ pos n
    → 0 < n
    → is_full max count ≡ false
    → more ≤ suc count
    → more ≤ n
room n max count more same p e h =
    let open_n : is_full (pos n) count ≡ false = subst (λ m. is_full m count ≡ false) same e in
    ground (arith, open_n, p, h)

taken_from-HasRoom :
    (n : ℕ) (k : String) (s : OauthStore) (o : Option Attempt)
    → HasRoom n s
    → HasRoom n (taken_from k s o).0
taken_from-HasRoom n k s none h = h
taken_from-HasRoom n k s (some a) (same, h) = (same, omega (arith, length-without k s.attempts, h))

after_call-HasRoom :
    (n : ℕ) (c : StoreCall) (s : OauthStore) → 0 < n → HasRoom n s → HasRoom n (after_call c s)
unfolding after_call put take clear
after_call-HasRoom n (put_call k a now) s p (same, h) =
    let kept = prune now s.attempts in
    let shorter = length-prune now s.attempts in
    either-HasRoom n (is_full s.max (length kept)) (record s { attempts = kept })
      (record s { attempts = store k a kept }) (same, omega (arith, shorter, h))
      (λ e. (
        same,
        room n s.max (length kept) (length (store k a kept)) same p e (length-store k a kept),
      ))
after_call-HasRoom n (take_call k now) s p (same, h) =
    let kept = prune now s.attempts in
    taken_from-HasRoom n k (record s { attempts = kept }) (find k kept)
      (same, omega (arith, length-prune now s.attempts, h))
after_call-HasRoom n clear_call s p (same, h) = (same, omega arith)

after_calls-HasRoom :
    (n : ℕ) (cs : List StoreCall) (s : OauthStore)
    → 0 < n
    → HasRoom n s
    → HasRoom n (after_calls cs s)
unfolding after_calls
after_calls-HasRoom n [] s p h = h
after_calls-HasRoom n (c ∷ cs) s p h =
    after_calls-HasRoom n cs (after_call c s) p (after_call-HasRoom n c s p h)

-- A store that is made with a positive bound never holds more attempts than that, whatever is called.
pub attempts_bounded :
    (n : ℕ) (cs : List StoreCall) → 0 < n → length (after_calls cs (new_store (pos n))).attempts ≤ n
attempts_bounded n cs p = (after_calls-HasRoom n cs (new_store (pos n)) p (refl, omega arith)).1
