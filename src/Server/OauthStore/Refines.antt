-- ===== src/Server/OauthStore/Refines.antt =====
-- internal/server/server.go: panelOAuthStore answers as its view promises.
use remnaguard.Prelude.{
  ℕ, String, Bool, true, false, Option, none, some, List, [], ◌∷◌, if◌then◌else◌, ◌≡◌, refl, ap,
  ◌∙◌, sym, length, find, store, subst, subst₂, All, ℤ, fun_ext,
}
use remnaguard.Server.OauthStore.{
  Attempt, OauthStore, new_store, prune, is_full, put, taken_from, take, clear, StoreCall, put_call,
  take_call, clear_call, after_call, after_calls,
}
use remnaguard.Server.OauthStore.Views.{
  Runs, done, put_accepted, put_refused, take_given, clear_done, handed, View, expire, set,
  Distinct, answer_put, answers, view, prune-Distinct, store-Distinct, find-prune_live, all_found,
  view_pruned, put_view, take_view, take-Distinct, taken_answer,
}

taken_max : (k : String) (s : OauthStore) (o : Option Attempt) → (taken_from k s o).0.max ≡ s.max
taken_max k s none = refl
taken_max k s (some a) = refl

-- What is left to show of a run, for every store without repeats.
abbrev Refined : List StoreCall → OauthStore → Type 0
Refined cs s = Runs s.max (view s) cs (answers cs s) (view (after_calls cs s))

put-Runs :
    (k : String) (a : Attempt) (now : ℕ) (cs : List StoreCall) (s : OauthStore) (b : Bool)
    → is_full s.max (length (prune now s.attempts)) ≡ b
    → Distinct s.attempts
    → ((t : OauthStore) → Distinct t.attempts → Refined cs t)
    → let kept = prune now s.attempts in
      let r : OauthStore × Bool =
        (if b
          then (record s { attempts = kept }, false)
          else (record s { attempts = store k a kept }, true)) in
      Runs s.max
        (view s)
        (put_call k a now ∷ cs)
        (answer_put r.1 ∷ answers cs r.0)
        (view (after_calls cs r.0))
put-Runs k a now cs s true full d later =
    let kept = prune now s.attempts in
    let kept_distinct = prune-Distinct now s.attempts d in
    let t = record s { attempts = kept } in
    put_refused k a now
      (record {
        attempts = kept;
        distinct = kept_distinct;
        waiting =
            subst (λ (f : View). All (λ e. f e.0 ≡ some e.1) kept) (view_pruned now s d)
              (all_found kept kept_distinct);
        full = full;
      })
      (subst (λ (f : View). Runs s.max f cs (answers cs t) (view (after_calls cs t)))
        (view_pruned now s d) (later t kept_distinct))
put-Runs k a now cs s false full d later =
    let t = record s { attempts = store k a (prune now s.attempts) } in
    put_accepted k a now (
      subst (λ (f : View). Runs s.max f cs (answers cs t) (view (after_calls cs t)))
        (put_view k a now s d)
        (later t (store-Distinct k a (prune now s.attempts) (prune-Distinct now s.attempts d))))

take-Runs :
    (k : String) (now : ℕ) (cs : List StoreCall) (s : OauthStore)
    → Distinct s.attempts
    → ((t : OauthStore) → Distinct t.attempts → Refined cs t)
    → let r =
        taken_from k
          (record s { attempts = prune now s.attempts })
          (find k (prune now s.attempts)) in
      Runs s.max
        (view s)
        (take_call k now ∷ cs)
        (handed r.1 ∷ answers cs r.0)
        (view (after_calls cs r.0))
take-Runs k now cs s d later =
    let kept = prune now s.attempts in
    let pruned = record s { attempts = kept } in
    let o = find k kept in
    let t = (taken_from k pruned o).0 in
    let seen : view t ≡ set k none (expire now (view s)) =
      fun_ext (λ j. take_view k pruned o j refl) ∙ ap (set k none) (view_pruned now s d) in
    let answered = sym (taken_answer k pruned o ∙ find-prune_live now s.attempts k d) in
    let rest = later t (take-Distinct k pruned o (prune-Distinct now s.attempts d)) in
    subst
      (λ (x : Option Attempt).
        Runs s.max (view s) (take_call k now ∷ cs) (handed x ∷ answers cs t)
          (view (after_calls cs t)))
      answered
      (take_given k now (
        subst₂ (λ (max : ℤ) (f : View). Runs max f cs (answers cs t) (view (after_calls cs t)))
          (taken_max k pruned o) seen rest))

after_calls-Refined : (cs : List StoreCall) (s : OauthStore) → Distinct s.attempts → Refined cs s
unfolding answers after_calls after_call put take clear find
after_calls-Refined [] s d = done
after_calls-Refined (put_call k a now ∷ cs) s d =
    put-Runs k a now cs s (is_full s.max (length (prune now s.attempts))) refl d
      (after_calls-Refined cs)
after_calls-Refined (take_call k now ∷ cs) s d = take-Runs k now cs s d (after_calls-Refined cs)
after_calls-Refined (clear_call ∷ cs) s d =
    clear_done (after_calls-Refined cs (record s { attempts = [] }) tt)

-- Whatever is called on a new store, the answers are those that the store promises: of a function from states to
-- attempts, as Runs has it.
pub new_store-Runs :
    (max : ℤ) (cs : List StoreCall)
    → Runs max (λ _. none) cs (answers cs (new_store max)) (view (after_calls cs (new_store max)))
unfolding find
new_store-Runs max cs = after_calls-Refined cs (new_store max) tt
