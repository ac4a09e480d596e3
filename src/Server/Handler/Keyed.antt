-- ===== src/Server/Handler/Keyed.antt =====
-- internal/server/server.go: the stages behind a semaphore by key give back what they took.
use remnaguard.Prelude.{String, true, Option, none, some, ◌≡◌, refl, ap, sym, ◌∙◌, arith}
use remnaguard.RateLimit.{PerKey, acquire_key, release_key}
use remnaguard.RateLimit.Semaphores.{sem_of}
use remnaguard.RateLimit.Returned.{refused_key, release-acquire_key}
use remnaguard.Server.Handler.World.{
  World, Handler, LimitState, Reply, set_limits, left_token, left_sub_ip, leave_token, leave_sub_ip,
  with_token, with_sub_ip,
}
use remnaguard.Server.Handler.Frees.{Frees, Freed, either_way}

left_token_lem :
    (id : String) (before : LimitState) (x : World × Reply) (o : Option PerKey)
    → (acquire_key before.per_token id).1 ≡ true
    → Freed (record before { per_token = (acquire_key before.per_token id).0 }) x
    → release_key x.0.limits.per_token id ≡ o
    → Freed before (left_token o x)
left_token_lem id before x o let_in f e =
    go o ((release-acquire_key before.per_token x.0.limits.per_token id let_in f.held.per_token).0)
      (sym e
        ∙ (release-acquire_key before.per_token x.0.limits.per_token id let_in f.held.per_token).1)
      ((release-acquire_key before.per_token x.0.limits.per_token id let_in f.held.per_token).2)
  where
    go :
        (o : Option PerKey) (q : PerKey)
        → o ≡ some q
        → ((j : String) → sem_of q j ≡ sem_of before.per_token j)
        → Freed before (left_token o x)
    go none q back same = absurd (ground (arith, back))
    go (some p) q back same = record {
      held = record {
        global = f.held.global;
        per_token = λ j. ap (λ (r : PerKey). sem_of r j) (ground (arith, back)) ∙ same j;
        per_sub_ip = f.held.per_sub_ip;
      };
      answered = f.answered;
    }

pub Frees-with_token : (id : String) (g h : Handler) → Frees g → Frees h → Frees (with_token id g h)
unfolding with_token leave_token
Frees-with_token id g h a b = record {
  at = λ (w : World).
      let (p, ok) = acquire_key w.limits.per_token id in
      let entered = set_limits (record w.limits { per_token = p }) w in
      either_way w.limits ok (leave_token id (h entered)) (g entered)
        (λ e. left_token_lem id w.limits (h entered) _ e (b.at entered) refl)
        (λ e.
          let f = a.at entered in
          record {
            held = record {
              global = f.held.global;
              per_token = λ j. f.held.per_token j ∙ refused_key w.limits.per_token id j e;
              per_sub_ip = f.held.per_sub_ip;
            };
            answered = f.answered;
          });
}

left_sub_ip_lem :
    (ip : String) (before : LimitState) (x : World × Reply) (o : Option PerKey)
    → (acquire_key before.per_sub_ip ip).1 ≡ true
    → Freed (record before { per_sub_ip = (acquire_key before.per_sub_ip ip).0 }) x
    → release_key x.0.limits.per_sub_ip ip ≡ o
    → Freed before (left_sub_ip o x)
left_sub_ip_lem ip before x o let_in f e =
    go o
      ((release-acquire_key before.per_sub_ip x.0.limits.per_sub_ip ip let_in f.held.per_sub_ip).0)
      (sym e
        ∙ (release-acquire_key before.per_sub_ip x.0.limits.per_sub_ip ip let_in
            f.held.per_sub_ip).1)
      ((release-acquire_key before.per_sub_ip x.0.limits.per_sub_ip ip let_in f.held.per_sub_ip).2)
  where
    go :
        (o : Option PerKey) (q : PerKey)
        → o ≡ some q
        → ((j : String) → sem_of q j ≡ sem_of before.per_sub_ip j)
        → Freed before (left_sub_ip o x)
    go none q back same = absurd (ground (arith, back))
    go (some p) q back same = record {
      held = record {
        global = f.held.global;
        per_sub_ip = λ j. ap (λ (r : PerKey). sem_of r j) (ground (arith, back)) ∙ same j;
        per_token = f.held.per_token;
      };
      answered = f.answered;
    }

pub Frees-with_sub_ip :
    (ip : String) (g h : Handler) → Frees g → Frees h → Frees (with_sub_ip ip g h)
unfolding with_sub_ip leave_sub_ip
Frees-with_sub_ip ip g h a b = record {
  at = λ (w : World).
      let (p, ok) = acquire_key w.limits.per_sub_ip ip in
      let entered = set_limits (record w.limits { per_sub_ip = p }) w in
      either_way w.limits ok (leave_sub_ip ip (h entered)) (g entered)
        (λ e. left_sub_ip_lem ip w.limits (h entered) _ e (b.at entered) refl)
        (λ e.
          let f = a.at entered in
          record {
            held = record {
              global = f.held.global;
              per_sub_ip = λ j. f.held.per_sub_ip j ∙ refused_key w.limits.per_sub_ip ip j e;
              per_token = f.held.per_token;
            };
            answered = f.answered;
          });
}
