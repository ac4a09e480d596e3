-- ===== src/Server/Handler/Frees.antt =====
-- internal/server/server.go: the stages of a handler give back every semaphore that they took.
use remnaguard.Prelude.{
  ℕ, String, Bool, true, false, Option, none, some, ◌∷◌, if◌then◌else◌, ◌≡◌, refl, ap, ◌∙◌, arith,
}
use remnaguard.Config.{contains}
use remnaguard.RateLimit.{Semaphore, acquire, release, allow_nilable}
use remnaguard.RateLimit.Semaphores.{sem_of}
use remnaguard.RateLimit.Returned.{release-acquire}
use remnaguard.Proxy.{Proxy, RoundTripResult, upstream_request, round_trip}
use remnaguard.Server.Env.{Env}
use remnaguard.Server.Request.{Request}
use remnaguard.Server.Handler.World.{
  World, Handler, LimitState, Reply, no_reply, reply, set_limits, left_global, leave_global,
  with_global, with_token_rate, with_sub_rate, with_lock, with_upstream, sent_body,
}

-- Every semaphore is as it was.
pub record SameHeld (before after : LimitState) : Type 0 where
  pub global : after.global ≡ before.global
  pub per_token : (id : String) → sem_of after.per_token id ≡ sem_of before.per_token id
  pub per_sub_ip : (ip : String) → sem_of after.per_sub_ip ip ≡ sem_of before.per_sub_ip ip

abbrev pub is_answer : Reply → Bool
is_answer no_reply = false
is_answer _ = true

-- What a handler ends in, from a state of the limits.
pub record Freed (before : LimitState) (x : World × Reply) : Type 0 where
  pub held : SameHeld before x.0.limits
  pub answered : is_answer x.1 ≡ true

pub record Frees (h : Handler) : Type 0 where
  pub at : (w : World) → Freed w.limits (h w)

pub SameHeld-refl : (l : LimitState) → SameHeld l l
SameHeld-refl l = record { global = refl; per_token = λ id. refl; per_sub_ip = λ ip. refl }

pub Frees-reply : (r : Reply) → is_answer r ≡ true → Frees (reply r)
Frees-reply r h = record {
  at = λ (w : World). record { held = SameHeld-refl w.limits; answered = h };
}

pub Frees-if : (b : Bool) (g h : Handler) → Frees g → Frees h → Frees (if b then g else h)
Frees-if true g h a b = a
Frees-if false g h a b = b

pub either_way :
    (before : LimitState) (b : Bool) (x y : World × Reply)
    → (b ≡ true → Freed before x)
    → (b ≡ false → Freed before y)
    → Freed before (if b then x else y)
either_way before true x y a c = a refl
either_way before false x y a c = c refl

left_global_lem :
    (before : LimitState) (s : Semaphore) (x : World × Reply) (o : Option Semaphore)
    → Freed (record before { global = s }) x
    → release x.0.limits.global ≡ o
    → o ≡ some before.global
    → Freed before (left_global o x)
left_global_lem before s x none f e back = absurd (ground (arith, back))
left_global_lem before s x (some t) f e back = record {
  held = record {
    global = ground (arith, back);
    per_token = f.held.per_token;
    per_sub_ip = f.held.per_sub_ip;
  };
  answered = f.answered;
}

pub Frees-with_global : (g h : Handler) → Frees g → Frees h → Frees (with_global g h)
unfolding with_global leave_global
Frees-with_global g h a b = record {
  at = λ (w : World).
      let (s, ok) = acquire w.limits.global in
      let entered = set_limits (record w.limits { global = s }) w in
      let f = b.at entered in
      either_way w.limits ok (leave_global (h entered)) (g w)
        (λ e.
          left_global_lem w.limits s (h entered) (release (h entered).0.limits.global) f refl
            (ap release f.held.global ∙ release-acquire w.limits.global e))
        (λ e. a.at w);
}

pub Frees-with_token_rate :
    (now : ℕ) (id : String) (g h : Handler) → Frees g → Frees h → Frees (with_token_rate now id g h)
unfolding with_token_rate
Frees-with_token_rate now id g h a b = record {
  at = λ (w : World).
      let (f, ok) = allow_nilable w.limits.token_rate id now in
      let entered = set_limits (record w.limits { token_rate = f }) w in
      either_way w.limits ok (h entered) (g entered)
        (λ e. record {
          held = record {
            global = (b.at entered).held.global;
            per_token = (b.at entered).held.per_token;
            per_sub_ip = (b.at entered).held.per_sub_ip;
          };
          answered = (b.at entered).answered;
        })
        (λ e. record {
          held = record {
            global = (a.at entered).held.global;
            per_token = (a.at entered).held.per_token;
            per_sub_ip = (a.at entered).held.per_sub_ip;
          };
          answered = (a.at entered).answered;
        });
}

pub Frees-with_sub_rate :
    (now : ℕ) (ip : String) (g h : Handler) → Frees g → Frees h → Frees (with_sub_rate now ip g h)
unfolding with_sub_rate
Frees-with_sub_rate now ip g h a b = record {
  at = λ (w : World).
      let (f, ok) = allow_nilable w.limits.sub_rate ip now in
      let entered = set_limits (record w.limits { sub_rate = f }) w in
      either_way w.limits ok (h entered) (g entered)
        (λ e. record {
          held = record {
            global = (b.at entered).held.global;
            per_token = (b.at entered).held.per_token;
            per_sub_ip = (b.at entered).held.per_sub_ip;
          };
          answered = (b.at entered).answered;
        })
        (λ e. record {
          held = record {
            global = (a.at entered).held.global;
            per_token = (a.at entered).held.per_token;
            per_sub_ip = (a.at entered).held.per_sub_ip;
          };
          answered = (a.at entered).answered;
        });
}

pub Frees-with_lock : (key : String) (h : Handler) → Frees h → Frees (with_lock key h)
unfolding with_lock
Frees-with_lock key h a = record { at = λ (w : World). go w (contains w.locks key) }
  where
    go :
        (w : World) (b : Bool)
        → Freed w.limits (h (if b then w else record w { locks = key ∷ w.locks }))
    go w true = a.at w
    go w false = a.at (record w { locks = key ∷ w.locks })

pub Frees-with_upstream :
    (env : Env) (p : Proxy) (r : Request) (path raw_query : String) (public_sub : Bool)
    (served : RoundTripResult → Handler)
    → ((res : RoundTripResult) → Frees (served res))
    → Frees (with_upstream env p r path raw_query public_sub served)
unfolding with_upstream
Frees-with_upstream env p r path raw_query public_sub served a = record {
  at = λ (w : World).
      let body = sent_body r.body in
      let request =
        upstream_request env.base_path p r.raw.method r.raw.header body path raw_query public_sub in
      (a (
          round_trip (env.send w.sent) env.base_path p r.raw.method r.raw.header body path raw_query
            public_sub)).at
        (record w { sent = request ∷ w.sent });
}
