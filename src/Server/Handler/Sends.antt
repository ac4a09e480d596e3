-- ===== src/Server/Handler/Sends.antt =====
-- internal/server/server.go: the requests to the upstream that the stages of a handler send.
use remnaguard.Prelude.{
  String, Bool, true, false, Option, none, some, List, if◌then◌else◌, ◌≡◌, ◌⊎◌, inl, inr, refl, ◌∙◌,
  ℕ,
}
use remnaguard.RateLimit.{
  Semaphore, PerKey, acquire, acquire_key, allow_nilable, release, release_key,
}
use remnaguard.Proxy.{UpstreamRequest}
use remnaguard.Server.Handler.World.{
  World, Handler, Reply, reply, set_limits, left_global, left_token, left_sub_ip, leave_global,
  leave_token, leave_sub_ip, with_global, with_token, with_sub_ip, with_token_rate, with_sub_rate,
}

-- A handler sends nothing to the upstream, or P holds.
pub record Sends (P : Type 0) (h : Handler) : Type 0 where
  pub at : (w : World) → ((h w).0.sent ≡ w.sent) ⊎ P

pub Sends-reply : {P : Type 0} (r : Reply) → Sends P (reply r)
Sends-reply r = record { at = λ w. inl refl }

pub Sends-any : {P : Type 0} (h : Handler) → P → Sends P h
Sends-any h p = record { at = λ w. inr p }

pub Sends-if :
    {P : Type 0} (b : Bool) (g h : Handler)
    → (b ≡ true → Sends P g)
    → (b ≡ false → Sends P h)
    → Sends P (if b then g else h)
Sends-if true g h a b = a refl
Sends-if false g h a b = b refl

sent_after : World × Reply → List UpstreamRequest
sent_after x = x.0.sent

leave_global_sent : (x : World × Reply) → (leave_global x).0.sent ≡ x.0.sent
unfolding leave_global
leave_global_sent (w, r) = go (release w.limits.global)
  where
    go : (o : Option Semaphore) → (left_global o (w, r)).0.sent ≡ w.sent
    go none = refl
    go (some s) = refl

leave_token_sent : (id : String) (x : World × Reply) → (leave_token id x).0.sent ≡ x.0.sent
unfolding leave_token
leave_token_sent id (w, r) = go (release_key w.limits.per_token id)
  where
    go : (o : Option PerKey) → (left_token o (w, r)).0.sent ≡ w.sent
    go none = refl
    go (some p) = refl

leave_sub_ip_sent : (ip : String) (x : World × Reply) → (leave_sub_ip ip x).0.sent ≡ x.0.sent
unfolding leave_sub_ip
leave_sub_ip_sent ip (w, r) = go (release_key w.limits.per_sub_ip ip)
  where
    go : (o : Option PerKey) → (left_sub_ip o (w, r)).0.sent ≡ w.sent
    go none = refl
    go (some p) = refl

-- What holds of both ways that a limit decides between.
either :
    {P : Type 0} (before : List UpstreamRequest) (b : Bool) (x y : World × Reply)
    → (x.0.sent ≡ before) ⊎ P
    → (y.0.sent ≡ before) ⊎ P
    → ((if b then x else y).0.sent ≡ before) ⊎ P
either before true x y a c = a
either before false x y a c = c

left :
    {P : Type 0} (before : List UpstreamRequest) (x y : World × Reply)
    → y.0.sent ≡ x.0.sent
    → (x.0.sent ≡ before) ⊎ P
    → (y.0.sent ≡ before) ⊎ P
left before x y e (inl s) = inl (e ∙ s)
left before x y e (inr p) = inr p

pub Sends-with_global :
    {P : Type 0} (g h : Handler) → Sends P g → Sends P h → Sends P (with_global g h)
unfolding with_global
Sends-with_global g h a b = record {
  at = λ (w : World).
      let (s, ok) = acquire w.limits.global in
      let entered = set_limits (record w.limits { global = s }) w in
      either w.sent ok (leave_global (h entered)) (g w)
        (left w.sent (h entered) (leave_global (h entered)) (leave_global_sent (h entered))
          (b.at entered))
        (a.at w);
}

pub Sends-with_token :
    {P : Type 0} (id : String) (g h : Handler) → Sends P g → Sends P h → Sends P (with_token id g h)
unfolding with_token
Sends-with_token id g h a b = record {
  at = λ (w : World).
      let (p, ok) = acquire_key w.limits.per_token id in
      let entered = set_limits (record w.limits { per_token = p }) w in
      either w.sent ok (leave_token id (h entered)) (g entered)
        (left w.sent (h entered) (leave_token id (h entered)) (leave_token_sent id (h entered))
          (b.at entered))
        (a.at entered);
}

pub Sends-with_sub_ip :
    {P : Type 0} (ip : String) (g h : Handler)
    → Sends P g
    → Sends P h
    → Sends P (with_sub_ip ip g h)
unfolding with_sub_ip
Sends-with_sub_ip ip g h a b = record {
  at = λ (w : World).
      let (p, ok) = acquire_key w.limits.per_sub_ip ip in
      let entered = set_limits (record w.limits { per_sub_ip = p }) w in
      either w.sent ok (leave_sub_ip ip (h entered)) (g entered)
        (left w.sent (h entered) (leave_sub_ip ip (h entered)) (leave_sub_ip_sent ip (h entered))
          (b.at entered))
        (a.at entered);
}

pub Sends-with_token_rate :
    {P : Type 0} (now : ℕ) (id : String) (g h : Handler)
    → Sends P g
    → Sends P h
    → Sends P (with_token_rate now id g h)
unfolding with_token_rate
Sends-with_token_rate now id g h a b = record {
  at = λ (w : World).
      let (f, ok) = allow_nilable w.limits.token_rate id now in
      let entered = set_limits (record w.limits { token_rate = f }) w in
      either w.sent ok (h entered) (g entered) (b.at entered) (a.at entered);
}

pub Sends-with_sub_rate :
    {P : Type 0} (now : ℕ) (ip : String) (g h : Handler)
    → Sends P g
    → Sends P h
    → Sends P (with_sub_rate now ip g h)
unfolding with_sub_rate
Sends-with_sub_rate now ip g h a b = record {
  at = λ (w : World).
      let (f, ok) = allow_nilable w.limits.sub_rate ip now in
      let entered = set_limits (record w.limits { sub_rate = f }) w in
      either w.sent ok (h entered) (g entered) (b.at entered) (a.at entered);
}
