-- ===== src/Alerts/Defs.antt =====
-- internal/alerts/alerts.go: the events, the buckets and the steps of the manager's loop. Times are
-- nanoseconds since Go's zero time; the text of a status, fmt.Sprint, is the parameter `sprint`. A step
-- returns the buckets that it sends, in their order.
use remnaguard.Prelude.{
  ℕ, zero, suc, ◌+◌, String, Bool, true, false, not, Option, none, some, List, [], ◌∷◌, ◌++◌, ◌&&◌,
  ◌||◌, if◌then◌else◌, ◌==◌, ◌+++◌, nat_eq, leb, has_prefix, find, store, trim_space, ℤ, pos,
  negsuc,
}

pub record Event : Type 0 where
  pub name : String
  pub method : String
  pub path : String
  pub route : String
  pub token_id : String
  pub reason : String
  pub status : ℕ
  pub has_auth_hint : Bool
  pub created_at : ℕ

pub record AlertBucket : Type 0 where
  pub event : Event
  pub first : ℕ
  pub last : ℕ
  pub count : ℕ
  pub last_sent : ℕ

abbrev pub Buckets : Type 0
Buckets = List (String × AlertBucket)

-- emptyDash
abbrev pub empty_dash : String → String
empty_dash value = if trim_space value == "" then "-" else value

-- suppressEvent
unfoldable pub suppress_event : Event → Bool
suppress_event ev =
    if ev.route == "" && ev.reason == "unknown_route" && nat_eq ev.status 404
    then true
    else if ev.has_auth_hint || not (ev.token_id == "")
    then false
    else has_prefix ev.route "sub."
      && ev.reason == "public_subscriptions_disabled"
      && nat_eq ev.status 403

-- cooldownLocked, of the configured cooldown
unfoldable pub cooldown_of : ℤ → ℕ
cooldown_of (pos zero) = 300_000_000_000
cooldown_of (pos (suc n)) = suc n
cooldown_of (negsuc n) = 300_000_000_000

-- The first bucket of a key.
abbrev pub or_new : Event → Option AlertBucket → AlertBucket
or_new ev none = record {
  event = ev;
  first = ev.created_at;
  last = ev.created_at;
  count = 0;
  last_sent = 0;
}
or_new ev (some b) = b

-- The bucket with one event more.
abbrev pub counted : Event → AlertBucket → AlertBucket
counted ev b = record {
  event = ev;
  first = if nat_eq b.count 0 then ev.created_at else b.first;
  last = ev.created_at;
  count = b.count + 1;
  last_sent = b.last_sent;
}

-- The bucket once it has been sent.
abbrev pub emptied : ℕ → AlertBucket → AlertBucket
emptied now b = record b { count = 0; first = 0; last_sent = now }

abbrev pub is_due : ℕ → ℕ → AlertBucket → Bool
is_due cooldown now b = nat_eq b.last_sent 0 || leb (b.last_sent + cooldown) now

module _ (sprint : ℕ → String) where
  -- alertKey
  unfoldable pub alert_key : Event → String
  alert_key ev =
      empty_dash ev.token_id
      +++ "|"
      +++ empty_dash ev.route
      +++ "|"
      +++ empty_dash ev.reason
      +++ "|"
      +++ sprint ev.status

  -- record
  unfoldable pub record_event : ℕ → Event → Buckets → Buckets × List AlertBucket
  record_event cooldown ev m =
      let key = alert_key ev in
      let b = counted ev (or_new ev (find key m)) in
      if is_due cooldown ev.created_at b
      then (store key (emptied ev.created_at b) m, b ∷ [])
      else (store key b m, [])

-- flushDue
unfoldable pub flush_due : ℕ → ℕ → Buckets → Buckets × List AlertBucket
flush_due cooldown now [] = ([], [])
flush_due cooldown now ((key, b) ∷ m) =
    let (rest, sends) = flush_due cooldown now m in
    if nat_eq b.count 0 || not (is_due cooldown now b)
    then ((key, b) ∷ rest, sends)
    else ((key, emptied now b) ∷ rest, b ∷ sends)

-- flushAll
unfoldable pub flush_all : Buckets → List AlertBucket
flush_all [] = []
flush_all ((key, b) ∷ m) = let rest = flush_all m in if nat_eq b.count 0 then rest else b ∷ rest

-- One turn of the manager's loop.
pub data Turn : Type 0 where
  event_turn : Event → Turn
  tick_turn : ℕ → Turn

-- The turns of the loop and its end: all that is sent.
module _ (sprint : ℕ → String) where
  unfoldable pub turn : ℕ → Turn → Buckets → Buckets × List AlertBucket
  turn cooldown (event_turn ev) m = record_event sprint cooldown ev m
  turn cooldown (tick_turn now) m = flush_due cooldown now m

  unfoldable pub run : ℕ → List Turn → Buckets → List AlertBucket
  run cooldown [] m = flush_all m
  run cooldown (t ∷ ts) m = let (next, sends) = turn cooldown t m in sends ++ run cooldown ts next
