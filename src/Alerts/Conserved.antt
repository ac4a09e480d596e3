-- ===== src/Alerts/Conserved.antt =====
-- internal/alerts/alerts.go: the counts of the buckets.
use remnaguard.Prelude.{
  ℕ, ◌+◌, String, Option, none, some, List, [], ◌∷◌, ◌++◌, ◌==◌, ◌≡◌, refl, arith, eq_iff, find,
  store, Bool-cases, inl, inr,
}
use remnaguard.Alerts.Defs.{
  Event, AlertBucket, Buckets, alert_key, or_new, counted, emptied, record_event, flush_due,
  flush_all, Turn, event_turn, tick_turn, turn, run,
}

-- The events in buckets that are sent, and in those that wait.
abbrev pub sent_count : List AlertBucket → ℕ
sent_count [] = 0
sent_count (b ∷ bs) = b.count + sent_count bs

abbrev pub waiting : Buckets → ℕ
waiting [] = 0
waiting ((k, b) ∷ m) = b.count + waiting m

abbrev count_of : Option AlertBucket → ℕ
count_of none = 0
count_of (some b) = b.count

-- The events among the turns.
abbrev pub events : List Turn → ℕ
events [] = 0
events (event_turn ev ∷ ts) = 1 + events ts
events (tick_turn now ∷ ts) = events ts

pub sent_count-append :
    (xs ys : List AlertBucket) → sent_count (xs ++ ys) ≡ sent_count xs + sent_count ys
sent_count-append [] ys = omega arith
sent_count-append (x ∷ xs) ys = omega (arith, sent_count-append xs ys)

waiting-store :
    (k : String) (b : AlertBucket) (m : Buckets)
    → waiting (store k b m) + count_of (find k m) ≡ waiting m + b.count
unfolding store find
waiting-store k b [] = omega arith
waiting-store k b ((j, a) ∷ m) =
    let next = waiting-store k b m in
    elim (Bool-cases (j == k)) [
      | inl e ↦ ground (arith, e, eq_iff j k, eq_iff k j)
      | inr e ↦ ground (arith, e, next, eq_iff j k, eq_iff k j)
    ]

count_of-or_new :
    (ev : Event) (o : Option AlertBucket) → (counted ev (or_new ev o)).count ≡ count_of o + 1
count_of-or_new ev none = omega arith
count_of-or_new ev (some b) = omega arith

pub flush_due-waiting :
    (cooldown now : ℕ) (m : Buckets)
    → waiting (flush_due cooldown now m).0 + sent_count (flush_due cooldown now m).1 ≡ waiting m
unfolding flush_due
flush_due-waiting cooldown now [] = omega arith
flush_due-waiting cooldown now ((k, b) ∷ m) = ground (arith, flush_due-waiting cooldown now m)

pub flush_all-waiting : (m : Buckets) → sent_count (flush_all m) ≡ waiting m
unfolding flush_all
flush_all-waiting [] = refl
flush_all-waiting ((k, b) ∷ m) = ground (arith, flush_all-waiting m)

module _ (sprint : ℕ → String) where
  pub record_event-waiting :
      (cooldown : ℕ) (ev : Event) (m : Buckets)
      → waiting (record_event sprint cooldown ev m).0
          + sent_count (record_event sprint cooldown ev m).1
        ≡ waiting m + 1
  unfolding record_event
  record_event-waiting cooldown ev m =
      let key = alert_key sprint ev in
      let b = counted ev (or_new ev (find key m)) in
      ground (
        arith,
        waiting-store key (emptied ev.created_at b) m,
        waiting-store key b m,
        count_of-or_new ev (find key m),
      )

  run-waiting :
      (cooldown : ℕ) (ts : List Turn) (m : Buckets)
      → sent_count (run sprint cooldown ts m) ≡ waiting m + events ts
  unfolding run turn
  run-waiting cooldown [] m = omega (arith, flush_all-waiting m)
  run-waiting cooldown (event_turn ev ∷ ts) m =
      let (next, sends) = record_event sprint cooldown ev m in
      omega (
        arith,
        sent_count-append sends (run sprint cooldown ts next),
        run-waiting cooldown ts next,
        record_event-waiting cooldown ev m,
      )
  run-waiting cooldown (tick_turn now ∷ ts) m =
      let (next, sends) = flush_due cooldown now m in
      omega (
        arith,
        sent_count-append sends (run sprint cooldown ts next),
        run-waiting cooldown ts next,
        flush_due-waiting cooldown now m,
      )

  -- Over any events and ticks that the manager's loop takes, from no bucket on, the counts of all the
  -- buckets that are sent, with the flush at the end, add up to the number of the events.
  pub events_conserved :
      (cooldown : ℕ) (ts : List Turn) → sent_count (run sprint cooldown ts []) ≡ events ts
  events_conserved cooldown ts = omega (arith, run-waiting cooldown ts [])
