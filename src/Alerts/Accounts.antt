-- ===== src/Alerts/Accounts.antt =====
-- internal/alerts/alerts.go: where the events are that the Manager has queued.
use remnaguard.Prelude.{
  ℕ, ◌+◌, ◌≤◌, String, Option, none, some, List, [], ◌∷◌, ◌++◌, if◌then◌else◌, ◌≡◌, refl, arith,
  length,
}
use remnaguard.Config.{AlertsConfig}
use remnaguard.Alerts.Defs.{Event, cooldown_of}
use remnaguard.Alerts.Conserved.{
  sent_count, waiting, sent_count-append, record_event-waiting, flush_due-waiting,
  flush_all-waiting,
}
use remnaguard.Alerts.Manager.{
  Manager, sized, size_of, new_manager, dated, notify, update, Move, notify_move, update_move,
  receive_move, tick_move, stop_move, receive, move, moves, queued_by, queued,
}

-- The events that a later turn of `run` may still send, in the queue and in the buckets. Once `run` has
-- returned, those in the buckets have been sent.
abbrev pub held : Manager → ℕ
held m = length m.queue + (if m.stopped then 0 else waiting m.buckets)

length-append_one : (es : List Event) (ev : Event) → length (es ++ (ev ∷ [])) ≡ length es + 1
length-append_one [] ev = refl
length-append_one (e ∷ es) ev = omega (arith, length-append_one es ev)

module _ (sprint : ℕ → String) where
  -- One move keeps the queue within its size, and the count of the events.
  record IsCounted (v : Move) (m : Manager) : Type 0 where
    pub size : (move sprint v m).0.queue_size ≡ m.queue_size
    pub bounded : length (move sprint v m).0.queue ≤ m.queue_size
    pub counted :
        held (move sprint v m).0 + sent_count (move sprint v m).1 ≡ held m + queued_by sprint v m

  received-IsCounted :
      (es : List Event) (m : Manager)
      → length es ≤ m.queue_size
      → IsCounted receive_move (record m { queue = es })
  unfolding move receive
  received-IsCounted [] m h = ground arith
  received-IsCounted (ev ∷ rest) m h =
      ground (arith, record_event-waiting sprint (cooldown_of m.cfg.telegram.cooldown) ev m.buckets)

  move-IsCounted : (v : Move) (m : Manager) → length m.queue ≤ m.queue_size → IsCounted v m
  unfolding move notify update receive
  move-IsCounted (notify_move ev now) m h = ground (arith, length-append_one m.queue (dated now ev))
  move-IsCounted (update_move cfg) m h = ground arith
  move-IsCounted receive_move m h = received-IsCounted m.queue m h
  move-IsCounted (tick_move now) m h =
      ground (arith, flush_due-waiting (cooldown_of m.cfg.telegram.cooldown) now m.buckets)
  move-IsCounted stop_move m h = ground (arith, flush_all-waiting m.buckets)

  pub record IsAccounted (vs : List Move) (m : Manager) : Type 0 where
    pub bounded : length (moves sprint vs m).0.queue ≤ m.queue_size
    pub counted :
        held (moves sprint vs m).0 + sent_count (moves sprint vs m).1 ≡ held m + queued sprint vs m

  moves-IsAccounted :
      (vs : List Move) (m : Manager) → length m.queue ≤ m.queue_size → IsAccounted vs m
  unfolding moves queued
  moves-IsAccounted [] m h = record { bounded = h; counted = omega arith }
  moves-IsAccounted (v ∷ vs) m h =
      let one = move-IsCounted v m h in
      let next = (move sprint v m).0 in
      let rest = moves-IsAccounted vs next (omega (arith, one.size, one.bounded)) in
      record {
        bounded = omega (arith, rest.bounded, one.size);
        counted = omega (
          arith,
          rest.counted,
          one.counted,
          sent_count-append (move sprint v m).1 (moves sprint vs next).1,
        );
      }

  -- Whatever is called on a new manager and whichever turns its goroutine takes, the queue holds no more events than
  -- its size, and the events that Notify has queued are those that are held and those in the buckets
  -- that were sent.
  pub new_manager-IsAccounted :
      (cfg : AlertsConfig) (m : Manager) (vs : List Move)
      → new_manager cfg ≡ some m
      → (length (moves sprint vs m).0.queue ≤ m.queue_size)
        × (held (moves sprint vs m).0 + sent_count (moves sprint vs m).1 ≡ queued sprint vs m)
  unfolding new_manager
  new_manager-IsAccounted cfg m vs h =
      let start : (m.queue ≡ []) × (m.buckets ≡ []) =
        starts_empty (size_of cfg.telegram.queue_size) h in
      let all = moves-IsAccounted vs m (ground (arith, start)) in
      (all.bounded, ground (arith, all.counted, start))
    where
      starts_empty : (o : Option ℕ) → sized cfg o ≡ some m → (m.queue ≡ []) × (m.buckets ≡ [])
      starts_empty none e = absurd (ground (arith, e))
      starts_empty (some n) e = (ground (arith, e), ground (arith, e))
