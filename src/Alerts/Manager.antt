-- ===== src/Alerts/Manager.antt =====
-- internal/alerts/alerts.go: the Manager with its queue. A move is one call of the program, or one turn of the
-- goroutine `run`; the buckets that it passes to `send` are its result.
use remnaguard.Prelude.{
  ℕ, zero, suc, ◌+◌, String, Bool, true, false, not, Option, none, some, List, [], ◌∷◌, ◌++◌, ◌&&◌,
  if◌then◌else◌, ◌==◌, nat_eq, ltb, length, ℤ, pos, negsuc,
}
use remnaguard.Config.{AlertsConfig}
use remnaguard.Alerts.Defs.{
  Event, AlertBucket, Buckets, suppress_event, cooldown_of, record_event, flush_due, flush_all,
}

pub record Manager : Type 0 where
  pub cfg : AlertsConfig
  pub queue : List Event
  pub queue_size : ℕ
  pub buckets : Buckets
  pub stopped : Bool

-- The size of the channel, none where `make` panics.
abbrev pub size_of : ℤ → Option ℕ
size_of (pos zero) = some 100
size_of (pos (suc n)) = some (suc n)
size_of (negsuc n) = none

abbrev pub sized : AlertsConfig → Option ℕ → Option Manager
sized cfg none = none
sized cfg (some n) =
    some (record { cfg = cfg; queue = []; queue_size = n; buckets = []; stopped = false })

-- NewManager
unfoldable pub new_manager : AlertsConfig → Option Manager
new_manager cfg = sized cfg (size_of cfg.telegram.queue_size)

-- Whether Notify takes an event up.
unfoldable pub is_reported : AlertsConfig → Event → Bool
is_reported cfg ev =
    cfg.enabled && cfg.telegram.enabled && ev.name == "request_denied" && not (suppress_event ev)

abbrev pub dated : ℕ → Event → Event
dated now ev = record ev { created_at = if nat_eq ev.created_at 0 then now else ev.created_at }

-- Notify, at the time `now`: the manager, and whether the event has gone into the queue
unfoldable pub notify : Event → ℕ → Manager → Manager × Bool
unfolding is_reported
notify ev now m =
    if not (is_reported m.cfg ev)
    then (m, false)
    else if ltb (length m.queue) m.queue_size
    then (record m { queue = m.queue ++ (dated now ev ∷ []) }, true)
    else (m, false)

-- Update
unfoldable pub update : AlertsConfig → Manager → Manager
update cfg m = record m { cfg = cfg }

pub data Move : Type 0 where
  notify_move : Event → ℕ → Move
  update_move : AlertsConfig → Move
  receive_move : Move
  tick_move : ℕ → Move
  stop_move : Move

module _ (sprint : ℕ → String) where
  -- The queue's turn of `run`, which it has only where there is an event.
  unfoldable pub receive : List Event → Manager → Manager × List AlertBucket
  receive [] m = (m, [])
  receive (ev ∷ rest) m =
      let (next, sends) = record_event sprint (cooldown_of m.cfg.telegram.cooldown) ev m.buckets in
      (record m { queue = rest; buckets = next }, sends)

  unfoldable pub move : Move → Manager → Manager × List AlertBucket
  unfolding notify update receive
  move (notify_move ev now) m = ((notify ev now m).0, [])
  move (update_move cfg) m = (update cfg m, [])
  move receive_move m = let next = receive m.queue m in if m.stopped then (m, []) else next
  move (tick_move now) m =
      let (next, sends) = flush_due (cooldown_of m.cfg.telegram.cooldown) now m.buckets in
      if m.stopped then (m, []) else (record m { buckets = next }, sends)
  move stop_move m =
      let sends = flush_all m.buckets in
      if m.stopped then (m, []) else (record m { stopped = true }, sends)

  unfoldable pub moves : List Move → Manager → Manager × List AlertBucket
  unfolding move
  moves [] m = (m, [])
  moves (v ∷ vs) m =
      let (next, sends) = move v m in let (last, later) = moves vs next in (last, sends ++ later)

  abbrev one_if : Bool → ℕ
  one_if true = 1
  one_if false = 0

  -- Whether a move puts an event into the queue.
  abbrev pub queued_by : Move → Manager → ℕ
  queued_by (notify_move ev now) m = one_if (notify ev now m).1
  queued_by _ m = 0

  unfoldable pub queued : List Move → Manager → ℕ
  unfolding move notify
  queued [] m = 0
  queued (v ∷ vs) m = let rest = queued vs (move v m).0 in queued_by v m + rest
