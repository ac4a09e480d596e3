-- ===== src/Tests/Alerting.antt =====
-- A manager that gets three denials, and what it sends.
use remnaguard.Prelude.{
  ℕ, ◌+◌, ◌≤◌, String, true, false, some, List, [], ◌∷◌, ◌≡◌, refl, arith, length, pos, find, store,
  text_functions, eq_iff,
}
use remnaguard.Config.{AlertsConfig}
use remnaguard.Alerts.{
  Event, AlertBucket, suppress_event, record_event, flush_due, flush_all, cooldown_of, alert_key,
}
use remnaguard.Alerts.Conserved.{sent_count}
use remnaguard.Alerts.Manager.{
  Manager, new_manager, is_reported, notify, Move, notify_move, receive_move, tick_move, stop_move,
  receive, move, moves, queued,
}
use remnaguard.Alerts.Accounts.{held, new_manager-IsAccounted}
use remnaguard.Alerts.Message.{Formats, send}
use remnaguard.Alerts.Redacted.{IsSubPath, with_path, send_redacted}

abbrev denial : ℕ → Event
denial at = record {
  name = "request_denied";
  method = "GET";
  path = "/api/users";
  route = "user.list";
  token_id = "shop";
  reason = "missing_scope";
  status = 403;
  has_auth_hint = true;
  created_at = at;
}

abbrev a_status : ℕ → String
a_status n = "403"

abbrev on : AlertsConfig
on = record {
  enabled = true;
  telegram = record {
    enabled = true;
    bot_token_env = "T";
    chat_id_env = "C";
    cooldown = pos 15;
    queue_size = pos 2;
    timeout = pos 0;
    api_base_url = "";
  };
}

abbrev quiet : Manager
quiet = record { cfg = on; queue = []; queue_size = 2; buckets = []; stopped = false }

-- The third denial finds the queue full.
abbrev day : List Move
day =
    notify_move (denial 10) 10
    ∷ notify_move (denial 20) 20
    ∷ notify_move (denial 21) 21
    ∷ receive_move
    ∷ receive_move
    ∷ tick_move 22
    ∷ notify_move (denial 40) 40
    ∷ stop_move
    ∷ []

two_of_day : queued a_status day quiet ≡ 3
unfolding queued move notify is_reported suppress_event receive record_event flush_due flush_all
    cooldown_of alert_key find store text_functions
two_of_day = refl

on_starts : new_manager on ≡ some quiet
unfolding new_manager
on_starts = refl

new_manager-IsAccounted_example :
    (length (moves a_status day quiet).0.queue ≤ 2)
    × (held (moves a_status day quiet).0 + sent_count (moves a_status day quiet).1
        ≡ queued a_status day quiet)
new_manager-IsAccounted_example = new_manager-IsAccounted a_status on quiet day on_starts

abbrev formats : Formats
formats = record {
  getenv = λ name. name;
  time_text = λ t. "now";
  duration_text = λ d. "0s";
  number_text = λ n. "1";
}

abbrev gathered : AlertBucket
gathered = record { event = denial 10; first = 10; last = 20; count = 2; last_sent = 0 }

one_sub : IsSubPath "/api/sub/abc/info" "abc" ("info" ∷ [])
unfolding text_functions
one_sub = record { parts = refl; named = λ e. ground (arith, eq_iff "abc" "", e) }

other_sub : IsSubPath "/api/sub/xyz/info" "xyz" ("info" ∷ [])
unfolding text_functions
other_sub = record { parts = refl; named = λ e. ground (arith, eq_iff "xyz" "", e) }

send_redacted_example :
    send formats on (with_path "/api/sub/abc/info" gathered)
    ≡ send formats on (with_path "/api/sub/xyz/info" gathered)
send_redacted_example =
    send_redacted formats on gathered "/api/sub/abc/info" "/api/sub/xyz/info" "abc" "xyz"
      ("info" ∷ []) one_sub other_sub
