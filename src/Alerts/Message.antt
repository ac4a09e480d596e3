-- ===== src/Alerts/Message.antt =====
-- internal/alerts/alerts.go: send, up to the request that sendTelegram makes, and the text of a message. The
-- environment and the formats of a time, a duration and a number are parameters.
use remnaguard.Prelude.{
  ℕ, ◌+◌, ◌-◌, String, not, Option, none, some, List, [], ◌∷◌, ◌||◌, if◌then◌else◌, ◌==◌, ◌+++◌,
  nat_eq, ltb, split, trim_space, trim_right, is_positive, ℤ, pos,
}
use Prim.Native.Nat.{◌/◌, ◌*◌}
use remnaguard.Config.{AlertsConfig}
use remnaguard.Alerts.Defs.{AlertBucket, empty_dash}

pub record Formats : Type 0 where
  pub getenv : String → String
  pub time_text : ℕ → String
  pub duration_text : ℕ → String
  pub number_text : ℕ → String

-- The request of sendTelegram: the URL, the two fields of its body, and its time limit.
pub record Message : Type 0 where
  pub url : String
  pub chat_id : String
  pub message_text : String
  pub timeout : ℤ

-- strings.Join with "/"
unfoldable pub join_slash : List String → String
join_slash [] = ""
join_slash (s ∷ []) = s
join_slash (s ∷ t ∷ ss) = s +++ "/" +++ join_slash (t ∷ ss)

abbrev pub redacted_parts : String → List String → String
redacted_parts path (a ∷ b ∷ c ∷ d ∷ rest) =
    if not (b == "api") || not (c == "sub") || d == ""
    then path
    else join_slash (a ∷ b ∷ c ∷ "<redacted>" ∷ rest)
redacted_parts path _ = path

-- redactAlertPath
unfoldable pub redact_alert_path : String → String
unfolding join_slash
redact_alert_path path = if path == "" then path else redacted_parts path (split b'/' path)

-- roundDuration, of nanoseconds: to the nearest second, half of one upwards
unfoldable pub round_duration : ℕ → ℕ
round_duration d =
    if ltb d 1_000_000_000 then 0 else (d + 500_000_000) / 1_000_000_000 * 1_000_000_000

module _ (fmt : Formats) where
  -- formatMessage; a time before the first one gives a difference of 0, which is rounded to the same.
  unfoldable pub format_message : AlertBucket → String
  unfolding redact_alert_path round_duration
  format_message b =
      (if nat_eq b.event.status 429 then "⚠\u{fe0f}" else "🚨")
      +++ " RemnaGuard deny\n\ntoken: "
      +++ empty_dash b.event.token_id
      +++ "\nmethod: "
      +++ empty_dash b.event.method
      +++ "\npath: "
      +++ empty_dash (redact_alert_path b.event.path)
      +++ "\nroute: "
      +++ empty_dash b.event.route
      +++ "\nreason: "
      +++ empty_dash b.event.reason
      +++ "\nstatus: "
      +++ fmt.number_text b.event.status
      +++ "\n\ncount: "
      +++ fmt.number_text b.count
      +++ " in "
      +++ fmt.duration_text (round_duration (b.last - b.first))
      +++ "\nfirst: "
      +++ fmt.time_text b.first
      +++ " UTC\nlast: "
      +++ fmt.time_text b.last
      +++ " UTC"

  abbrev pub base_url_of : String → String
  base_url_of url =
      let base = trim_right (λ c. nat_eq c b'/') url in
      if base == "" then "https://api.telegram.org" else base

  -- send: the request, none where it makes none
  unfoldable pub send : AlertsConfig → AlertBucket → Option Message
  unfolding format_message
  send cfg b =
      let token = trim_space (fmt.getenv cfg.telegram.bot_token_env) in
      let chat_id = trim_space (fmt.getenv cfg.telegram.chat_id_env) in
      if not cfg.enabled || not cfg.telegram.enabled
      then none
      else if token == "" || chat_id == ""
      then none
      else some (record {
        url = base_url_of cfg.telegram.api_base_url +++ "/bot" +++ token +++ "/sendMessage";
        chat_id = chat_id;
        message_text = format_message b;
        timeout =
            if is_positive cfg.telegram.timeout then cfg.telegram.timeout else pos 5_000_000_000;
      })
