-- ===== src/Alerts/Redacted.antt =====
-- internal/alerts/alerts.go: a message does not tell the short UUID of a subscription.
use remnaguard.Prelude.{
  String, Bool, true, false, List, ◌∷◌, if◌then◌else◌, ◌==◌, ◌≡◌, ◌≢◌, refl, ap, sym, ◌∙◌, arith,
  eq_iff, split, Bool-cases, inl, inr, text_functions,
}
use remnaguard.Config.{AlertsConfig}
use remnaguard.Alerts.Defs.{AlertBucket}
use remnaguard.Alerts.Message.{
  Formats, join_slash, redacted_parts, redact_alert_path, format_message, send,
}

-- The path of a public subscription: /api/sub/ and a short UUID, which is not empty.
pub record IsSubPath (path id : String) (rest : List String) : Type 0 where
  pub parts : split b'/' path ≡ "" ∷ "api" ∷ "sub" ∷ id ∷ rest
  pub named : id ≢ ""

abbrev fourth : List String → Bool
fourth (a ∷ b ∷ c ∷ d ∷ rest) = true
fourth _ = false

blank_parts : fourth (split b'/' "") ≡ false
unfolding text_functions
blank_parts = refl

redact_alert_path-sub :
    (path id : String) (rest : List String)
    → IsSubPath path id rest
    → redact_alert_path path ≡ join_slash ("" ∷ "api" ∷ "sub" ∷ "<redacted>" ∷ rest)
unfolding redact_alert_path
redact_alert_path-sub path id rest h = elim (Bool-cases (path == "")) [
  | inl e ↦ absurd (
      ground (
        arith,
        ap fourth h.parts,
        ap (λ p. fourth (split b'/' p)) ((eq_iff path "").0 e),
        blank_parts,
      ))
  | inr e ↦
      ap (λ b. if b then path else redacted_parts path (split b'/' path)) e
      ∙ ap (redacted_parts path) h.parts
      ∙ ground (arith, eq_iff id "", h.named)
]

abbrev pub with_path : String → AlertBucket → AlertBucket
with_path path b = record b { event = record b.event { path = path } }

-- Two public subscriptions that differ in their short UUID alone are reported by the same request to Telegram.
pub send_redacted :
    (fmt : Formats) (cfg : AlertsConfig) (b : AlertBucket) (p q id other : String)
    (rest : List String)
    → IsSubPath p id rest
    → IsSubPath q other rest
    → send fmt cfg (with_path p b) ≡ send fmt cfg (with_path q b)
unfolding send format_message
send_redacted fmt cfg b p q id other rest h k =
    let same : redact_alert_path p ≡ redact_alert_path q =
      redact_alert_path-sub p id rest h ∙ sym (redact_alert_path-sub q other rest k) in
    rw same refl
