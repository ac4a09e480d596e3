-- ===== src/Auth/Issued.antt =====
-- internal/auth/panel_session.go: the tokens that IssuePanelSession makes are accepted.
use remnaguard.Prelude.{
  ℕ, ◌+◌, ◌≤◌, ◌<◌, String, true, false, Option, none, some, [], ◌∷◌, ◌≡◌, ◌==◌, ◌+++◌, ap, ◌∙◌,
  subst, arith, eq_refl, cut, split, trim_space, pos, sub_int_le,
}
use remnaguard.Config.{PanelFacadeConfig}
use remnaguard.Auth.Session.{
  PanelSessionClaims, unix, magnitude, claims_hold, held, session_config_ok, issue_panel_session,
  session_of_parts, validate_panel_session,
}
use remnaguard.Auth.Trips.{has_prefix-append, trim_prefix-append, split-joined}

unix_mono : (a b : ℕ) → a ≤ b → unix a ≤ unix b
unix_mono a b h = omega (arith, h)

unix_add : (a b : ℕ) → unix (a + b) ≤ unix a + unix b + 60
unix_add a b = omega arith

abbrev pub issued_claims : PanelFacadeConfig → String → ℕ → PanelSessionClaims
issued_claims panel actor_id now = record {
  issuer = panel.session.issuer;
  audience = panel.session.audience;
  expires_at = pos (unix (now + magnitude panel.session.token_ttl));
  issued_at = pos (unix now);
  telegram_actor_id = trim_space actor_id;
}

issued_hold :
    (panel : PanelFacadeConfig) (actor_id : String) (now later : ℕ)
    → (trim_space (trim_space actor_id) == "") ≡ false
    → now ≤ later
    → unix later < unix (now + magnitude panel.session.token_ttl)
    → claims_hold panel later (issued_claims panel actor_id now) ≡ true
unfolding claims_hold
issued_hold panel actor_id now later named h live = ground (
  arith,
  eq_refl panel.session.issuer,
  eq_refl panel.session.audience,
  named,
  live,
  unix_mono now (later + 60_000_000_000) (omega (arith, h)),
  sub_int_le (unix (now + magnitude panel.session.token_ttl)) (unix now)
      (unix (magnitude panel.session.token_ttl) + 60)
      (unix_mono now (now + magnitude panel.session.token_ttl) (omega arith))
      (omega (arith, unix_add now (magnitude panel.session.token_ttl))),
)

string_inj : (s t : String) → some s ≡ some t → s ≡ t
string_inj s t e = ap (λ o. or_else s o) e
  where
    or_else : String → Option String → String
    or_else d none = d
    or_else d (some x) = x

-- A text of a base64 alphabet: not blank, and without a dot.
abbrev pub IsPlainText : String → Type 0
IsPlainText s = ((s == "") ≡ false) × (cut b'.' s ≡ none)

abbrev pub session_text : String → String → String
session_text payload signature = "panel_" +++ (payload +++ ("." +++ signature))

module _ (sign : String → String → String) (encode : PanelSessionClaims → String)
    (decode : String → Option PanelSessionClaims) (getenv : String → String) where
  abbrev text_of : PanelFacadeConfig → PanelSessionClaims → String
  text_of panel c = session_text (encode c) (sign (encode c) (getenv panel.session.secret_env))

  -- The encoding of some claims, and their signature with a secret, are read back.
  pub record IsReadable (c : PanelSessionClaims) (secret : String) : Type 0 where
    pub decoded : decode (encode c) ≡ some c
    pub payload : IsPlainText (encode c)
    pub signature : IsPlainText (sign (encode c) secret)
    pub trimmed :
        trim_space (session_text (encode c) (sign (encode c) secret))
        ≡ session_text (encode c) (sign (encode c) secret)

  parts_accepted :
      (panel : PanelFacadeConfig) (c : PanelSessionClaims) (later : ℕ)
      → IsReadable c (getenv panel.session.secret_env)
      → claims_hold panel later c ≡ true
      → session_of_parts sign encode decode getenv panel later
          (encode c ∷ sign (encode c) (getenv panel.session.secret_env) ∷ [])
        ≡ some c
  unfolding session_of_parts
  parts_accepted panel c later good h =
      let secret = getenv panel.session.secret_env in
      let held_claims : held panel later (decode (encode c)) ≡ some c =
        ap (held panel later) (good.decoded) ∙ ground (arith, h) in
      ground
        (arith, good.payload.0, good.signature.0, eq_refl (sign (encode c) secret), held_claims)

  text_accepted :
      (panel : PanelFacadeConfig) (c : PanelSessionClaims) (later : ℕ)
      → IsReadable c (getenv panel.session.secret_env)
      → session_config_ok sign encode decode getenv panel ≡ true
      → claims_hold panel later c ≡ true
      → validate_panel_session sign encode decode getenv panel (text_of panel c) later ≡ some c
  unfolding validate_panel_session
  text_accepted panel c later good ok h =
      let secret = getenv panel.session.secret_env in
      let rest = encode c +++ ("." +++ sign (encode c) secret) in
      let parts =
        ap (split b'.') (trim_prefix-append "panel_" rest)
        ∙ split-joined (encode c) (sign (encode c) secret) good.payload.1 good.signature.1 in
      let whole =
        ap (session_of_parts sign encode decode getenv panel later) parts
        ∙ parts_accepted panel c later good h in
      rw good.trimmed (rw ok (rw (has_prefix-append "panel_" rest) whole))

  -- A token that IssuePanelSession makes for an actor is accepted by ValidatePanelSession from then on until its
  -- lifetime is over, to the second, and gives the claims back: the actor's id without white space
  -- around it and the end of the lifetime. The conditions are that the encoding of these claims
  -- decodes to them, that it and the signature are not blank and have no dot, that the token has no
  -- white space at its ends, and that trimming the id once more leaves it not blank.
  pub issued_accepted :
      (panel : PanelFacadeConfig) (actor_id token : String) (now later : ℕ)
      → IsReadable (issued_claims panel actor_id now) (getenv panel.session.secret_env)
      → issue_panel_session sign encode decode getenv panel actor_id now ≡ some token
      → (trim_space (trim_space actor_id) == "") ≡ false
      → now ≤ later
      → unix later < unix (now + magnitude panel.session.token_ttl)
      → validate_panel_session sign encode decode getenv panel token later
        ≡ some (issued_claims panel actor_id now)
  unfolding issue_panel_session
  issued_accepted panel actor_id token now later good issued named h live =
      let c = issued_claims panel actor_id now in
      let same : text_of panel c ≡ token =
        string_inj (text_of panel c) token (ground (arith, issued)) in
      subst (λ t. validate_panel_session sign encode decode getenv panel t later ≡ some c) same
        (text_accepted panel c later good (ground (arith, issued))
          (issued_hold panel actor_id now later named h live))
