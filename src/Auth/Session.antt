-- ===== src/Auth/Session.antt =====
-- internal/auth/panel_session.go: the tokens of panel sessions. Times are nanoseconds since the Unix
-- epoch. The signature, the environment, and the encoding of claims as base64 of JSON with its inverse
-- are parameters.
use remnaguard.Prelude.{
  ℕ, ◌+◌, String, Bool, true, false, not, Option, none, some, List, [], ◌∷◌, ◌&&◌, ◌||◌,
  if◌then◌else◌, ◌==◌, ◌+++◌, ◌≡◌, refl, ap, sym, subst, ◌∙◌, Bool-cases, inl, inr, arith, eq_iff,
  has_prefix, trim_prefix, trim_space, split, ℤ, pos, negsuc, is_positive, lebℤ, sub_int,
}
use Prim.Native.Nat.{◌/◌}
use remnaguard.Config.{PanelFacadeConfig}

pub record PanelSessionClaims : Type 0 where
  pub issuer : String
  pub audience : String
  pub expires_at : ℤ
  pub issued_at : ℤ
  pub telegram_actor_id : String

-- Unix and int64(Seconds()), of times and durations that are not negative
abbrev pub unix : ℕ → ℕ
unix t = t / 1_000_000_000

abbrev pub magnitude : ℤ → ℕ
magnitude (pos n) = n
magnitude (negsuc n) = 0

-- e - i > n, for the int64 that e - i wraps around to
abbrev pub longer_by : ℕ → ℤ → ℤ → Bool
longer_by n e i = not (lebℤ (sub_int e i) (pos n))

-- The checks of ValidatePanelSession on the decoded claims.
unfoldable pub claims_hold : PanelFacadeConfig → ℕ → PanelSessionClaims → Bool
claims_hold panel now c =
    c.issuer == panel.session.issuer
    && c.audience == panel.session.audience
    && not (trim_space c.telegram_actor_id == "")
    && lebℤ c.issued_at (pos (unix (now + 60_000_000_000)))
    && not (lebℤ c.expires_at (pos (unix now)))
    && not (longer_by (unix (magnitude panel.session.token_ttl) + 60) c.expires_at c.issued_at)

abbrev pub held : PanelFacadeConfig → ℕ → Option PanelSessionClaims → Option PanelSessionClaims
held panel now none = none
held panel now (some c) = if claims_hold panel now c then some c else none

some-inj : (a b : PanelSessionClaims) → some a ≡ some b → a ≡ b
some-inj a b e = ground (arith, e)

module _ (sign : String → String → String) (encode : PanelSessionClaims → String)
    (decode : String → Option PanelSessionClaims) (getenv : String → String) where
  -- validatePanelSessionConfig, true for no error
  unfoldable pub session_config_ok : PanelFacadeConfig → Bool
  session_config_ok panel =
      panel.enabled
      && not (trim_space panel.session.issuer == "")
      && not (trim_space panel.session.audience == "")
      && is_positive panel.session.token_ttl
      && not (trim_space panel.session.secret_env == "")
      && not (trim_space (getenv panel.session.secret_env) == "")

  -- IssuePanelSession, none for an error
  unfoldable pub issue_panel_session : PanelFacadeConfig → String → ℕ → Option String
  issue_panel_session panel actor_id now =
      let id = trim_space actor_id in
      let payload = encode (record {
        issuer = panel.session.issuer;
        audience = panel.session.audience;
        expires_at = pos (unix (now + magnitude panel.session.token_ttl));
        issued_at = pos (unix now);
        telegram_actor_id = id;
      }) in
      if not (session_config_ok panel) || id == ""
      then none
      else some ("panel_" +++ payload +++ "." +++ sign payload (getenv panel.session.secret_env))

  unfoldable pub session_of_parts : PanelFacadeConfig → ℕ → List String → Option PanelSessionClaims
  session_of_parts panel now (payload ∷ signature ∷ []) =
      if payload == "" || signature == ""
      then none
      else if not (sign payload (getenv panel.session.secret_env) == signature)
      then none
      else held panel now (decode payload)
  session_of_parts panel now _ = none

  -- ValidatePanelSession, none for ErrInvalidPanelSession
  unfoldable pub validate_panel_session : PanelFacadeConfig → String → ℕ → Option PanelSessionClaims
  validate_panel_session panel token now =
      let trimmed = trim_space token in
      if not (session_config_ok panel)
      then none
      else if not (has_prefix trimmed "panel_")
      then none
      else session_of_parts panel now (split b'.' (trim_prefix trimmed "panel_"))

  -- The claims of a session token that is accepted at a time.
  pub record IsSession (panel : PanelFacadeConfig) (token : String) (now : ℕ)
      (c : PanelSessionClaims) : Type 0 where
    pub configured : session_config_ok panel ≡ true
    pub payload : String
    pub signed :
        split b'.' (trim_prefix (trim_space token) "panel_")
        ≡ payload ∷ sign payload (getenv panel.session.secret_env) ∷ []
    pub decoded : decode payload ≡ some c
    pub issuer_same : c.issuer ≡ panel.session.issuer
    pub audience_same : c.audience ≡ panel.session.audience
    pub unexpired : lebℤ c.expires_at (pos (unix now)) ≡ false
    pub not_ahead : lebℤ c.issued_at (pos (unix (now + 60_000_000_000))) ≡ true
    pub lifetime :
        lebℤ
          (sub_int c.expires_at c.issued_at)
          (pos (unix (magnitude panel.session.token_ttl) + 60))
        ≡ true

  held_lem :
      (panel : PanelFacadeConfig) (now : ℕ) (o : Option PanelSessionClaims) (c : PanelSessionClaims)
      → held panel now o ≡ some c
      → (o ≡ some c) × (claims_hold panel now c ≡ true)
  held_lem panel now none c h = absurd (ground (arith, h))
  held_lem panel now (some d) c h = elim (Bool-cases (claims_hold panel now d)) [
    | inl e ↦
        let same : d ≡ c = some-inj d c (ground (arith, h, e)) in
        (ap some same, subst (λ x. claims_hold panel now x ≡ true) same e)
    | inr e ↦ absurd (ground (arith, h, e))
  ]

  session_of_parts-IsSession :
      (panel : PanelFacadeConfig) (token : String) (now : ℕ) (parts : List String)
      (c : PanelSessionClaims)
      → session_config_ok panel ≡ true
      → split b'.' (trim_prefix (trim_space token) "panel_") ≡ parts
      → session_of_parts panel now parts ≡ some c
      → IsSession panel token now c
  unfolding session_of_parts claims_hold
  session_of_parts-IsSession panel token now (payload ∷ signature ∷ []) c ok same h =
      let secret = getenv panel.session.secret_env in
      elim (Bool-cases (sign payload secret == signature)) [
        | inl e ↦
            let (decoded, holds) = held_lem panel now (decode payload) c (ground (arith, h, e)) in
            record {
              configured = ok;
              payload = payload;
              signed = same ∙ ap (λ s. payload ∷ s ∷ []) (sym ((eq_iff _ signature).0 e));
              decoded = decoded;
              issuer_same = (eq_iff _ _).0 (ground (arith, holds));
              audience_same = (eq_iff _ _).0 (ground (arith, holds));
              unexpired = ground (arith, holds);
              not_ahead = ground (arith, holds);
              lifetime = ground (arith, holds);
            }
        | inr e ↦ absurd (ground (arith, h, e))
      ]
  session_of_parts-IsSession panel token now _ c ok same h = absurd (ground (arith, h))

  -- A panel token that ValidatePanelSession accepts carries the signature, with the configured secret, of
  -- the payload that its claims are decoded from; it has the configured issuer and audience, has not
  -- expired, was not issued more than a minute ahead, and the int64 that its end less its start
  -- wraps around to is at most a minute over the configured lifetime.
  pub validate_panel_session-IsSession :
      (panel : PanelFacadeConfig) (token : String) (now : ℕ) (c : PanelSessionClaims)
      → validate_panel_session panel token now ≡ some c
      → IsSession panel token now c
  unfolding validate_panel_session
  validate_panel_session-IsSession panel token now c h =
      session_of_parts-IsSession panel token now
        (split b'.' (trim_prefix (trim_space token) "panel_")) c (ground (arith, h)) refl
        (ground (arith, h))
