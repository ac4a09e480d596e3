-- ===== src/Server/Runtime/Guarded.antt =====
-- internal/server/server.go: when the version guard of a Runtime is open, and that it can be reloaded with a
-- configuration that Validate accepts.
use remnaguard.Prelude.{
  ℕ, String, Bool, true, false, not, Option, none, some, List, [], ◌∷◌, ◌++◌, ◌&&◌, ◌||◌, ◌==◌, ◌≡◌,
  ◌≢◌, ◌⊎◌, inl, inr, refl, ap, sym, ◌∙◌, arith, eq_iff, any, nat_eq, Bool-cases, subst,
}
use remnaguard.Config.{Config}
use remnaguard.Config.Parts.{rate_error}
use remnaguard.Config.Validate.{validate, validate_checks, limits_error, limits_checks}
use remnaguard.Config.Valid.{passed}
use remnaguard.RateLimit.{FixedWindow}
use remnaguard.RateLimit.Rate.{RateResult, new_fixed_window}
use remnaguard.RateLimit.Rate
use remnaguard.Alerts.Manager.{Manager, new_manager}
use remnaguard.Server.Request.{Outcome, ok, err}
use remnaguard.Server.VersionGuard.{detect_version, is_write_unsafe_mismatch}
use remnaguard.Server.Handler.World.{LimitState, RuntimeState}
use remnaguard.Server.Runtime.{
  Runtime, Startup, limits_of, new_limit_state, state_of, new_runtime_state, runtime_of,
  new_runtime, next_of, reloaded, reload, detected, RuntimeMove, reload_move, detect_move,
  after_move, after_moves,
}

-- Whether a move is the end of a detection, for the state of the generation, that found the version.
abbrev pub is_report : ℕ → String → RuntimeMove → Bool
is_report generation version (detect_move g (some got)) =
    nat_eq generation g && got == version && not (got == "")
is_report generation version _ = false

abbrev is_guarded : List RuntimeMove → RuntimeState → Bool
is_guarded seen st =
    not st.version_ok
    || not (st.cfg.compatibility.assume_version == "")
    || any (is_report st.generation st.cfg.compatibility.remnawave_version) seen

any-append :
    (p : RuntimeMove → Bool) (xs ys : List RuntimeMove) → any p (xs ++ ys) ≡ (any p xs || any p ys)
any-append p [] ys = refl
any-append p (x ∷ xs) ys = ground (arith, any-append p xs ys)

guarded_move :
    (m : RuntimeMove) (ms seen : List RuntimeMove) (st : RuntimeState)
    → is_guarded (ms ++ (m ∷ seen)) st ≡ true
    → is_guarded (m ∷ (ms ++ seen)) st ≡ true
guarded_move m ms seen st h =
    let p = is_report st.generation st.cfg.compatibility.remnawave_version in
    let both : any p (ms ++ (m ∷ seen)) ≡ any p (m ∷ (ms ++ seen)) =
      any-append p ms (m ∷ seen)
      ∙ swapped (any p ms) (p m) (any p seen)
      ∙ ap (λ b. p m || b) (sym (any-append p ms seen)) in
    subst (λ b. (not st.version_ok || not (st.cfg.compatibility.assume_version == "") || b) ≡ true)
      both h
  where
    swapped : (a b c : Bool) → (a || (b || c)) ≡ (b || (a || c))
    swapped a b c = ground arith

module _ (up : Startup) where
  state_of-guarded :
      (cfg : Config) (generation : ℕ) (tls : Option String) (o : Outcome LimitState)
      (st : RuntimeState) (limits : LimitState) (seen : List RuntimeMove)
      → state_of up cfg generation tls o ≡ ok (st, limits)
      → is_guarded seen st ≡ true
  state_of-guarded cfg generation tls (err e) st limits seen h = absurd (ground (arith, h))
  state_of-guarded cfg generation (some e) (ok l) st limits seen h = absurd (ground (arith, h))
  state_of-guarded cfg generation none (ok l) st limits seen h = ground (arith, h)

  reloaded-guarded :
      (cfg : Config) (r : Runtime) (o : Outcome (RuntimeState × LimitState))
      (seen : List RuntimeMove)
      → new_runtime_state up cfg (next_of up r.next_gen) ≡ o
      → is_guarded seen r.state ≡ true
      → is_guarded (reload_move cfg ∷ seen) (reloaded up cfg r o).0.state ≡ true
  unfolding new_runtime_state
  reloaded-guarded cfg r (err e) seen same h = h
  reloaded-guarded cfg r (ok (st, limits)) seen same h =
      state_of-guarded cfg _ (up.tls_error cfg) (new_limit_state up cfg) st limits
        (reload_move cfg ∷ seen) same

  detected-guarded :
      (generation : ℕ) (o : Option String) (r : Runtime) (seen : List RuntimeMove)
      → is_guarded seen r.state ≡ true
      → is_guarded (detect_move generation o ∷ seen) (detected up generation o r).state ≡ true
  unfolding detected detect_version is_write_unsafe_mismatch
  detected-guarded generation none r seen h = ground (arith, h)
  detected-guarded generation (some got) r seen h = ground (arith, h)

  after_moves-guarded :
      (ms seen : List RuntimeMove) (r : Runtime)
      → is_guarded seen r.state ≡ true
      → is_guarded (ms ++ seen) (after_moves up ms r).state ≡ true
  unfolding after_moves after_move reload
  after_moves-guarded [] seen r h = h
  after_moves-guarded (reload_move cfg ∷ ms) seen r h =
      let o = new_runtime_state up cfg (next_of up r.next_gen) in
      let next = reloaded-guarded cfg r o seen refl h in
      let rest = after_moves-guarded ms (reload_move cfg ∷ seen) (reload up cfg r).0 next in
      guarded_move (reload_move cfg) ms seen (after_moves up ms (reload up cfg r).0).state rest
  after_moves-guarded (detect_move generation got ∷ ms) seen r h =
      let next = detected-guarded generation got r seen h in
      let rest =
        after_moves-guarded ms (detect_move generation got ∷ seen) (detected up generation got r)
          next in
      guarded_move (detect_move generation got) ms seen
        (after_moves up ms (detected up generation got r)).state rest

  runtime_of-guarded :
      (cfg : Config) (r : Runtime) (e : Option String) (o : Outcome (RuntimeState × LimitState))
      (alerts : Option Manager)
      → new_runtime_state up cfg 1 ≡ o
      → runtime_of up e o alerts ≡ ok r
      → is_guarded [] r.state ≡ true
  unfolding new_runtime_state
  runtime_of-guarded cfg r (some e) o alerts same h = absurd (ground (arith, h))
  runtime_of-guarded cfg r none (err e) alerts same h = absurd (ground (arith, h))
  runtime_of-guarded cfg r none (ok made) none same h = absurd (ground (arith, h))
  runtime_of-guarded cfg r none (ok (st, limits)) (some alerts) same h =
      let first =
        state_of-guarded cfg 1 (up.tls_error cfg) (new_limit_state up cfg) st limits [] same in
      let is_state : st ≡ r.state = ground (arith, h) in
      subst (λ x. is_guarded [] x ≡ true) is_state first

  -- Whatever configurations are loaded, and whatever the detections find, also those that end after a reload: if the
  -- version guard is open, the configuration assumes a version, or a detection for its own state has
  -- found the version that it names.
  pub guard_open :
      (cfg : Config) (r : Runtime) (ms : List RuntimeMove)
      → new_runtime up cfg ≡ ok r
      → (after_moves up ms r).state.version_ok ≡ true
      → ((after_moves up ms r).state.cfg.compatibility.assume_version ≢ "")
        ⊎ (any
              (is_report
                (after_moves up ms r).state.generation
                (after_moves up ms r).state.cfg.compatibility.remnawave_version)
              ms
            ≡ true)
  unfolding new_runtime
  guard_open cfg r ms made open_now =
      let last = (after_moves up ms r).state in
      let h = after_moves-guarded ms [] r (
        runtime_of-guarded cfg r (up.audit_error cfg) (new_runtime_state up cfg 1)
          (new_manager cfg.alerts) refl made) in
      let p = is_report last.generation last.cfg.compatibility.remnawave_version in
      elim (Bool-cases (last.cfg.compatibility.assume_version == "")) [
        | inl e ↦ inr (ground (arith, h, open_now, e, any-append p ms []))
        | inr e ↦
            inl (λ blank.
              ground (arith, e, (eq_iff last.cfg.compatibility.assume_version "").1 blank))
      ]

  limits_of-made :
      (cfg : Config) (token sub : RateResult (Option FixedWindow))
      → rate_error token ≡ none
      → rate_error sub ≡ none
      → (l : LimitState) × (limits_of up cfg token sub ≡ ok l)
  limits_of-made cfg (Rate.err e) sub h k = absurd (ground (arith, h))
  limits_of-made cfg (Rate.ok token) (Rate.err e) h k = absurd (ground (arith, k))
  limits_of-made cfg (Rate.ok token) (Rate.ok sub) h k = (_, refl)

  -- Reload with a configuration that Validate accepts, and whose TLS files load, gives no error: the configuration is
  -- the current one, no login attempt waits, and the guard is open exactly if a version is assumed.
  pub reload_valid :
      (cfg : Config) (r : Runtime)
      → validate up.sys cfg ≡ none
      → up.tls_error cfg ≡ none
      → ((reload up cfg r).1 ≡ none)
        × ((reload up cfg r).0.state.cfg ≡ cfg)
        × ((reload up cfg r).0.oauth.attempts ≡ [])
        × ((reload up cfg r).0.state.version_ok ≡ not (cfg.compatibility.assume_version == ""))
  unfolding validate limits_error reload new_runtime_state new_limit_state
  reload_valid cfg r valid tls =
      let limits = passed 6 (validate_checks up.sys cfg) valid in
      let rate = λ (n : ℕ). passed n (limits_checks up.sys cfg) limits in
      let (l, made) =
        limits_of-made cfg (new_fixed_window up.sys.parse_duration cfg.limits.default_rate)
          (new_fixed_window up.sys.parse_duration cfg.public_subs.per_ip_rate) (rate 7) (rate 8) in
      rw (made, tls) (refl, refl, refl, refl)
