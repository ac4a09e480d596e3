-- ===== src/Tests/Runtimes.antt =====
-- A runtime that starts, finds the upstream's version, and is reloaded.
use remnaguard.Prelude.{
  true, false, not, none, some, List, [], ◌∷◌, ◌≡◌, ◌≢◌, ◌⊎◌, refl, any, pos, ◌==◌, text_functions,
  atoi, digits, decimal,
}
use remnaguard.RateLimit.{new_semaphore, new_per_key}
use remnaguard.RateLimit.Rate.{
  new_fixed_window, parse_rate, rate_of_parts, rate_of_count, rate_window,
}
use remnaguard.Alerts.Manager.{new_manager}
use remnaguard.Proxy.Validated.{new_proxy}
use remnaguard.Server.OauthStore.{new_store}
use remnaguard.Server.Request.{ok}
use remnaguard.Server.VersionGuard.{detect_version, is_write_unsafe_mismatch}
use remnaguard.Server.Runtime.{
  Runtime, Startup, new_limit_state, new_runtime_state, new_runtime, reload, detected, RuntimeMove,
  detect_move, after_move, after_moves,
}
use remnaguard.Server.Runtime.Guarded.{is_report, guard_open, reload_valid}
use remnaguard.Tests.Setup.{host_system, off_panel, accepted}

abbrev startup : Startup
startup = record {
  sys = host_system;
  tls_error = λ cfg. none;
  audit_error = λ cfg. none;
  has_actors = λ cfg. false;
}

abbrev fresh : Runtime
fresh = record {
  state = record {
    cfg = off_panel;
    has_actors = false;
    version_ok = false;
    proxy = new_proxy host_system off_panel;
    generation = 1;
  };
  limits = record {
    global = new_semaphore (pos 128);
    per_token = new_per_key (pos 8);
    per_sub_ip = new_per_key (pos 8);
    token_rate = some (record { limit = 600; window = pos 60_000_000_000; buckets = [] });
    sub_rate = some (record { limit = 120; window = pos 60_000_000_000; buckets = [] });
  };
  oauth = new_store (pos 1024);
  alerts = record {
    cfg = off_panel.alerts;
    queue = [];
    queue_size = 100;
    buckets = [];
    stopped = false;
  };
  next_gen = 1;
}

starts : new_runtime startup off_panel ≡ ok fresh
unfolding new_runtime new_runtime_state new_limit_state new_manager new_fixed_window parse_rate
    rate_of_parts rate_of_count rate_window text_functions atoi digits decimal
starts = refl

abbrev found : List RuntimeMove
found = detect_move 1 (some "2.8.0") ∷ detect_move 1 (some "2.8.1") ∷ detect_move 7 (some "") ∷ []

opens : (after_moves startup found fresh).state.version_ok ≡ true
unfolding after_moves after_move detected detect_version is_write_unsafe_mismatch
opens = refl

guard_open_example :
    ((after_moves startup found fresh).state.cfg.compatibility.assume_version ≢ "")
    ⊎ (any
          (is_report
            (after_moves startup found fresh).state.generation
            (after_moves startup found fresh).state.cfg.compatibility.remnawave_version)
          found
        ≡ true)
guard_open_example = guard_open startup off_panel fresh found starts opens

reload_valid_example :
    ((reload startup off_panel fresh).1 ≡ none)
    × ((reload startup off_panel fresh).0.state.cfg ≡ off_panel)
    × ((reload startup off_panel fresh).0.oauth.attempts ≡ [])
    × ((reload startup off_panel fresh).0.state.version_ok
        ≡ not (off_panel.compatibility.assume_version == ""))
reload_valid_example = reload_valid startup off_panel fresh accepted refl
