-- ===== src/Server/Runtime.antt =====
-- internal/server/server.go: the Runtime between requests: NewRuntime, Reload, the end of a detectVersion, and the
-- pages of localHandler. Go's pointer to a runtimeState is its generation.
pub mod Guarded
use remnaguard.Prelude.{
  ℕ, suc, ◌+◌, ◌%◌, String, Bool, true, false, not, Option, none, some, List, [], ◌∷◌, ◌&&◌, ◌||◌,
  if◌then◌else◌, ◌==◌, nat_eq, pos,
}
use Prim.Native.Nat.{◌^◌}
use remnaguard.Config.{Config}
use remnaguard.Config.Parts.{System}
use remnaguard.RateLimit.{FixedWindow, new_semaphore, new_per_key}
use remnaguard.RateLimit.Rate.{RateResult, new_fixed_window}
use remnaguard.RateLimit.Rate
use remnaguard.Alerts.Manager.{Manager, new_manager, update}
use remnaguard.Proxy.Validated.{new_proxy}
use remnaguard.Server.OauthStore.{OauthStore, new_store, clear}
use remnaguard.Server.Request.{Outcome, ok, err}
use remnaguard.Server.VersionGuard.{detect_version}
use remnaguard.Server.Handler.World.{LimitState, RuntimeState}

pub record Runtime : Type 0 where
  pub state : RuntimeState
  pub limits : LimitState
  pub oauth : OauthStore
  pub alerts : Manager
  pub next_gen : ℕ

pub data RuntimeMove : Type 0 where
  reload_move : Config → RuntimeMove
  detect_move : ℕ → Option String → RuntimeMove

-- `sys` is the system; `tls_error` and `audit_error` are the errors of the TLS files and of the audit log, and
-- `has_actors` is whether the map of the panel's actors is not nil.
pub record Startup : Type 0 where
  pub sys : System
  pub tls_error : Config → Option String
  pub audit_error : Config → Option String
  pub has_actors : Config → Bool

module _ (up : Startup) where
  abbrev pub limits_of :
      Config
      → RateResult (Option FixedWindow)
      → RateResult (Option FixedWindow)
      → Outcome LimitState
  limits_of cfg (Rate.err e) sub = err "invalid rate"
  limits_of cfg (Rate.ok token) (Rate.err e) = err "invalid rate"
  limits_of cfg (Rate.ok token) (Rate.ok sub) = ok (record {
    global = new_semaphore cfg.limits.global_concurrency;
    per_token = new_per_key cfg.limits.per_token_concurrency;
    per_sub_ip = new_per_key cfg.public_subs.per_ip_concurrency;
    token_rate = token;
    sub_rate = sub;
  })

  -- newLimitState
  unfoldable pub new_limit_state : Config → Outcome LimitState
  unfolding new_semaphore
  new_limit_state cfg =
      limits_of cfg (new_fixed_window up.sys.parse_duration cfg.limits.default_rate)
        (new_fixed_window up.sys.parse_duration cfg.public_subs.per_ip_rate)

  abbrev pub state_of :
      Config → ℕ → Option String → Outcome LimitState → Outcome (RuntimeState × LimitState)
  state_of cfg generation tls (err e) = err e
  state_of cfg generation (some e) (ok limits) = err e
  state_of cfg generation none (ok limits) = ok (
    record {
      cfg = cfg;
      has_actors = up.has_actors cfg;
      version_ok = not (cfg.compatibility.assume_version == "");
      proxy = new_proxy up.sys cfg;
      generation = generation;
    },
    limits,
  )

  -- newRuntimeState
  unfoldable pub new_runtime_state : Config → ℕ → Outcome (RuntimeState × LimitState)
  unfolding new_limit_state
  new_runtime_state cfg generation =
      state_of cfg generation (up.tls_error cfg) (new_limit_state cfg)

  abbrev pub runtime_of :
      Option String → Outcome (RuntimeState × LimitState) → Option Manager → Outcome Runtime
  runtime_of (some e) made alerts = err e
  runtime_of none (err e) alerts = err e
  runtime_of none (ok made) none = err "panic: makechan: size out of range"
  runtime_of none (ok (state, limits)) (some alerts) = ok (record {
    state = state;
    limits = limits;
    oauth = new_store (pos 1024);
    alerts = alerts;
    next_gen = 1;
  })

  -- NewRuntime
  unfoldable pub new_runtime : Config → Outcome Runtime
  unfolding new_runtime_state new_manager
  new_runtime cfg =
      runtime_of (up.audit_error cfg) (new_runtime_state cfg 1) (new_manager cfg.alerts)

  -- nextGen.Add(1), of a uint64
  abbrev pub next_of : ℕ → ℕ
  next_of generation = suc generation % 2 ^ 64

  abbrev pub reloaded :
      Config → Runtime → Outcome (RuntimeState × LimitState) → Runtime × Option String
  reloaded cfg r (err e) = (record r { next_gen = next_of r.next_gen }, some e)
  reloaded cfg r (ok (state, limits)) = (
    record {
      state = state;
      limits = limits;
      oauth = clear r.oauth;
      alerts = update cfg.alerts r.alerts;
      next_gen = next_of r.next_gen;
    },
    none,
  )

  -- Reload
  unfoldable pub reload : Config → Runtime → Runtime × Option String
  unfolding new_runtime_state clear update
  reload cfg r = reloaded cfg r (new_runtime_state cfg (next_of r.next_gen))

  -- The end of a detectVersion that was started for the state of a generation: it changes that state, which may
  -- no longer be the current one.
  unfoldable pub detected : ℕ → Option String → Runtime → Runtime
  unfolding detect_version
  detected generation got r =
      if nat_eq r.state.generation generation
      then record r {
        state = record r.state { version_ok = detect_version r.state.cfg r.state.version_ok got };
      }
      else r

  unfoldable pub after_move : RuntimeMove → Runtime → Runtime
  unfolding reload detected
  after_move (reload_move cfg) r = (reload cfg r).0
  after_move (detect_move generation got) r = detected generation got r

  unfoldable pub after_moves : List RuntimeMove → Runtime → Runtime
  unfolding after_move
  after_moves [] r = r
  after_moves (m ∷ ms) r = after_moves ms (after_move m r)

-- The pages of localHandler: the status of /readyz, and whether /metrics is there
unfoldable pub readyz_status : Runtime → ℕ
readyz_status r = if not r.state.version_ok then 503 else 200

unfoldable pub metrics_shown : Runtime → Bool
metrics_shown r = r.state.cfg.metrics.enabled
