-- ===== src/Tests/Logins.antt =====
-- Bearers, panel sessions and the store of login attempts.
use remnaguard.Prelude.{
  sub_int, trim_space, cut, eq_iff, ◌≢◌, ◌==◌, ◌≤◌, String, true, false, Option, none, some, List,
  [], ◌∷◌, ◌≡◌, ◌⊎◌, refl, text_functions, arith, pos, ◌+++◌, find, store,
}
use remnaguard.Config.{Credential, find_credential}
use remnaguard.Header.{Header, header_get, header_values}
use remnaguard.Auth.Issued.{issued_claims, IsReadable, issued_accepted}
use remnaguard.Auth.Trips.{token_text, parse_bearer-token_text}
use remnaguard.Auth.Bearer.{parse_bearer, verify}
use remnaguard.Auth.Session.{
  issue_panel_session, PanelSessionClaims, validate_panel_session, session_config_ok,
  session_of_parts, claims_hold, IsSession, validate_panel_session-IsSession,
}
use remnaguard.Policy.Actor.{resolved, resolve_telegram_actor_credential}
use remnaguard.Server.Credential.{
  resolve_request_credential, authenticated, HasSecret, HasSession, resolve_request_credential_lem,
}
use remnaguard.Server.OauthStore.{
  Attempt, OauthStore, new_store, StoreCall, put_call, take_call, after_calls, take, prune, put,
  after_call,
}
use remnaguard.Server.OauthStore.Once.{taken_once}
use remnaguard.Server.OauthStore.Views.{Runs, answers, view, handed, accepted}
use remnaguard.Server.OauthStore.Refines.{new_store-Runs}
use remnaguard.Tests.Samples.{sample_config, shop, key_of}

abbrev attempt : Attempt
attempt = record { code_verifier = "v"; nonce = "n"; expires_at = 100; generation = 1 }

abbrev calls : List StoreCall
calls = put_call "a" attempt 1 ∷ put_call "b" attempt 2 ∷ put_call "c" attempt 3 ∷ []

new_store-Runs_example :
    Runs
      (pos 2)
      (λ _. none)
      calls
      (answers calls (new_store (pos 2)))
      (view (after_calls calls (new_store (pos 2))))
new_store-Runs_example = new_store-Runs (pos 2) calls

abbrev pub one_waiting : OauthStore
one_waiting = record { attempts = ("a", attempt) ∷ []; max = pos 2 }

answers_of_calls :
    answers (take_call "a" 200 ∷ put_call "a" attempt 1 ∷ []) one_waiting
    ≡ handed none ∷ accepted ∷ []
unfolding answers after_call put take prune find store
answers_of_calls = refl

attempt_taken : (take "a" 50 one_waiting).1 ≡ some attempt
unfolding take prune find
attempt_taken = refl

taken_once_example :
    (50 ≤ 100)
    × ((take "a" 60 (after_calls (take_call "b" 55 ∷ []) (take "a" 50 one_waiting).0)).1 ≡ none)
taken_once_example =
    taken_once "a" 50 60 one_waiting attempt (take_call "b" 55 ∷ []) attempt_taken (refl, tt)

abbrev claims : PanelSessionClaims
claims = record {
  issuer = "rg";
  audience = "panel";
  expires_at = pos 3600;
  issued_at = pos 0;
  telegram_actor_id = "42";
}

abbrev toy_sign : String → String → String
toy_sign payload secret = payload +++ secret

abbrev toy_encode : PanelSessionClaims → String
toy_encode c = "c"

abbrev toy_decode : String → Option PanelSessionClaims
toy_decode s = some claims

abbrev toy_env : String → String
toy_env name = "k"

session_accepted :
    validate_panel_session toy_sign toy_encode toy_decode toy_env sample_config.panel_facade
      "panel_c.ck" 1_000_000_000
    ≡ some claims
unfolding validate_panel_session session_config_ok session_of_parts claims_hold sub_int
    text_functions
session_accepted = refl

validate_panel_session-IsSession_example :
    IsSession toy_sign toy_encode toy_decode toy_env sample_config.panel_facade "panel_c.ck"
      1_000_000_000 claims
validate_panel_session-IsSession_example =
    validate_panel_session-IsSession toy_sign toy_encode toy_decode toy_env
      sample_config.panel_facade "panel_c.ck" 1_000_000_000 claims session_accepted

abbrev new_key : Credential
new_key = key_of "new" "d1" false

actor_resolved : resolve_telegram_actor_credential sample_config true " 42" ≡ resolved shop new_key
unfolding resolve_telegram_actor_credential find_credential find text_functions
actor_resolved = refl

abbrev with_bearer : Header
with_bearer = ("authorization", "Bearer rg_new.s" ∷ []) ∷ []

abbrev toy_digest : String → String → String
toy_digest secret pepper = "d1"

request_authenticated :
    resolve_request_credential toy_digest toy_sign toy_encode toy_decode toy_env sample_config true
      with_bearer 5
    ≡ authenticated shop new_key none
unfolding resolve_request_credential parse_bearer verify find_credential find header_get
    header_values text_functions
request_authenticated = refl

resolve_request_credential_lem_example :
    HasSecret toy_digest toy_sign toy_encode toy_decode toy_env sample_config with_bearer shop
      new_key
    ⊎ HasSession toy_digest toy_sign toy_encode toy_decode toy_env sample_config with_bearer 5 shop
        new_key
resolve_request_credential_lem_example =
    resolve_request_credential_lem toy_digest toy_sign toy_encode toy_decode toy_env sample_config
      true with_bearer 5 shop new_key none request_authenticated

token_trimmed : trim_space (token_text "new" "s3cret") ≡ token_text "new" "s3cret"
unfolding text_functions
token_trimmed = refl

no_dot : cut b'.' "new" ≡ none
unfolding text_functions
no_dot = refl

filled : (s : String) → (s == "") ≡ false → s ≢ ""
filled s h = ground (arith, h, eq_iff s "")

parse_bearer-token_text_example :
    parse_bearer ("Bearer " +++ token_text "new" "s3cret")
    ≡ some (record { credential_id = "new"; secret = "s3cret" })
parse_bearer-token_text_example =
    parse_bearer-token_text "new" "s3cret" (filled "new" refl) (filled "s3cret" refl) no_dot
      token_trimmed

abbrev given : PanelSessionClaims
given = issued_claims sample_config.panel_facade " 42 " 0

abbrev given_back : String → Option PanelSessionClaims
given_back s = some given

given-IsReadable : IsReadable toy_sign toy_encode given_back toy_env given "k"
unfolding text_functions
given-IsReadable = record {
  decoded = refl;
  payload = (refl, refl);
  signature = (refl, refl);
  trimmed = refl;
}

given_issued :
    issue_panel_session toy_sign toy_encode given_back toy_env sample_config.panel_facade " 42 " 0
    ≡ some "panel_c.ck"
unfolding issue_panel_session session_config_ok text_functions
given_issued = refl

id_named : (trim_space (trim_space " 42 ") == "") ≡ false
unfolding text_functions
id_named = refl

issued_accepted_example :
    validate_panel_session toy_sign toy_encode given_back toy_env sample_config.panel_facade
      "panel_c.ck" 3_000_000_000
    ≡ some given
issued_accepted_example =
    issued_accepted toy_sign toy_encode given_back toy_env sample_config.panel_facade " 42 "
      "panel_c.ck" 0 3_000_000_000 given-IsReadable given_issued id_named (omega arith)
      (omega arith)
