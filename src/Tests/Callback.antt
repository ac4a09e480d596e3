-- ===== src/Tests/Callback.antt =====
-- The callback of a login.
use remnaguard.Prelude.{
  ℕ, String, true, Option, none, some, List, [], ◌∷◌, ◌≡◌, refl, pos, if◌then◌else◌, ◌==◌,
  text_functions, find, without, atoi,
}
use remnaguard.Config.{find_credential}
use remnaguard.Json.{Json, number, text, array, object, no_items, item, no_fields, field}
use remnaguard.Json.Unmarshal.{unmarshal_string}
use remnaguard.Auth.Session.{issue_panel_session, session_config_ok}
use remnaguard.Policy.Actor.{resolve_telegram_actor_credential}
use remnaguard.Server.Env.{Env}
use remnaguard.Server.OauthStore.{OauthStore, take, prune}
use remnaguard.Server.Request.{Request, body_text}
use remnaguard.Server.Handler.World.{login_session}
use remnaguard.Server.Login.Members.{members_of, text_member, int_member, raw_member}
use remnaguard.Server.Login.Keys.{
  LoginEnv, audience_contains, telegram_id_claim_string, exponent_of, rsa_public_key_from_jwk,
  keys_in, find_jwk, fetch_telegram_jwk,
}
use remnaguard.Server.Login.IdToken.{id_claims_hold, telegram_actor_id_from_id_token}
use remnaguard.Server.Login.Handlers.{exchange_telegram_oauth_code, handle_panel_oauth2_callback}
use remnaguard.Server.Login.LoggedIn.{IsLoggedIn, handle_panel_oauth2_callback-IsLoggedIn}
use remnaguard.Tests.Gateway.{env, state, change_request, open_update}
use remnaguard.Tests.Logins.{one_waiting}

abbrev callback_body : Json
callback_body = object (
    field "provider" (text "telegram")
      (field "code" (text "c") (field "state" (text "a") no_fields)))

abbrev key_set : Json
key_set = object (
    field "keys"
      (array (
        item
          (object (
            field "kty" (text "RSA") (
              field "kid" (text "k1") (
                field "alg" (text "RS256")
                  (field "n" (text "n") (field "e" (text "e") no_fields))))))
          no_items))
      no_fields)

abbrev header_part : Json
header_part = object (field "alg" (text "RS256") (field "kid" (text "k1") no_fields))

abbrev claims_part : Json
claims_part = object (
    field "iss" (text "https://oauth.telegram.org") (
      field "aud" (text "k")
        (field "exp" (number "9") (field "nonce" (text "n") (field "id" (text "42") no_fields)))))

abbrev login_value : String → Option Json
login_value s =
    if s == "B"
    then some callback_body
    else if s == "T"
    then some (object (field "id_token" (text "h.p.s") no_fields))
    else if s == "K"
    then some key_set
    else none

abbrev part_bytes : String → Option (List ℕ)
part_bytes s = if s == "h" then some [] else some (3 ∷ [])

abbrev part_text : List ℕ → Option Json
part_text [] = some header_part
part_text (b ∷ bytes) = some claims_part

abbrev telegram : LoginEnv
telegram = record {
  now = 50;
  getenv = λ name. "k";
  random_token = λ draw n. none;
  decode_base64 = part_bytes;
  text_of = part_text;
  first_value = login_value;
  post_code = λ form. some (200, "T");
  get_keys = some (200, "K");
  verify_rs256 = λ n e signed signature. true;
  itoa = λ n. "0";
  cookie = λ name. some "a";
}

abbrev login_env : Env
login_env = record env {
  getenv = λ name. "k";
  first_value = login_value;
  encode_claims = λ c. "claims";
}

abbrev callback_request : Request
callback_request = record change_request { body = body_text "B" }

abbrev spent : OauthStore
spent = record { attempts = []; max = pos 2 }

logged_in :
    handle_panel_oauth2_callback login_env telegram state callback_request open_update one_waiting
    ≡ (spent, login_session "panel_claims.k")
unfolding handle_panel_oauth2_callback exchange_telegram_oauth_code telegram_actor_id_from_id_token
    id_claims_hold fetch_telegram_jwk find_jwk keys_in rsa_public_key_from_jwk exponent_of
    telegram_id_claim_string audience_contains members_of text_member int_member raw_member take
    prune find without unmarshal_string text_functions resolve_telegram_actor_credential
    find_credential issue_panel_session session_config_ok atoi
logged_in = refl

handle_panel_oauth2_callback-IsLoggedIn_example :
    IsLoggedIn login_env telegram state one_waiting spent "panel_claims.k"
handle_panel_oauth2_callback-IsLoggedIn_example =
    handle_panel_oauth2_callback-IsLoggedIn login_env telegram state callback_request open_update
      one_waiting spent "panel_claims.k" logged_in
