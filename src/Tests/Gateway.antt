-- ===== src/Tests/Gateway.antt =====
-- A gateway in front of an upstream that answers every request with one user.
use remnaguard.Prelude.{String, true, Option, none, some, [], ◌∷◌, pos, if◌then◌else◌, ◌==◌}
use remnaguard.Json.{Json, text, array, object, Fields, no_items, item, no_fields, field}
use remnaguard.Proxy.{Response, answered}
use remnaguard.Routes.{Route, policy_enforced}
use remnaguard.Server.Env.{Env}
use remnaguard.Server.Request.{Request, body_text}
use remnaguard.Server.OauthStore.{OauthStore, new_store}
use remnaguard.Server.Handler.World.{World, RuntimeState, LoginReply, login_page}
use remnaguard.RateLimit.{new_per_key}
use remnaguard.Config.{Config}
use remnaguard.Routes.{Route}
use remnaguard.Tests.Samples.{sample_config}
use remnaguard.Tests.Owners.{body, any_regex, no_number}
use remnaguard.Tests.Access.{update}

-- What a change of the user says.
abbrev pub change : Fields
change = field "uuid" (text "u1") (field "username" (text "shop_bob") no_fields)

-- The users of a list.
abbrev users : Json
users = object (
    field "response"
      (object (field "users" (array (item body (item (text "other") no_items))) no_fields))
      no_fields)

-- The text "U" spells the user, "L" the list and "C" the change.
abbrev pub value_of : String → Option Json
value_of s =
    if s == "U"
    then some body
    else if s == "L"
    then some users
    else if s == "C"
    then some (object change)
    else none

abbrev a_response : Response
a_response = record { status_code = 200; header = []; body = "U" }

abbrev pub env : Env
env = record {
  now = 1;
  path_unescape = λ s. some s;
  query_parses = λ s. true;
  parse_query = λ s. some [];
  encode_query = λ q. "";
  digest = λ secret pepper. "d1";
  sign = λ key s. s;
  encode_claims = λ c. "";
  decode_claims = λ s. none;
  getenv = λ name. "";
  matches_regex = any_regex;
  number_int = no_number;
  scan_int = no_number;
  media_type = λ s. some s;
  first_value = value_of;
  whole_value = value_of;
  decoded_value = value_of;
  write_json = λ v. "U";
  itoa = λ n. "0";
  escaped_path = λ s. s;
  base_path = "";
  send = λ sent request. answered a_response;
}

abbrev pub state : RuntimeState
state = record {
  cfg = sample_config;
  has_actors = true;
  version_ok = true;
  proxy = record { cfg = sample_config; bearer = "b"; public_auth = ""; public_auth_name = "" };
  generation = 1;
}

abbrev pub world : World
world = record {
  limits = record {
    global = record { size = 2; held = 0 };
    per_token = new_per_key (pos 1);
    per_sub_ip = new_per_key (pos 1);
    token_rate = none;
    sub_rate = none;
  };
  oauth = new_store (pos 8);
  sent = [];
  locks = [];
}

abbrev pub change_request : Request
change_request = record {
  raw = record {
    proto_major = 1;
    method = "PATCH";
    host = "guard";
    request_uri = "/api/users";
    header = ("content-type", "application/json" ∷ []) ∷ [];
  };
  body = body_text "C";
  content_length = pos 1;
  cached = some "C";
  audit = none;
  remote = "10.0.0.1:5";
}

abbrev pub open_update : Route
open_update = record update { support = policy_enforced }

abbrev pub no_login : Config → Route → String → Request → OauthStore → OauthStore × LoginReply
no_login cfg route path r store = (store, login_page 404 "")
