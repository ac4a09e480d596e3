-- ===== src/Tests/TokenFiles/Runs.antt =====
-- A token whose old credential is disabled, pruned, and which gets a new one.
use remnaguard.Prelude.{
  String, false, none, List, [], ◌∷◌, if◌then◌else◌, ◌==◌, ◌≡◌, refl, All, find, store, without,
  arith, text_functions, atoi, digits, decimal,
}
use remnaguard.Config.{Config, TokenPolicy, contains, effective_version, enabled_credential}
use remnaguard.Config.Headers.{protected_outbound_header}
use remnaguard.Config.Checks.{
  known_scope, has_user_write_scope, has_user_ownership_constraint,
  validate_restricted_write_allowlists, request_fields_error, credentials_error, token_error,
  tokens_error,
}
use remnaguard.Config.Parts.{
  is_local_host, is_loopback_host, listen_host_is_loopback, require_strong_secret_env,
  validate_panel_facade, validate_alerts,
}
use remnaguard.Config.Validate.{
  configured_bearer_sources, resolve_bearer, limits_error, upstream_error, public_subs_error,
  listen_error, validate,
}
use remnaguard.RateLimit.Rate.{
  new_fixed_window, parse_rate, rate_of_parts, rate_of_count, rate_window,
}
use remnaguard.Config.Load.{Loaded, loaded, failed, load, load_into, tokens_of, included_tokens}
use remnaguard.CommandLine.Tokens.{
  Cli, find_token_doc, edit_token, disable_credential, live_credentials, make_credential,
  token_file, read_token_file, first_with_token, load_token_doc_for_edit,
}
use remnaguard.CommandLine.Save.{back_up, put_in_place, write_token_file}
use remnaguard.CommandLine.Commands.{printed, token_rotate, token_disable, token_prune}
use remnaguard.CommandLine.Kept.{IsEdit}
use remnaguard.CommandLine.Restored.{write_token_file-IsEdit}
use remnaguard.CommandLine.Edited.{IsChanged}
use remnaguard.CommandLine.Changed.{token_disable-IsChanged, token_prune-IsChanged}
use remnaguard.CommandLine.Rotated.{IsRotated, token_rotate-IsRotated}
use remnaguard.Tests.Samples.{shop}
use remnaguard.Tests.Setup.{host_system, off_panel}
use remnaguard.Tests.TokenFiles.{Content, tokens, settings, Files, memory, memory-IsLawful}

abbrev decoded : Content → Config → Loaded Config
decoded (tokens ts) cfg = loaded (record cfg { tokens = ts })
decoded (settings new) cfg = loaded new

abbrev tokens_in : Content → Loaded (List TokenPolicy)
tokens_in (tokens ts) = loaded ts
tokens_in (settings cfg) = failed "no tokens"

abbrev cli : Cli Files Content
cli = record {
  loader = record {
    disk = memory;
    sys = λ s. host_system;
    decode = decoded;
    glob = λ s pattern. loaded ("shop.yaml" ∷ []);
    dir = λ p. "d";
    join = λ parts. "absent.yaml";
  };
  decode_tokens = tokens_in;
  encode_tokens = λ ts. loaded (tokens ts);
  digest = λ secret pepper. "digest";
  now_text = "now";
  secret = loaded "s3cret";
}

abbrev base : Config
base = record off_panel { tokens = []; includes = "tokens.d/*.yaml" ∷ [] }

abbrev disk : Files
disk = ("rg.yaml", settings base) ∷ ("shop.yaml", tokens (shop ∷ [])) ∷ []

reads_back :
    (ts : List TokenPolicy) (b : Content)
    → cli.encode_tokens ts ≡ loaded b
    → cli.decode_tokens b ≡ loaded ts
reads_back ts (tokens us) h = ground (arith, h)
reads_back ts (settings cfg) h = absurd (ground (arith, h))

disabled : (token_disable cli "rg.yaml" "shop" "new" "" disk).1 ≡ printed ""
unfolding validate limits_error upstream_error public_subs_error listen_error resolve_bearer
    configured_bearer_sources validate_panel_facade validate_alerts require_strong_secret_env
    listen_host_is_loopback is_loopback_host is_local_host tokens_error token_error
    credentials_error request_fields_error validate_restricted_write_allowlists
    has_user_ownership_constraint has_user_write_scope known_scope contains effective_version
    text_functions new_fixed_window parse_rate rate_of_parts rate_of_count rate_window atoi digits
    decimal protected_outbound_header token_disable load_token_doc_for_edit first_with_token
    token_file read_token_file find_token_doc edit_token disable_credential write_token_file back_up
    put_in_place load load_into included_tokens tokens_of find store without
disabled = refl

pruned : (token_prune cli "rg.yaml" "shop" "" disk).1 ≡ printed ""
unfolding validate limits_error upstream_error public_subs_error listen_error resolve_bearer
    configured_bearer_sources validate_panel_facade validate_alerts require_strong_secret_env
    listen_host_is_loopback is_loopback_host is_local_host tokens_error token_error
    credentials_error request_fields_error validate_restricted_write_allowlists
    has_user_ownership_constraint has_user_write_scope known_scope contains effective_version
    text_functions new_fixed_window parse_rate rate_of_parts rate_of_count rate_window atoi digits
    decimal protected_outbound_header token_prune load_token_doc_for_edit first_with_token
    token_file read_token_file find_token_doc edit_token live_credentials write_token_file back_up
    put_in_place load load_into included_tokens tokens_of find store without
pruned = refl

rotated : (token_rotate cli "rg.yaml" "shop" "n2" "" disk).1 ≡ printed "rg_n2.s3cret"
unfolding validate limits_error upstream_error public_subs_error listen_error resolve_bearer
    configured_bearer_sources validate_panel_facade validate_alerts require_strong_secret_env
    listen_host_is_loopback is_loopback_host is_local_host tokens_error token_error
    credentials_error request_fields_error validate_restricted_write_allowlists
    has_user_ownership_constraint has_user_write_scope known_scope contains effective_version
    text_functions new_fixed_window parse_rate rate_of_parts rate_of_count rate_window atoi digits
    decimal protected_outbound_header token_rotate load_token_doc_for_edit first_with_token
    token_file read_token_file find_token_doc edit_token make_credential write_token_file back_up
    put_in_place load load_into included_tokens tokens_of find store without
rotated = refl

write_token_file-IsEdit_example :
    IsEdit cli "shop.yaml" "rg.yaml"
      (tokens (shop ∷ []))
      (loaded (tokens []))
      (write_token_file cli "shop.yaml" [] "rg.yaml" disk)
unfolding find
write_token_file-IsEdit_example =
    write_token_file-IsEdit cli "shop.yaml" memory-IsLawful "rg.yaml" (tokens (shop ∷ [])) [] disk
      refl

token_disable-IsChanged_example :
    (change : IsChanged cli
      (disable_credential "new")
      "shop"
      disk
      (token_disable cli "rg.yaml" "shop" "new" "" disk).0)
    × ((x : String)
        → enabled_credential x (disable_credential "new" change.token.credentials)
          ≡ (if "new" == x then none else enabled_credential x change.token.credentials))
token_disable-IsChanged_example =
    token_disable-IsChanged cli "rg.yaml" memory-IsLawful reads_back "shop" "new" "" "" disk
      disabled

token_prune-IsChanged_example :
    (change : IsChanged cli live_credentials "shop" disk
      (token_prune cli "rg.yaml" "shop" "" disk).0)
    × All (λ k. k.disabled ≡ false) (live_credentials change.token.credentials)
    × ((x : String)
        → enabled_credential x (live_credentials change.token.credentials)
          ≡ enabled_credential x change.token.credentials)
token_prune-IsChanged_example =
    token_prune-IsChanged cli "rg.yaml" memory-IsLawful reads_back "shop" "" "" disk pruned

token_rotate-IsRotated_example :
    IsRotated cli "rg.yaml" "shop" "n2" "rg_n2.s3cret" disk
      (token_rotate cli "rg.yaml" "shop" "n2" "" disk).0
token_rotate-IsRotated_example =
    token_rotate-IsRotated cli "rg.yaml" memory-IsLawful reads_back "shop" "n2" "" "rg_n2.s3cret"
      disk rotated
