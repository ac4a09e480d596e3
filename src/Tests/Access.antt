-- ===== src/Tests/Access.antt =====
-- Routes, credentials and decisions on the sample configuration.
use remnaguard.Prelude.{
  String, true, false, none, some, [], ◌∷◌, ◌≡◌, ◌≢◌, ◌↔◌, refl, Some, All, text_functions, eq_iff,
  arith, length, pos,
}
use remnaguard.Config.{TokenPolicy, Credential, find_credential, effective_version, contains}
use remnaguard.Config.Credentials.{IsLive, find_credential_iff}
use remnaguard.Routes.{Route, privileged}
use remnaguard.Routes.Catalog.{catalog, before, match_route}
use remnaguard.Routes.Overrides.{overrides, user_update_fields}
use remnaguard.Routes.Pattern.{compile, matches}
use remnaguard.Routes.Matching.{IsTried, Serves, match_route_iff}
use remnaguard.Policy.Decide.{decide}
use remnaguard.Policy.Allowed.{Permits, decide_iff}
use remnaguard.Server.Effective.{effective_route, subscription_route, effective_functions}
use remnaguard.Server.Writes.{MayWrite, write_needs_permission}
use remnaguard.Tests.Samples.{shop, root, sample_config}

find_credential_run : find_credential sample_config "old" ≡ none
unfolding find_credential
find_credential_run = refl

find_credential_iff_example :
    ((t : TokenPolicy) (k : Credential)
      → find_credential sample_config "old" ≡ some (t, k)
      → IsLive sample_config "old" t k)
    × ((find_credential sample_config "old" ≡ none)
        ↔ ((t : TokenPolicy) (k : Credential) → ¬ IsLive sample_config "old" t k))
find_credential_iff_example = find_credential_iff sample_config "old"

catalog_size : length (catalog "2.8.1") ≡ 186
unfolding catalog before text_functions
catalog_size = refl

match_route_iff_example :
    ((r : Route)
      → match_route overrides "GET" "/api/users/" ≡ some r
      → Some (λ s. s ≡ r) overrides × ((p : String) × IsTried "/api/users/" p × Serves r "GET" p))
    × ((match_route overrides "GET" "/api/users/" ≡ none)
        ↔ ((p : String) → IsTried "/api/users/" p → All (λ s. ¬ Serves s "GET" p) overrides))
match_route_iff_example = match_route_iff overrides "GET" "/api/users/"

sub_info : matches (compile "/api/sub/{shortUuid}/info") "/api/sub/abc_123/info" ≡ true
unfolding compile matches
sub_info = refl

abbrev pub update : Route
update = record {
  name = "user.update";
  method = "PATCH";
  pattern = "/api/users";
  support = privileged;
  scopes = "remnawave:*" ∷ [];
  query_allowed = [];
  body_limit = pos 65536;
  body_object = true;
  allowed_fields = user_update_fields;
  required_boolean = "";
  group = "users";
  unsupported_reason = "";
}

update_matched :
    match_route (catalog (effective_version sample_config.compatibility)) "PATCH" "/api/users"
    ≡ some update
unfolding match_route matches compile catalog before text_functions effective_version
update_matched = refl

decide_iff_example :
    (((decide (some root) update).allow ≡ true) ↔ Permits root update)
    × ((decide none update).allow ≡ false)
decide_iff_example = decide_iff root update

patch_not_get : ◌≢◌ {A = String} "PATCH" "GET"
patch_not_get = ground (arith, eq_iff "PATCH" "GET")

shop_may_update :
    (decide (some shop) (subscription_route (effective_route sample_config update))).allow ≡ true
unfolding decide subscription_route effective_functions contains
shop_may_update = refl

write_needs_permission_example : (shop.disabled ≡ false) × MayWrite sample_config shop.scopes update
write_needs_permission_example =
    write_needs_permission sample_config shop "PATCH" "/api/users" update update_matched
      patch_not_get shop_may_update
