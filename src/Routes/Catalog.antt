-- ===== src/Routes/Catalog.antt =====
-- internal/routes/catalog.go: building the catalog, and matching a request to a route.
use remnaguard.Prelude.{
  ℕ, ◌+◌, ◌*◌, String, Bool, false, Option, none, some, List, [], ◌∷◌, ◌++◌, map, ◌&&◌, ◌||◌, not,
  if◌then◌else◌, ◌==◌, code, nat_eq, ltb, length, cons, ◌+++◌, to_lower, to_upper, len, trim_space,
  trim_left, trim_right, split, cut, has_suffix, contains_text, trim_prefix, pos, text_lt,
}
use remnaguard.Routes.Types.{Route, privileged}
use remnaguard.Routes.Operations.{
  delete_operations, get_operations, patch_operations, post_operations, put_operations,
}
use remnaguard.Routes.Overrides.{overrides}
use remnaguard.Routes.Pattern.{compile, matches}

-- routeKey
unfoldable pub route_key : String → String → String
route_key method pattern = to_upper method +++ (" " +++ pattern)

-- strings.Split(strings.Trim(path, "/"), "/")
unfoldable pub segments : String → List String
segments path = split b'/' (trim_right (nat_eq b'/') (trim_left (nat_eq b'/') path))

abbrev group_of : String → List String → String
group_of path (_ ∷ part ∷ _) =
    if part == "system" && contains_text path "/stats/bandwidth"
    then "bandwidth-stats"
    else if part == "system" && contains_text path "/tools/"
    then "keygen-tools"
    else if part == "auth" || part == "passkeys"
    then "auth-passkeys"
    else if part == "metadata" || part == "remnawave-settings"
    then "metadata"
    else if part == "sub"
    then "subscriptions"
    else part
group_of path _ = "other"

-- routeGroup
unfoldable pub route_group : String → String
unfolding segments
route_group path = group_of path (segments path)

abbrev name_char : ℕ → String → String → String
name_char c kept rest =
    if nat_eq c b'{' || nat_eq c b'}'
    then rest
    else if nat_eq c b'/'
    then "." +++ rest
    else if nat_eq c b'-'
    then "_" +++ rest
    else kept +++ rest

unfoldable pub dotted : String → String
dotted String.[] = ""
dotted (String.◌∷◌ c s) = name_char (code c) (cons c "") (dotted s)

-- routeName
unfoldable pub route_name : String → String → String
unfolding dotted
route_name method pattern = to_lower method +++ ("." +++ dotted (trim_prefix pattern "/api/"))

unfoldable pub count_char : ℕ → String → ℕ
count_char d String.[] = 0
count_char d (String.◌∷◌ c s) = (if nat_eq (code c) d then 1 else 0) + count_char d s

-- The two terms of specificity's difference, which stay apart since it may be negative.
unfoldable pub specificity_gain : String → ℕ
unfolding segments
specificity_gain pattern = length (segments pattern) * 10 + len pattern

unfoldable pub specificity_loss : String → ℕ
unfolding count_char
specificity_loss pattern = count_char b'{' pattern * 20

-- specificity(p) > specificity(q)
unfoldable pub more_specific : String → String → Bool
unfolding specificity_gain specificity_loss
more_specific p q =
    ltb (specificity_gain q + specificity_loss p) (specificity_gain p + specificity_loss q)

-- The order by which the catalog is sorted.
unfoldable pub before : Route → Route → Bool
unfolding more_specific
before r s =
    if r.method == s.method then more_specific r.pattern s.pattern else text_lt r.method s.method

-- sort.SliceStable: a route goes in front of the first one that it comes before.
unfoldable pub insert_route : Route → List Route → List Route
insert_route r [] = r ∷ []
insert_route r (s ∷ ss) =
    let rest = insert_route r ss in if before r s then r ∷ s ∷ ss else s ∷ rest

unfoldable pub sort_routes : List Route → List Route → List Route
unfolding insert_route
sort_routes sorted [] = sorted
sort_routes sorted (r ∷ rs) = sort_routes (insert_route r sorted) rs

abbrev privileged_route : String → String → Route
privileged_route method pattern = record {
  name = route_name method pattern;
  method = method;
  pattern = pattern;
  support = privileged;
  scopes = "remnawave:*" ∷ [];
  query_allowed = [];
  body_limit = pos 0;
  body_object = false;
  allowed_fields = [];
  required_boolean = "";
  group = route_group pattern;
  unsupported_reason = "";
}

abbrev route_of_cut : String → Option (String × String) → Route
route_of_cut line none = privileged_route line ""
route_of_cut line (some (method, pattern)) = privileged_route method pattern

-- The route of one line, which is not blank.
unfoldable pub route_of_line : String → Route
unfolding route_name route_group
route_of_line line = route_of_cut (trim_space line) (cut b' ' (trim_space line))

-- One round of the loop over the overrides: in the place of the route with its key, or at the end.
-- The keys in `byKey` are those of the lines, each of which stands there once.
unfoldable pub override : Route → List Route → List Route
unfolding route_key
override o [] = o ∷ []
override o (r ∷ rs) =
    let rest = override o rs in
    if route_key r.method r.pattern == route_key o.method o.pattern then o ∷ rs else r ∷ rest

unfoldable pub override_all : List Route → List Route → List Route
unfolding override
override_all routes [] = routes
override_all routes (o ∷ os) = override_all (override o routes) os

abbrev pub operations : List String
operations =
    delete_operations
    ++ (get_operations ++ (patch_operations ++ (post_operations ++ put_operations)))

-- The routes before they are sorted.
unfoldable pub unsorted_catalog : Unit {0} → List Route
unfolding override_all route_of_line overrides
unsorted_catalog _ = override_all (map route_of_line operations) overrides

-- Catalog
unfoldable pub catalog : String → List Route
unfolding sort_routes unsorted_catalog
catalog version = if version == "2.8.1" then sort_routes [] (unsorted_catalog tt) else []

-- The loop of Match.
unfoldable pub first_match : List Route → String → String → Option Route
first_match [] method path = none
first_match (r ∷ rs) method path =
    let rest = first_match rs method path in
    if r.method == method && matches (compile r.pattern) path then some r else rest

-- The call of Match on a path with no slash at its end, or on "", to which "/" and "//" shrink.
abbrev pub or_trimmed : List Route → String → String → Option Route → Option Route
or_trimmed rs method path (some r) = some r
or_trimmed rs method path none =
    if not (path == "/api/") && has_suffix path "/"
    then first_match rs method (trim_right (nat_eq b'/') path)
    else none

-- Match. TrimRight leaves no slash at the end, so the recursion is one level deep.
unfoldable pub match_route : List Route → String → String → Option Route
unfolding first_match
match_route rs method path = or_trimmed rs method path (first_match rs method path)
