-- ===== src/Routes/Openapi.antt =====
-- internal/routes/catalog.go: validateCatalog, and CheckOpenAPI from the parsed document on. A set is the list of its
-- members without repeats.
use remnaguard.Prelude.{
  ℕ, String, Bool, false, not, Option, none, some, List, [], ◌∷◌, ◌++◌, ◌&&◌, ◌||◌, if◌then◌else◌,
  ◌==◌, ◌+++◌, is_empty, keep, nat_eq, cons, to_upper, text_lt, ltb,
}
use Prim.Native.Char.{code}
use remnaguard.Config.{contains}
use remnaguard.Routes.Types.{Route, Support, unsupported, other}
use remnaguard.Routes.Catalog.{route_key}

-- The text from a brace on: none outside of braces, or what stands since the last one that opened.
unfoldable pub shape_from : Option String → String → String
shape_from none String.[] = ""
shape_from (some inner) String.[] = "{" +++ inner
shape_from none (String.◌∷◌ c s) =
    let inside = shape_from (some "") s in
    let outside = shape_from none s in if nat_eq (code c) b'{' then inside else cons c outside
shape_from (some inner) (String.◌∷◌ c s) =
    let closed = shape_from none s in
    let further = shape_from (some (inner +++ cons c "")) s in
    if nat_eq (code c) b'}' then "{}" +++ closed else further

-- normalizeRouteShape
unfoldable pub normalize_route_shape : String → String
normalize_route_shape p = shape_from none p

abbrev pub http_methods : List String
http_methods = "GET" ∷ "POST" ∷ "PUT" ∷ "PATCH" ∷ "DELETE" ∷ "HEAD" ∷ "OPTIONS" ∷ "TRACE" ∷ []

-- isHTTPMethod
unfoldable pub is_http_method : String → Bool
is_http_method method = contains http_methods (to_upper method)

abbrev pub is_blank : Support → Bool
is_blank (other s) = s == ""
is_blank _ = false

-- What is wrong with a route's support.
abbrev pub support_faults : String → Route → Support → List String
support_faults key r unsupported =
    if r.unsupported_reason == "" then (key +++ ": unsupported route missing reason") ∷ [] else []
support_faults key r (other s) = (key +++ ": invalid support level") ∷ []
support_faults key r _ = []

-- The faults that validateCatalog finds in one route.
unfoldable pub route_faults : String → Route → List String
route_faults key r =
    (if r.name == "" || r.method == "" || r.pattern == "" || is_blank r.support
      then (key +++ ": empty required metadata") ∷ []
      else [])
    ++ support_faults key r r.support

-- The fields of OpenAPIResult that hold keys.
pub record OpenApiResult : Type 0 where
  pub covered : List String
  pub unknown : List String
  pub removed : List String
  pub invalid : List String
  pub ambiguous : List String
  pub duplicates : List String

abbrev pub shape_key : Route → String
shape_key r = route_key r.method (normalize_route_shape r.pattern)

-- The loop of validateCatalog: the keys that repeat.
unfoldable pub duplicate_keys : List String → List Route → List String
unfolding normalize_route_shape route_key
duplicate_keys seen [] = []
duplicate_keys seen (r ∷ rs) =
    let rest = duplicate_keys (shape_key r ∷ seen) rs in
    if contains seen (shape_key r) then shape_key r ∷ rest else rest

-- The loop of validateCatalog: the faults of the routes.
unfoldable pub catalog_faults : List Route → List String
unfolding normalize_route_shape route_key route_faults
catalog_faults [] = []
catalog_faults (r ∷ rs) = route_faults (shape_key r) r ++ catalog_faults rs

-- The keys of the document: its methods under a path that are HTTP's, with the path's shape.
unfoldable pub method_keys : String → List String → List String
unfolding normalize_route_shape is_http_method
method_keys p [] = []
method_keys p (m ∷ ms) =
    let rest = method_keys p ms in
    if is_http_method m then (to_upper m +++ " " +++ normalize_route_shape p) ∷ rest else rest

unfoldable pub spec_keys : List (String × Option (List String)) → List String
unfolding method_keys
spec_keys [] = []
spec_keys ((p, none) ∷ paths) = spec_keys paths
spec_keys ((p, some methods) ∷ paths) = method_keys p methods ++ spec_keys paths

-- The keys of the catalog, which `want` and `shapeToKeys` have.
unfoldable pub want_keys : List Route → List String
unfolding normalize_route_shape
want_keys [] = []
want_keys (r ∷ rs) = route_key (to_upper r.method) (normalize_route_shape r.pattern) ∷ want_keys rs

unfoldable pub times_in : String → List String → ℕ
times_in key [] = 0
times_in key (k ∷ ks) = let n = times_in key ks in if k == key then ℕ.suc n else n

-- A map's keys: each once.
unfoldable pub distinct : List String → List String
distinct [] = []
distinct (k ∷ ks) = let rest = distinct ks in if contains ks k then rest else k ∷ rest

unfoldable pub insert_text : String → List String → List String
insert_text s [] = s ∷ []
insert_text s (t ∷ ts) = let rest = insert_text s ts in if text_lt t s then t ∷ rest else s ∷ t ∷ ts

-- sort.Strings
unfoldable pub sort_texts : List String → List String
unfolding insert_text
sort_texts [] = []
sort_texts (s ∷ ss) = insert_text s (sort_texts ss)

-- CheckOpenAPI, of the paths of the parsed document with their methods; none is a null
unfoldable pub check_openapi : List Route → List (String × Option (List String)) → OpenApiResult
unfolding spec_keys want_keys distinct sort_texts duplicate_keys catalog_faults times_in
check_openapi catalog paths =
    let want = want_keys catalog in
    let got = spec_keys paths in
    record {
      covered = sort_texts (keep (contains got) (distinct want));
      unknown = sort_texts (keep (λ k. not (contains want k)) (distinct got));
      removed = sort_texts (keep (λ k. not (contains got k)) (distinct want));
      invalid = sort_texts (catalog_faults catalog);
      ambiguous = sort_texts (keep (λ k. ltb 1 (times_in k want)) got);
      duplicates = sort_texts (duplicate_keys [] catalog);
    }

-- CheckOpenAPIStrict: whether it gives no error
unfoldable pub check_openapi_strict : List Route → List (String × Option (List String)) → Bool
unfolding check_openapi
check_openapi_strict catalog paths =
    let res = check_openapi catalog paths in
    is_empty res.unknown
    && is_empty res.removed
    && is_empty res.invalid
    && is_empty res.ambiguous
    && is_empty res.duplicates
