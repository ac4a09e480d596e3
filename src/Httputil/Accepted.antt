-- ===== src/Httputil/Accepted.antt =====
-- internal/httputil/validate.go: what ValidateRawRequest has checked when it accepts a request.

use remnaguard.Prelude.{
  String, Bool, true, false, Option, none, some, ◌≤◌, ◌≡◌, ◌⊎◌, inl, inr, arith, eq_iff, len, code,
  cons, has_prefix, contains_text, split, All, Bool-cases, ℤ, pos, negsuc, subst, nat_eq,
}
use remnaguard.Header.{header_get}
use remnaguard.Httputil.Defs.{
  RawRequest, ok, target, is_ambiguous, hides_separator, changes, longer_than, validate_target,
  validate_raw_request,
}
use remnaguard.Httputil.Paths.{IsPlain, IsClean, slash_of, blank-IsPlain}
use remnaguard.Httputil.Paths.Segments.{clean_segments}

IsClean-of : (path : String) → is_ambiguous path ≡ false → IsClean path
unfolding is_ambiguous
IsClean-of path h = record {
  inner_dot = ground arith;
  inner_dots = ground arith;
  last_dot = ground arith;
  last_dots = ground arith;
}

IsPlain-segments :
    (path : String)
    → is_ambiguous path ≡ false
    → has_prefix path "/" ≡ true
    → All IsPlain (split b'/' path)
unfolding has_prefix split
IsPlain-segments String.[] clean h = absurd (ground arith)
IsPlain-segments (String.◌∷◌ c s) clean h = elim (Bool-cases (nat_eq (code c) b'/')) [
  | inl first ↦
      let whole = IsClean-of (cons c s) clean in
      rw first
        (blank-IsPlain, clean_segments s (subst (λ x. IsClean (cons x s)) (slash_of c first) whole))
  | inr other ↦ absurd (ground arith)
]

abbrev IsShort : String → ℤ → Type 0
IsShort s (pos n) = len s ≤ n
IsShort s (negsuc n) = ⊥

IsShort-of : (s : String) (m : ℤ) → longer_than s m ≡ false → IsShort s m
IsShort-of s (pos n) h = ground arith
IsShort-of s (negsuc n) h = ground arith

module _ (path_unescape : String → Option String) (query_parses : String → Bool) where
  -- The request as it is accepted: its target is the path and the query, neither is longer than its
  -- maximum, no segment of the path is "." or "..", no escape stands for a dot or a separator,
  -- unescaping leaves the path as it is, and no header overrides the method.
  pub record IsSafe (r : RawRequest) (max_path max_query : ℤ) (path query : String) : Type 0 where
    pub split_off : target r.request_uri ≡ (path, query)
    pub path_short : IsShort path max_path
    pub query_short : IsShort query max_query
    pub plain : All IsPlain (split b'/' path)
    pub one_slash : contains_text path "//" ≡ false
    pub unhidden : hides_separator path ≡ false
    pub unescaped : path_unescape path ≡ some path
    pub parsed : query_parses query ≡ true
    pub own_method : header_get r.header "X-HTTP-Method-Override" ≡ ""
    pub own_method' : header_get r.header "X-Method-Override" ≡ ""
    pub under_api : (has_prefix path "/api/" ≡ true) ⊎ (path ≡ "/api")

  unchanged : (path : String) (o : Option String) → changes path o ≡ false → o ≡ some path
  unchanged path none h = ground arith
  unchanged path (some u) h = ground (arith, eq_iff u path)

  checked :
      (r : RawRequest) (max_path max_query : ℤ) (p q path query : String)
      → validate_target path_unescape query_parses r max_path max_query p q ≡ ok path query
      → (p ≡ path)
        × (q ≡ query)
        × (longer_than p max_path ≡ false)
        × (longer_than q max_query ≡ false)
        × (is_ambiguous p ≡ false)
        × (hides_separator p ≡ false)
        × (changes p (path_unescape p) ≡ false)
        × (query_parses q ≡ true)
        × (header_get r.header "X-HTTP-Method-Override" ≡ "")
        × (header_get r.header "X-Method-Override" ≡ "")
        × ((has_prefix p "/api/" ≡ true) ⊎ (p ≡ "/api"))
  unfolding validate_target
  checked r max_path max_query p q path query h = ground (
    arith,
    eq_iff (header_get r.header "X-HTTP-Method-Override") "",
    eq_iff (header_get r.header "X-Method-Override") "",
    eq_iff p "/api",
  )

  slash_first : (path : String) → has_prefix path "/api/" ≡ true → has_prefix path "/" ≡ true
  unfolding has_prefix
  slash_first String.[] h = ground arith
  slash_first (String.◌∷◌ c s) h = ground arith

  api_first :
      (path : String)
      → (has_prefix path "/api/" ≡ true) ⊎ (path ≡ "/api")
      → has_prefix path "/" ≡ true
  unfolding has_prefix
  api_first path (inl h) = slash_first path h
  api_first path (inr e) = rw e

  accepted :
      (r : RawRequest) (max_path max_query : ℤ) (path query : String)
      → validate_raw_request path_unescape query_parses r max_path max_query ≡ ok path query
      → validate_target path_unescape query_parses r max_path max_query
          (target r.request_uri).0
          (target r.request_uri).1
        ≡ ok path query
  unfolding validate_raw_request
  accepted r max_path max_query path query h = ground arith

  -- Whatever request ValidateRawRequest accepts is safe, as IsSafe says it: its target is the path and
  -- the query that are returned, neither is longer than its maximum, no segment of the path is "."
  -- or "..", no two slashes touch, no escape stands for a dot or a separator, unescaping leaves the
  -- path as it is, the query parses, no header overrides the method, and the path is "/api" or
  -- begins with "/api/".
  pub validate_raw_request-IsSafe :
      (r : RawRequest) (max_path max_query : ℤ) (path query : String)
      → validate_raw_request path_unescape query_parses r max_path max_query ≡ ok path query
      → IsSafe r max_path max_query path query
  validate_raw_request-IsSafe r max_path max_query path query h =
      let p = (target r.request_uri).0 in
      let q = (target r.request_uri).1 in
      let (same, same_query, short, short_query, clear, unhidden, kept, parses, own, own', api) =
        checked r max_path max_query p q path query (accepted r max_path max_query path query h) in
      record {
        split_off = λ i. (same i, same_query i);
        path_short = rw (← same) (IsShort-of p max_path short);
        query_short = rw (← same_query) (IsShort-of q max_query short_query);
        plain = rw (← same) (IsPlain-segments p clear (api_first p api));
        one_slash = rw (← same) (unfold is_ambiguous in ground arith);
        unhidden = rw (← same) unhidden;
        unescaped = rw (← same) (unchanged p (path_unescape p) kept);
        parsed = rw (← same_query) parses;
        own_method = own;
        own_method' = own';
        under_api = rw (← same) api;
      }
