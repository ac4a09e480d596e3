-- ===== src/Proxy/Sent.antt =====
-- internal/proxy/proxy.go: what has become of a header's keys in the request to the upstream.
use remnaguard.Prelude.{
  String, Bool, true, false, not, Option, none, some, List, [], ◌∷◌, ◌||◌, if◌then◌else◌, ◌==◌,
  ◌+++◌, ◌≡◌, ap, sym, subst, ◌∙◌, arith, eq_iff, has_prefix, text_functions, to_lower, find,
  Bool-cases, inl, inr,
}
use remnaguard.Config.Headers.{is_protected_lower}
use remnaguard.Header.{Header, header_set, header_del, header_values}
use remnaguard.Httputil.Strip.{
  strip_hop_by_hop, is_stripped, connection_names, hop_by_hop_names, names_key,
  find-strip_hop_by_hop, find-header_del, find-del_keys,
}
use remnaguard.Proxy.Defs.{Proxy, filter_headers, in_lower_set, outbound_header}
use remnaguard.Proxy.Protected.{
  find-header_set, IsUnprotected, sets_key, find-set_all, find-set_all_other, lower_names,
}

-- What the header with the client's authorization removed has, before the identity of the guard is set.
find-identity :
    (key : String) (h : Header)
    → ("accept-encoding" == key) ≡ false
    → find key
        (header_set "Accept-Encoding" "identity" (header_del "Authorization" (strip_hop_by_hop h)))
      ≡ (if "authorization" == key then none else if is_stripped h key then none else find key h)
find-identity key h other =
    let stripped = strip_hop_by_hop h in
    find-header_set "Accept-Encoding" "identity" key (header_del "Authorization" stripped)
    ∙ ap
        (λ n.
          if n == key
          then some ("identity" ∷ [])
          else find key (header_del "Authorization" stripped))
        (lower_names.1)
    ∙ ap (λ b. if b then some ("identity" ∷ []) else find key (header_del "Authorization" stripped))
        other
    ∙ find-header_del "Authorization" key stripped
    ∙ ap (λ n. if n == key then none else find key stripped) (lower_names.0)
    ∙ ap (λ o. if "authorization" == key then none else o) (find-strip_hop_by_hop h key)

pub find-filter_headers :
    (key : String) (h : Header) (allowed : List String)
    → find key (filter_headers h allowed)
      ≡ (if not (in_lower_set allowed (to_lower key)) then none else find key h)
unfolding filter_headers in_lower_set
find-filter_headers key h allowed =
    find-del_keys (λ name. not (in_lower_set allowed (to_lower name))) key h

if_none : (b : Bool) (o : Option (List String)) → o ≡ none → (if b then none else o) ≡ none
if_none b o e = ground (arith, e)

if_twice :
    (b : Bool) (o r : Option (List String))
    → (if b then o else if b then none else r) ≡ (if b then o else r)
if_twice b o r = ground arith

-- A key that no allowed extension sets has the value it had in the client's header, and it has none
-- when it is stripped.
pub find-private :
    (p : Proxy) (h : Header) (key : String)
    → IsUnprotected p.cfg.upstream.extra_headers
    → is_protected_lower key ≡ true
    → ("accept-encoding" == key) ≡ false
    → find key (outbound_header p h false) ≡ (
        if "authorization" == key
        then some (("Bearer " +++ p.bearer) ∷ [])
        else if is_stripped h key
        then none
        else find key h)
unfolding outbound_header
find-private p h key free prot other =
    let value = "Bearer " +++ p.bearer in
    let identity =
      header_set "Accept-Encoding" "identity" (header_del "Authorization" (strip_hop_by_hop h)) in
    find-set_all p.cfg.upstream.extra_headers key (header_set "Authorization" value identity) free
      prot
    ∙ find-header_set "Authorization" value key identity
    ∙ ap (λ n. if n == key then some (value ∷ []) else find key identity) (lower_names.0)
    ∙ ap (λ o. if "authorization" == key then some (value ∷ []) else o) (find-identity key h other)
    ∙ if_twice ("authorization" == key) (some (value ∷ []))
        (if is_stripped h key then none else find key h)

-- A key that is stripped, and that neither an extra header nor the guard sets.
find-stripped :
    (p : Proxy) (h : Header) (key : String)
    → sets_key p.cfg.upstream.extra_headers key ≡ false
    → ("accept-encoding" == key) ≡ false
    → ("authorization" == key) ≡ false
    → is_stripped h key ≡ true
    → find key (outbound_header p h false) ≡ none
unfolding outbound_header
find-stripped p h key free other not_auth stripped =
    let value = "Bearer " +++ p.bearer in
    let identity =
      header_set "Accept-Encoding" "identity" (header_del "Authorization" (strip_hop_by_hop h)) in
    find-set_all_other p.cfg.upstream.extra_headers key (header_set "Authorization" value identity)
      free
    ∙ find-header_set "Authorization" value key identity
    ∙ ap (λ n. if n == key then some (value ∷ []) else find key identity) (lower_names.0)
    ∙ ap (λ b. if b then some (value ∷ []) else find key identity) not_auth
    ∙ find-identity key h other
    ∙ ap (λ b. if b then none else if is_stripped h key then none else find key h) not_auth
    ∙ ap (λ b. if b then none else find key h) stripped

last_true : (a b c : Bool) → c ≡ true → (a || b || c) ≡ true
last_true a b c h = ground (arith, h)

listed-is_stripped :
    (h : Header) (key : String)
    → names_key (connection_names (header_values h "Connection")) key ≡ true
    → is_stripped h key ≡ true
unfolding is_stripped
listed-is_stripped h key listed =
    last_true (has_prefix (to_lower key) "x-forwarded-") (names_key hop_by_hop_names key) _ listed

-- A key that the values of Connection list, and that neither an extra header nor the guard sets.
pub outbound_header_listed :
    (p : Proxy) (h : Header) (key : String)
    → sets_key p.cfg.upstream.extra_headers key ≡ false
    → ("accept-encoding" == key) ≡ false
    → ("authorization" == key) ≡ false
    → names_key (connection_names (header_values h "Connection")) key ≡ true
    → find key (outbound_header p h false) ≡ none
outbound_header_listed p h key free other not_auth listed =
    find-stripped p h key free other not_auth (listed-is_stripped h key listed)

forwarded_parts :
    (key : String)
    → has_prefix key "x-forwarded-" ≡ true
    → (is_protected_lower key ≡ true)
      × (("accept-encoding" == key) ≡ false)
      × (("authorization" == key) ≡ false)
unfolding is_protected_lower text_functions
forwarded_parts key h = (
  ground (arith, h),
  elim (Bool-cases ("accept-encoding" == key)) [
    | inl e ↦ absurd (
        ground
          (arith, subst (λ k. has_prefix k "x-forwarded-" ≡ true) (sym ((eq_iff _ key).0 e)) h))
    | inr e ↦ e
  ],
  elim (Bool-cases ("authorization" == key)) [
    | inl e ↦ absurd (
        ground
          (arith, subst (λ k. has_prefix k "x-forwarded-" ≡ true) (sym ((eq_iff _ key).0 e)) h))
    | inr e ↦ e
  ],
)

forwarded-is_stripped :
    (h : Header) (key : String)
    → has_prefix key "x-forwarded-" ≡ true
    → to_lower key ≡ key
    → is_stripped h key ≡ true
unfolding is_stripped
forwarded-is_stripped h key fwd lower =
    let f : has_prefix (to_lower key) "x-forwarded-" ≡ true = rw lower fwd in ground (arith, f)

-- No key that begins as a forwarding header is sent.
pub outbound_header_forwarded :
    (p : Proxy) (h : Header) (key : String)
    → IsUnprotected p.cfg.upstream.extra_headers
    → has_prefix key "x-forwarded-" ≡ true
    → to_lower key ≡ key
    → find key (outbound_header p h false) ≡ none
outbound_header_forwarded p h key free fwd lower =
    let (prot, other, not_auth) = forwarded_parts key fwd in
    find-private p h key free prot other
    ∙ ap
        (λ b.
          if b
          then some (("Bearer " +++ p.bearer) ∷ [])
          else if is_stripped h key
          then none
          else find key h)
        not_auth
    ∙ ap (λ b. if b then none else find key h) (forwarded-is_stripped h key fwd lower)
