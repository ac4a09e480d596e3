-- ===== src/Proxy/Inbound.antt =====
-- internal/proxy/proxy.go: the header of a response to the client.
use remnaguard.Prelude.{
  String, Bool, true, false, not, none, some, List, [], ◌∷◌, ◌++◌, ◌&&◌, ◌||◌, if◌then◌else◌, ◌==◌,
  ◌≡◌, refl, sym, ap, ◌∙◌, arith, eq_iff, to_lower, any, find, find-store, Bool-cases, inl, inr,
  text_functions,
}
use remnaguard.Config.{contains}
use remnaguard.Header.{Header, header_set, header_add, header_values, values_or_none}
use remnaguard.Httputil.Strip.{
  strip_hop_by_hop, is_stripped, connection_names, find-strip_hop_by_hop,
}
use remnaguard.Proxy.Defs.{
  Proxy, Response, in_lower_set, set_all, protected_response_header, add_all, copy_entries,
  copy_header, response_header,
}
use remnaguard.Proxy.Protected.{find-header_set}

-- The loop of copyHeader passes over a name.
unfoldable pub is_refused : Bool → List String → String → Bool
is_refused public_sub allowed key =
    protected_response_header key || (public_sub && not (in_lower_set allowed key))

find-header_add :
    (name value key : String) (h : Header)
    → (to_lower name == key) ≡ false
    → find key (header_add name value h) ≡ find key h
unfolding header_add
find-header_add name value key h other =
    find-store (to_lower name) key (header_values h name ++ value ∷ []) h
    ∙ ap (λ b. if b then some (header_values h name ++ value ∷ []) else find key h) other

find-add_all :
    (name key : String) (vs : List String) (h : Header)
    → (to_lower name == key) ≡ false
    → find key (add_all name vs h) ≡ find key h
unfolding add_all
find-add_all name key [] h other = refl
find-add_all name key (v ∷ vs) h other =
    find-add_all name key vs (header_add name v h) other ∙ find-header_add name v key h other

find-entry :
    (public_sub : Bool) (allowed : List String) (key k : String) (vs : List String) (dst : Header)
    → is_refused public_sub allowed key ≡ true
    → find key (if is_refused public_sub allowed (to_lower k) then dst else add_all k vs dst)
      ≡ find key dst
find-entry public_sub allowed key k vs dst h = elim (Bool-cases (to_lower k == key)) [
  | inl e ↦
      ap (λ b. find key (if b then dst else add_all k vs dst))
        (ap (is_refused public_sub allowed) ((eq_iff (to_lower k) key).0 e) ∙ h)
  | inr e ↦ ground (arith, find-add_all k key vs dst e)
]

find-copy_entries :
    (public_sub : Bool) (allowed : List String) (key : String) (src dst : Header)
    → is_refused public_sub allowed key ≡ true
    → find key (copy_entries dst src public_sub allowed) ≡ find key dst
unfolding copy_entries is_refused
find-copy_entries public_sub allowed key [] dst h = refl
find-copy_entries public_sub allowed key ((k, vs) ∷ src) dst h =
    find-copy_entries public_sub allowed key src
      (if is_refused public_sub allowed (to_lower k) then dst else add_all k vs dst) h
    ∙ find-entry public_sub allowed key k vs dst h

connection_refused :
    (public_sub : Bool) (allowed : List String)
    → is_refused public_sub allowed (to_lower "Connection") ≡ true
unfolding is_refused protected_response_header contains text_functions
connection_refused public_sub allowed = refl

same_connection :
    (public_sub : Bool) (allowed : List String) (src dst : Header)
    → header_values (copy_entries dst src public_sub allowed) "Connection"
      ≡ header_values dst "Connection"
unfolding header_values
same_connection public_sub allowed src dst = ap values_or_none (
    find-copy_entries public_sub allowed (to_lower "Connection") src dst
      (connection_refused public_sub allowed))

is_stripped-values :
    (g h : Header) (key : String)
    → header_values g "Connection" ≡ header_values h "Connection"
    → is_stripped g key ≡ is_stripped h key
unfolding is_stripped
is_stripped-values g h key e = ground (arith, ap connection_names e)

find-copy_header :
    (public_sub : Bool) (allowed : List String) (key : String) (src dst : Header)
    → is_refused public_sub allowed key ≡ true
    → find key (copy_header dst src public_sub allowed) ≡ find key (strip_hop_by_hop dst)
unfolding copy_header
find-copy_header public_sub allowed key src dst h =
    let copied = copy_entries dst src public_sub allowed in
    find-strip_hop_by_hop copied key
    ∙ ap (λ b. if b then none else find key copied)
        (is_stripped-values copied dst key (same_connection public_sub allowed src dst))
    ∙ ap (λ o. if is_stripped dst key then none else o)
        (find-copy_entries public_sub allowed key src dst h)
    ∙ sym (find-strip_hop_by_hop dst key)

find-set_all_other :
    (extra : List (String × String)) (key : String) (h : Header)
    → any (λ e. to_lower e.0 == key) extra ≡ false
    → find key (set_all extra h) ≡ find key h
unfolding set_all
find-set_all_other [] key h other = refl
find-set_all_other ((k, v) ∷ extra) key h other =
    find-set_all_other extra key (header_set k v h) (ground (arith, other))
    ∙ find-header_set k v key h
    ∙ ap (λ b. if b then some (v ∷ []) else find key h) {y = false} (ground (arith, other))

-- Whatever the upstream answers, a header that the loop of copyHeader passes over (a protected name, or
-- for a public subscription a name outside the allowlist) and that no extra response header sets
-- comes to the client with the values that the guard itself had written, if StripHopByHop leaves them.
pub response_header_confined :
    (p : Proxy) (public_sub : Bool) (written : Header) (res : Response) (key : String)
    → is_refused public_sub p.cfg.public_subs.response_header_allowlist key ≡ true
    → public_sub && any (λ e. to_lower e.0 == key) p.cfg.public_subs.extra_response_headers ≡ false
    → find key (response_header p written res public_sub) ≡ find key (strip_hop_by_hop written)
unfolding response_header
response_header_confined p true written res key h other =
    let allowed = p.cfg.public_subs.response_header_allowlist in
    find-set_all_other p.cfg.public_subs.extra_response_headers key
      (copy_header written res.header true allowed) other
    ∙ find-copy_header true allowed key res.header written h
response_header_confined p false written res key h other =
    find-copy_header false p.cfg.public_subs.response_header_allowlist key res.header written h
