-- ===== src/Httputil/Strip.antt =====
-- internal/httputil/validate.go: StripHopByHop, and what it leaves of a header.
use remnaguard.Prelude.{
  String, Bool, Option, none, List, [], ◌∷◌, ◌++◌, ◌||◌, if◌then◌else◌, ◌==◌, ◌≡◌, refl, ap, ◌∙◌,
  arith, eq_iff, any, to_lower, trim_space, split, has_prefix, find, find-without,
}
use remnaguard.Header.{Header, header_values, header_del}

-- The names that one value of Connection lists.
abbrev trimmed_tokens : List String → List String
trimmed_tokens [] = []
trimmed_tokens (t ∷ ts) =
    let name = trim_space t in
    let rest = trimmed_tokens ts in if name == "" then rest else name ∷ rest

-- The names that the values of Connection list, in the order of the two loops.
unfoldable pub connection_names : List String → List String
connection_names [] = []
connection_names (v ∷ vs) = trimmed_tokens (split b',' v) ++ connection_names vs

abbrev pub hop_by_hop_names : List String
hop_by_hop_names =
    "Connection" ∷ "Proxy-Connection" ∷ "Keep-Alive" ∷ "Proxy-Authenticate" ∷ "Proxy-Authorization"
    ∷ "TE" ∷ "Trailer" ∷ "Transfer-Encoding" ∷ "Upgrade" ∷ "Forwarded" ∷ "X-Forwarded-For"
    ∷ "X-Forwarded-Host" ∷ "X-Forwarded-Proto" ∷ "X-Real-IP" ∷ []

unfoldable pub del_all : List String → Header → Header
del_all [] h = h
del_all (name ∷ names) h = del_all names (header_del name h)

-- The loops that delete the keys of which a test holds.
unfoldable pub del_keys : (String → Bool) → Header → Header
del_keys test [] = []
del_keys test ((k, vs) ∷ h) = let rest = del_keys test h in if test k then rest else (k, vs) ∷ rest

abbrev is_forwarded : String → Bool
is_forwarded name = has_prefix (to_lower name) "x-forwarded-"

-- StripHopByHop
unfoldable pub strip_hop_by_hop : Header → Header
strip_hop_by_hop h =
    del_keys is_forwarded
      (del_all hop_by_hop_names (del_all (connection_names (header_values h "Connection")) h))

-- A list of names in any case has the key.
abbrev pub names_key : List String → String → Bool
names_key names key = any (λ n. to_lower n == key) names

pub find-header_del :
    (name key : String) (h : Header)
    → find key (header_del name h) ≡ (if to_lower name == key then none else find key h)
unfolding header_del
find-header_del name key h = find-without (to_lower name) key h

pub find-del_all :
    (names : List String) (key : String) (h : Header)
    → find key (del_all names h) ≡ (if names_key names key then none else find key h)
unfolding del_all
find-del_all [] key h = refl
find-del_all (n ∷ names) key h =
    ground (arith, find-del_all names key (header_del n h), find-header_del n key h)

pub find-del_keys :
    (test : String → Bool) (key : String) (h : Header)
    → find key (del_keys test h) ≡ (if test key then none else find key h)
unfolding del_keys find
find-del_keys test key [] = ground arith
find-del_keys test key ((k, vs) ∷ h) = ground (arith, find-del_keys test key h, eq_iff k key)

-- Whether StripHopByHop removes a key from a header.
unfoldable pub is_stripped : Header → String → Bool
is_stripped h key =
    is_forwarded key
    || names_key hop_by_hop_names key
    || names_key (connection_names (header_values h "Connection")) key

if_three :
    (a b c : Bool) (o : Option (List String))
    → (if a then none else if b then none else if c then none else o)
      ≡ (if a || b || c then none else o)
if_three a b c o = ground arith

-- StripHopByHop removes a key exactly if it is one of the fixed names, begins with "x-forwarded-" or is
-- named in the values of Connection, and it leaves the values of every other key as they are.
pub find-strip_hop_by_hop :
    (h : Header) (key : String)
    → find key (strip_hop_by_hop h) ≡ (if is_stripped h key then none else find key h)
unfolding strip_hop_by_hop is_stripped
find-strip_hop_by_hop h key =
    let listed = connection_names (header_values h "Connection") in
    let named = del_all listed h in
    find-del_keys is_forwarded key (del_all hop_by_hop_names named)
    ∙ ap (λ o. if is_forwarded key then none else o) (find-del_all hop_by_hop_names key named)
    ∙ ap
        (λ o. if is_forwarded key then none else if names_key hop_by_hop_names key then none else o)
        (find-del_all listed key h)
    ∙ if_three (is_forwarded key) (names_key hop_by_hop_names key) (names_key listed key)
        (find key h)

-- All that StripHopByHop calls, for runs.
unfoldable pub strip_functions : Unit {0}
unfolding strip_hop_by_hop del_all del_keys connection_names header_del header_values
strip_functions = tt
