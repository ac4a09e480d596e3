-- ===== src/Routes/Pattern.antt =====
-- internal/routes/catalog.go: compile. A pattern is a sequence of pieces, each the character itself
-- or a parameter, which stands for a run of characters of one class. The regular expression is
-- anchored at both ends, so a path matches if it can be cut up into such pieces.
use remnaguard.Prelude.{
  ℕ, zero, suc, String, Bool, false, Option, none, some, List, [], ◌∷◌, map, ◌&&◌, ◌||◌, not,
  if◌then◌else◌, ◌==◌, code, codes, between, nat_eq, cons, ◌+++◌, to_lower,
}

pub data Piece : Type 0 where
  lit : ℕ → Piece
  -- a class of characters, and the least and the greatest number of them
  run : (ℕ → Bool) → ℕ → ℕ → Piece

abbrev pub is_digit : ℕ → Bool
is_digit c = between b'0' b'9' c

-- [0-9a-fA-F-]
abbrev pub is_hex_or_dash : ℕ → Bool
is_hex_or_dash c = is_digit c || between b'a' b'f' c || between b'A' b'F' c || nat_eq c b'-'

-- [A-Za-z0-9_-]
abbrev pub is_word_or_dash : ℕ → Bool
is_word_or_dash c =
    between b'A' b'Z' c || between b'a' b'z' c || is_digit c || nat_eq c b'_' || nat_eq c b'-'

-- [^/]
abbrev pub not_slash : ℕ → Bool
not_slash c = not (nat_eq c b'/')

-- The expression that stands for a parameter, by its name in lower case.
unfoldable pub parameter : String → Piece
parameter name =
    if name == "uuid" || name == "useruuid" || name == "nodeuuid"
    then run is_hex_or_dash 36 36
    else if name == "id" || name == "telegramid"
    then run is_digit 1 32
    else if name == "shortuuid"
    then run is_word_or_dash 6 64
    else if name == "clienttype"
    then run is_word_or_dash 1 64
    else run not_slash 1 256

abbrev literal : String → List Piece
literal s = map lit (codes s)

-- The pieces from one place on. Inside braces, `some name` is what stands behind the last "{" that
-- can open a parameter; braces with nothing between them, or not closed, are literal.
unfoldable pub pieces_from : Option String → String → List Piece
unfolding parameter to_lower
pieces_from none String.[] = []
pieces_from none (String.◌∷◌ c s) =
    let inside = pieces_from (some "") s in
    let outside = lit (code c) ∷ pieces_from none s in
    if nat_eq (code c) b'{' then inside else outside
pieces_from (some name) String.[] = lit b'{' ∷ literal name
pieces_from (some name) (String.◌∷◌ c s) =
    let closed = parameter (to_lower name) ∷ pieces_from none s in
    let bare = lit b'{' ∷ lit b'}' ∷ pieces_from none s in
    let longer = pieces_from (some (name +++ cons c "")) s in
    if nat_eq (code c) b'}' then (if name == "" then bare else closed) else longer

-- compile, of one pattern
unfoldable pub compile : String → List Piece
unfolding pieces_from
compile pattern = pieces_from none pattern

-- What may follow `k` more characters of a class, at most `most` of them.
unfoldable pub match_run : (ℕ → Bool) → ℕ → ℕ → (String → Bool) → String → Bool
match_run class zero most rest String.[] = rest String.[]
match_run class (suc k) most rest String.[] = false
match_run class k zero rest (String.◌∷◌ c s) = if nat_eq k 0 then rest (cons c s) else false
match_run class zero (suc most) rest (String.◌∷◌ c s) =
    let more = match_run class zero most rest s in rest (cons c s) || (class (code c) && more)
match_run class (suc k) (suc most) rest (String.◌∷◌ c s) =
    let more = match_run class k most rest s in class (code c) && more

-- MatchString of the anchored expression
unfoldable pub matches : List Piece → String → Bool
unfolding match_run
matches [] s = s == ""
matches (lit d ∷ ps) String.[] = false
matches (lit d ∷ ps) (String.◌∷◌ c s) = nat_eq (code c) d && matches ps s
matches (run class least most ∷ ps) s = match_run class least most (matches ps) s
