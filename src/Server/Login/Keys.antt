-- ===== src/Server/Login/Keys.antt =====
-- internal/server/server.go: the key set of Telegram, and the claims' small parts. The base64 decoding, the check of
-- a signature and the answers of Telegram are given by a LoginEnv.
use remnaguard.Prelude.{
  ℕ, ◌+◌, ◌*◌, ◌%◌, String, Bool, false, not, Option, none, some, List, [], ◌∷◌, ◌&&◌, ◌||◌,
  if◌then◌else◌, ◌==◌, ltb, trim_space, ℤ, pos, atoi,
}
use remnaguard.Config.{contains}
use remnaguard.Json.{Json, array, Items, no_items, item, Fields}
use remnaguard.Json.Unmarshal.{unmarshal_string, unmarshal_strings, unmarshal_number}
use remnaguard.Server.Request.{Outcome, ok, err}
use remnaguard.Server.Login.Members.{text_member, raw_member, members_of}

-- An answer of Telegram: its status and its body, or none for no answer.
abbrev pub Answer : Type 0
Answer = Option (ℕ × String)

-- `random_token` is what randomURLToken makes of the bytes of a draw; `post_code` is the answer to the form
-- with a code, a verifier and a client; `get_keys` that of the key set; `verify_rs256` checks a text's
-- signature by a key of a modulus and an exponent.
pub record LoginEnv : Type 0 where
  pub now : ℕ
  pub getenv : String → String
  pub random_token : ℕ → ℕ → Option String
  pub decode_base64 : String → Option (List ℕ)
  pub text_of : List ℕ → Option Json
  pub first_value : String → Option Json
  pub post_code : List (String × String) → Answer
  pub get_keys : Answer
  pub verify_rs256 : List ℕ → ℕ → String → List ℕ → Bool
  pub itoa : ℕ → String
  pub cookie : String → Option String

abbrev pub oauth_invalid : String
oauth_invalid = "telegram_oauth_invalid"

abbrev strings_contain : Option (List String) → String → Bool
strings_contain none want = false
strings_contain (some many) want = contains many want

abbrev audience_in : Json → Option String → String → Bool
audience_in raw (some single) want = single == want
audience_in raw none want = strings_contain (unmarshal_strings raw) want

abbrev audience_of : Option Json → String → Bool
audience_of none want = false
audience_of (some raw) want = audience_in raw (unmarshal_string raw) want

-- audienceContains; none for a missing value
unfoldable pub audience_contains : Option Json → String → Bool
audience_contains raw want =
    let trimmed = trim_space want in if trimmed == "" then false else audience_of raw trimmed

abbrev positive_id : (ℕ → String) → Option ℤ → Option String
positive_id itoa (some (pos n)) = if ltb 0 n then some (itoa n) else none
positive_id itoa _ = none

abbrev id_of_number : (ℕ → String) → Option String → Option String
id_of_number itoa none = none
id_of_number itoa (some n) = positive_id itoa (atoi n)

abbrev id_of_text : (ℕ → String) → Json → Option String → Option String
id_of_text itoa raw none = id_of_number itoa (unmarshal_number raw)
id_of_text itoa raw (some s) =
    let id = trim_space s in
    if not (id == "") then some id else id_of_number itoa (unmarshal_number raw)

-- telegramIDClaimString; none for the error telegram_oauth_invalid
unfoldable pub telegram_id_claim_string : (ℕ → String) → Option Json → Option String
telegram_id_claim_string itoa none = none
telegram_id_claim_string itoa (some raw) = id_of_text itoa raw (unmarshal_string raw)

-- The loop over an exponent's bytes, on an int of 64 bits.
unfoldable pub exponent_of : ℕ → List ℕ → ℕ
exponent_of e [] = e
exponent_of e (b ∷ bytes) = exponent_of ((e * 256 + b) % 18446744073709551616) bytes

abbrev key_of_bytes : Option (List ℕ) → Option (List ℕ) → Option (List ℕ × ℕ)
key_of_bytes (some (n ∷ ns)) (some (b ∷ bytes)) =
    let e = exponent_of 0 (b ∷ bytes) in
    if ltb e 3 || not (ltb e 9223372036854775808) then none else some (n ∷ ns, e)
key_of_bytes _ _ = none

-- rsaPublicKeyFromJWK: the modulus's bytes and the exponent
unfoldable pub rsa_public_key_from_jwk : LoginEnv → String → String → Option (List ℕ × ℕ)
unfolding exponent_of
rsa_public_key_from_jwk l n_raw e_raw = key_of_bytes (l.decode_base64 n_raw) (l.decode_base64 e_raw)

pub record Jwk : Type 0 where
  pub kty : String
  pub kid : String
  pub alg : String
  pub n : String
  pub e : String

abbrev jwk_of :
    Option String
    → Option String
    → Option String
    → Option String
    → Option String
    → Option String
    → Option Jwk
jwk_of (some kty) (some used) (some kid) (some alg) (some n) (some e) =
    some (record { kty = kty; kid = kid; alg = alg; n = n; e = e })
jwk_of _ _ _ _ _ _ = none

abbrev jwk_of_members : Option Fields → Option Jwk
jwk_of_members none = none
jwk_of_members (some fs) =
    jwk_of (text_member "kty" (some "") fs) (text_member "use" (some "") fs)
      (text_member "kid" (some "") fs) (text_member "alg" (some "") fs)
      (text_member "n" (some "") fs) (text_member "e" (some "") fs)

abbrev and_key : Option Jwk → Option (List Jwk) → Option (List Jwk)
and_key (some k) (some ks) = some (k ∷ ks)
and_key _ _ = none

unfoldable pub keys_in : Items → Option (List Jwk)
unfolding members_of text_member
keys_in no_items = some []
keys_in (item v vs) = and_key (jwk_of_members (members_of (some v))) (keys_in vs)

-- Whether a key of the set is the one that a token's header names.
abbrev pub is_wanted : String → Jwk → Bool
is_wanted kid k =
    k.kid == kid && k.kty == "RSA" && k.alg == "RS256" && not (k.n == "") && not (k.e == "")

unfoldable pub find_jwk : String → List Jwk → Option Jwk
find_jwk kid [] = none
find_jwk kid (k ∷ ks) = let rest = find_jwk kid ks in if is_wanted kid k then some k else rest

abbrev keys_of_raw : Option Json → Option (List Jwk)
keys_of_raw none = some []
keys_of_raw (some (array items)) = keys_in items
keys_of_raw (some Json.null) = some []
keys_of_raw (some _) = none

abbrev keys_of_members : Option Fields → Option (List Jwk)
keys_of_members none = none
keys_of_members (some fs) = keys_of_raw (raw_member "keys" none fs)

abbrev key_or_error : Option (List ℕ × ℕ) → Outcome (List ℕ × ℕ)
key_or_error none = err oauth_invalid
key_or_error (some key) = ok key

abbrev key_of_jwk : LoginEnv → Option Jwk → Outcome (List ℕ × ℕ)
key_of_jwk l none = err oauth_invalid
key_of_jwk l (some k) = key_or_error (rsa_public_key_from_jwk l k.n k.e)

abbrev key_among : LoginEnv → String → Option (List Jwk) → Outcome (List ℕ × ℕ)
key_among l kid none = err oauth_invalid
key_among l kid (some ks) = key_of_jwk l (find_jwk kid ks)

abbrev pub is_success : ℕ → Bool
is_success status = not (ltb status 200) && ltb status 300

abbrev key_of_answer : LoginEnv → String → Answer → Outcome (List ℕ × ℕ)
key_of_answer l kid none = err "telegram_oauth_unavailable"
key_of_answer l kid (some (status, body)) =
    if not (is_success status)
    then err "telegram_oauth_unavailable"
    else key_among l kid (keys_of_members (members_of (l.first_value body)))

-- fetchTelegramJWK
unfoldable pub fetch_telegram_jwk : LoginEnv → String → Outcome (List ℕ × ℕ)
unfolding find_jwk rsa_public_key_from_jwk keys_in
fetch_telegram_jwk l kid = key_of_answer l kid l.get_keys
