-- ===== src/CommandLine/Tokens.antt =====
-- cmd/remnaguard/main.go: tokenCmd without its flags, which are arguments here, and without its printing: the
-- token of `add` and `rotate` is the result. A token file is the list of its tokens.
use remnaguard.Prelude.{
  String, true, not, Option, none, some, List, [], ◌∷◌, if◌then◌else◌, ◌==◌, ◌+++◌, keep, map,
  split, trim_space,
}
use remnaguard.Disk.{FileRead, file, missing, unreadable}
use remnaguard.Config.{TokenPolicy, Credential, contains}
use remnaguard.Config.Load.{Loaded, loaded, failed, and_then, Loader}
use remnaguard.Auth.Trips.{token_text}

-- `decode_tokens` and `encode_tokens` are yaml.Unmarshal and yaml.Marshal of a token file, `digest` is
-- auth.Digest, `now_text` the formatted time, and `secret` the text of 32 random bytes, or the error.
pub record Cli (S B : Type 0) : Type 0 where
  pub loader : Loader S B
  pub decode_tokens : B → Loaded (List TokenPolicy)
  pub encode_tokens : List TokenPolicy → Loaded B
  pub digest : String → String → String
  pub now_text : String
  pub secret : Loaded String

-- findTokenDoc
unfoldable pub find_token_doc : List TokenPolicy → String → Option TokenPolicy
find_token_doc [] id = none
find_token_doc (t ∷ ts) id = if t.id == id then some t else find_token_doc ts id

-- A change of the token that findTokenDoc points to.
unfoldable pub edit_token :
    String → (TokenPolicy → TokenPolicy) → List TokenPolicy → List TokenPolicy
edit_token id f [] = []
edit_token id f (t ∷ ts) =
    let rest = edit_token id f ts in if t.id == id then f t ∷ ts else t ∷ rest

-- splitCSV
unfoldable pub split_csv : String → List String
split_csv s = keep (λ part. not (part == "")) (map trim_space (split b',' s))

-- The loop of `disable`.
unfoldable pub disable_credential : String → List Credential → List Credential
disable_credential id [] = []
disable_credential id (c ∷ cs) =
    let rest = disable_credential id cs in
    if c.id == id then record c { disabled = true } ∷ rest else c ∷ rest

-- The loop of `prune`.
unfoldable pub live_credentials : List Credential → List Credential
live_credentials = keep (λ c. not c.disabled)

-- What loadTokenDocForEdit finds: the tokens of a file, and its path.
pub record TokenDoc : Type 0 where
  pub tokens : List TokenPolicy
  pub path : String

module _ {S B : Type 0} (c : Cli S B) where
  -- makeCredential: the token and its digest
  unfoldable pub make_credential : S → String → Loaded (String × String)
  make_credential s id =
      let pepper = (c.loader.sys s).getenv "REMNAGUARD_TOKEN_PEPPER" in
      if pepper == ""
      then failed "REMNAGUARD_TOKEN_PEPPER is required"
      else and_then c.secret (λ secret. loaded (token_text id secret, c.digest secret pepper))

  -- tokenFile
  unfoldable pub token_file : String → String → String → String
  token_file cfg_path explicit id =
      if not (explicit == "")
      then explicit
      else c.loader.join (c.loader.dir cfg_path ∷ "tokens.d" ∷ (id +++ ".yaml") ∷ [])

  abbrev pub decoded_tokens : FileRead B → Loaded (List TokenPolicy)
  decoded_tokens (file b) = c.decode_tokens b
  decoded_tokens missing = loaded []
  decoded_tokens (unreadable e) = failed e

  -- readTokenFile
  unfoldable pub read_token_file : S → String → Loaded (List TokenPolicy)
  read_token_file s path = decoded_tokens (c.loader.disk.read_file s path)

  abbrev glob_matches : Loaded (List String) → List String
  glob_matches (loaded paths) = paths
  glob_matches (failed e) = []

  abbrev pub found_or :
      String → List TokenPolicy → Option TokenPolicy → Loaded TokenDoc → Loaded TokenDoc
  found_or path tokens none next = next
  found_or path tokens (some tok) next = loaded (record { tokens = tokens; path = path })

  -- The loop of loadTokenDocForEdit over its candidates.
  unfoldable pub first_with_token : S → String → List String → List String → Loaded TokenDoc
  unfolding read_token_file find_token_doc
  first_with_token s id seen [] = failed "token not found"
  first_with_token s id seen (path ∷ paths) =
      let skipped = first_with_token s id seen paths in
      let next = first_with_token s id (path ∷ seen) paths in
      if contains seen path
      then skipped
      else and_then (read_token_file s path)
          (λ tokens. found_or path tokens (find_token_doc tokens id) next)

  -- loadTokenDocForEdit
  unfoldable pub load_token_doc_for_edit : S → String → String → String → Loaded TokenDoc
  unfolding first_with_token token_file
  load_token_doc_for_edit s cfg_path explicit id =
      let pattern = c.loader.join (c.loader.dir cfg_path ∷ "tokens.d" ∷ "*.yaml" ∷ []) in
      first_with_token s id [] (
        if not (explicit == "")
        then explicit ∷ []
        else token_file cfg_path "" id ∷ glob_matches (c.loader.glob s pattern))
