-- ===== src/CommandLine/Commands.antt =====
-- cmd/remnaguard/main.go: the commands of tokenCmd that edit a token file.
use remnaguard.Prelude.{
  String, Bool, true, false, not, Option, none, some, List, [], ◌∷◌, ◌++◌, ◌||◌, if◌then◌else◌,
  ◌==◌, any,
}
use remnaguard.Config.{TokenPolicy, Credential}
use remnaguard.Config.Defaults.{empty_constraints}
use remnaguard.Config.Load.{Loaded, loaded, failed}
use remnaguard.CommandLine.Tokens.{
  Cli, TokenDoc, find_token_doc, edit_token, split_csv, disable_credential, live_credentials,
  make_credential, token_file, read_token_file, load_token_doc_for_edit,
}
use remnaguard.CommandLine.Save.{write_token_file}

-- What a command prints, or its error.
pub data Printed : Type 0 where
  printed : String → Printed
  refused : String → Printed

abbrev pub printing : {S : Type 0} → String → S × Option String → S × Printed
printing text (s, none) = (s, printed text)
printing text (s, some e) = (s, refused e)

module _ {S B : Type 0} (c : Cli S B) (cfg_path : String) where
  abbrev pub saved : String → TokenDoc → S → S × Printed
  saved text doc s = printing text (write_token_file c doc.path doc.tokens cfg_path s)

  abbrev pub on_doc : S → Loaded TokenDoc → (TokenDoc → S × Printed) → S × Printed
  on_doc s (loaded doc) next = next doc
  on_doc s (failed e) next = (s, refused e)

  abbrev pub on_credential :
      S → Loaded (String × String) → (String → String → S × Printed) → S × Printed
  on_credential s (loaded (token, digest)) next = next token digest
  on_credential s (failed e) next = (s, refused e)

  abbrev pub on_tokens :
      S → Loaded (List TokenPolicy) → (List TokenPolicy → S × Printed) → S × Printed
  on_tokens s (loaded tokens) next = next tokens
  on_tokens s (failed e) next = (s, refused e)

  abbrev pub new_credential : String → String → Credential
  new_credential id digest = record { id = id; hmac_sha256 = digest; disabled = false }

  abbrev pub new_token : String → String → Credential → TokenPolicy
  new_token id scopes cred = record {
    id = id;
    credentials = cred ∷ [];
    scopes = split_csv scopes;
    disabled = false;
    constraints = empty_constraints;
  }

  abbrev pub absent : Option TokenPolicy → Bool
  absent none = true
  absent (some t) = false

  -- token add
  unfoldable pub token_add : String → String → String → String → S → S × Printed
  unfolding make_credential token_file read_token_file find_token_doc split_csv
  token_add id cred_id scopes explicit s =
      let path = token_file c cfg_path explicit id in
      if id == ""
      then (s, refused "--id is required")
      else on_credential s (make_credential c s cred_id) (λ token digest.
        on_tokens s (read_token_file c s path) (λ tokens.
          if not (absent (find_token_doc tokens id))
          then (s, refused "token already exists")
          else saved token
              (record {
                tokens = tokens ++ (new_token id scopes (new_credential cred_id digest) ∷ []);
                path = path;
              })
              s))

  abbrev pub edited : String → (List Credential → List Credential) → TokenDoc → TokenDoc
  edited id f doc = record doc {
    tokens = edit_token id (λ t. record t { credentials = f t.credentials }) doc.tokens;
  }

  -- token rotate
  unfoldable pub token_rotate : String → String → String → S → S × Printed
  unfolding make_credential load_token_doc_for_edit edit_token
  token_rotate id cred_id explicit s =
      if id == ""
      then (s, refused "--id is required")
      else on_doc s (load_token_doc_for_edit c s cfg_path explicit id) (λ doc.
        on_credential s (make_credential c s cred_id) (λ token digest.
          saved token (edited id (λ cs. cs ++ (new_credential cred_id digest ∷ [])) doc) s))

  abbrev pub has_credential : String → Option TokenPolicy → Bool
  has_credential id none = false
  has_credential id (some t) = any (λ cr. cr.id == id) t.credentials

  -- token disable
  unfoldable pub token_disable : String → String → String → S → S × Printed
  unfolding load_token_doc_for_edit edit_token disable_credential find_token_doc
  token_disable id cred_id explicit s =
      if id == "" || cred_id == ""
      then (s, refused "--id and --credential are required")
      else on_doc s (load_token_doc_for_edit c s cfg_path explicit id) (λ doc.
        if not (has_credential cred_id (find_token_doc doc.tokens id))
        then (s, refused "credential not found")
        else saved "" (edited id (disable_credential cred_id) doc) s)

  -- token prune
  unfoldable pub token_prune : String → String → S → S × Printed
  unfolding load_token_doc_for_edit edit_token live_credentials
  token_prune id explicit s =
      if id == ""
      then (s, refused "--id is required")
      else on_doc s (load_token_doc_for_edit c s cfg_path explicit id)
          (λ doc. saved "" (edited id live_credentials doc) s)
