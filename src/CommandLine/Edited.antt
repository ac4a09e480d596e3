-- ===== src/CommandLine/Edited.antt =====
-- cmd/remnaguard/main.go: what a command that succeeds has made of the token it names.
use remnaguard.Prelude.{
  String, true, Option, none, some, List, [], ◌∷◌, ◌==◌, ◌≡◌, refl, ap, ◌∙◌, arith, subst,
  Bool-cases, inl, inr,
}
use remnaguard.Disk.{IsLawful, FileRead, file, missing, unreadable}
use remnaguard.Config.{TokenPolicy, Credential, contains}
use remnaguard.Config.Load.{Loaded, loaded, failed, and_then}
use remnaguard.CommandLine.Tokens.{
  Cli, TokenDoc, find_token_doc, edit_token, decoded_tokens, read_token_file, found_or,
  first_with_token, load_token_doc_for_edit,
}
use remnaguard.CommandLine.Save.{write_token_file}
use remnaguard.CommandLine.Kept.{IsEdit}
use remnaguard.CommandLine.Restored.{write_token_file-IsEdit}
use remnaguard.CommandLine.Commands.{Printed, printed, printing, saved, on_doc, edited}

find-edit_token :
    (id : String) (g : TokenPolicy → TokenPolicy) (ts : List TokenPolicy) (t : TokenPolicy)
    → ((u : TokenPolicy) → (g u).id ≡ u.id)
    → find_token_doc ts id ≡ some t
    → find_token_doc (edit_token id g ts) id ≡ some (g t)
unfolding find_token_doc edit_token
find-edit_token id g [] t same h = absurd (ground (arith, h))
find-edit_token id g (u ∷ ts) t same h = elim (Bool-cases (u.id == id)) [
  | inl e ↦
      let found : u ≡ t = ground (arith, h, e) in
      let named : ((g u).id == id) ≡ true = ap (λ x. x == id) (same u) ∙ e in
      rw e (rw named (ap (λ x. some (g x)) found))
  | inr e ↦ rw e (rw e (find-edit_token id g ts t same (ground (arith, h, e))))
]

module _ {S B : Type 0} (c : Cli S B) where
  -- A token file that is there, with a token in it.
  pub record IsFound (s : S) (id : String) (doc : TokenDoc) : Type 0 where
    pub old : B
    pub token : TokenPolicy
    pub kept : c.loader.disk.read_file s doc.path ≡ file old
    pub decodes : c.decode_tokens old ≡ loaded doc.tokens
    pub found : find_token_doc doc.tokens id ≡ some token

  decoded-IsFound :
      (s : S) (id path : String) (tokens : List TokenPolicy) (token : TokenPolicy) (r : FileRead B)
      → c.loader.disk.read_file s path ≡ r
      → decoded_tokens c r ≡ loaded tokens
      → find_token_doc tokens id ≡ some token
      → IsFound s id (record { tokens = tokens; path = path })
  unfolding find_token_doc
  decoded-IsFound s id path tokens token (file b) same d f = record {
    old = b;
    token = token;
    kept = same;
    decodes = d;
    found = f;
  }
  decoded-IsFound s id path [] token missing same d f = absurd (ground (arith, f))
  decoded-IsFound s id path (t ∷ ts) token missing same d f = absurd (ground (arith, d))
  decoded-IsFound s id path tokens token (unreadable e) same d f = absurd (ground (arith, d))

  found_or-IsFound :
      (s : S) (id path : String) (tokens : List TokenPolicy) (o : Option TokenPolicy)
      (next : Loaded TokenDoc) (doc : TokenDoc)
      → find_token_doc tokens id ≡ o
      → read_token_file c s path ≡ loaded tokens
      → (next ≡ loaded doc → IsFound s id doc)
      → found_or c path tokens o next ≡ loaded doc
      → IsFound s id doc
  unfolding read_token_file
  found_or-IsFound s id path tokens none next doc f d rest h = rest h
  found_or-IsFound s id path tokens (some t) next doc f d rest h =
      subst (IsFound s id) (ground (arith, h))
        (decoded-IsFound s id path tokens t (c.loader.disk.read_file s path) refl d f)

  read-IsFound :
      (s : S) (id path : String) (o : Loaded (List TokenPolicy)) (next : Loaded TokenDoc)
      (doc : TokenDoc)
      → read_token_file c s path ≡ o
      → (next ≡ loaded doc → IsFound s id doc)
      → and_then o (λ tokens. found_or c path tokens (find_token_doc tokens id) next) ≡ loaded doc
      → IsFound s id doc
  read-IsFound s id path (failed e) next doc same rest h = absurd (ground (arith, h))
  read-IsFound s id path (loaded tokens) next doc same rest h =
      found_or-IsFound s id path tokens (find_token_doc tokens id) next doc refl same rest h

  first_with_token-IsFound :
      (s : S) (id : String) (seen paths : List String) (doc : TokenDoc)
      → first_with_token c s id seen paths ≡ loaded doc
      → IsFound s id doc
  unfolding first_with_token
  first_with_token-IsFound s id seen [] doc h = absurd (ground (arith, h))
  first_with_token-IsFound s id seen (path ∷ paths) doc h = elim (Bool-cases (contains seen path)) [
    | inl e ↦ first_with_token-IsFound s id seen paths doc (ground (arith, h, e))
    | inr e ↦
        read-IsFound s id path (read_token_file c s path)
          (first_with_token c s id (path ∷ seen) paths) doc refl
          (first_with_token-IsFound s id (path ∷ seen) paths doc) (ground (arith, h, e))
  ]

  pub load_token_doc_for_edit-IsFound :
      (s : S) (cfg_path explicit id : String) (doc : TokenDoc)
      → load_token_doc_for_edit c s cfg_path explicit id ≡ loaded doc
      → IsFound s id doc
  unfolding load_token_doc_for_edit
  load_token_doc_for_edit-IsFound s cfg_path explicit id doc h =
      first_with_token-IsFound s id [] _ doc h

  pub on_doc-printed :
      (cfg_path : String) (s : S) (o : Loaded TokenDoc) (next : TokenDoc → S × Printed)
      (out : String)
      → (on_doc c cfg_path s o next).1 ≡ printed out
      → (doc : TokenDoc) × (o ≡ loaded doc) × (on_doc c cfg_path s o next ≡ next doc)
  on_doc-printed cfg_path s (loaded doc) next out h = (doc, refl, refl)
  on_doc-printed cfg_path s (failed e) next out h = absurd (ground (arith, h))

  printing-printed :
      (text out : String) (r : S × Option String)
      → (printing text r).1 ≡ printed out
      → r ≡ ((printing text r).0, none)
  printing-printed text out (s, none) h = refl
  printing-printed text out (s, some e) h = absurd (ground (arith, h))

  -- From a state to the state after a command: the named token of a file has other credentials, and no token of
  -- the file before it has its id.
  pub record IsChanged (f : List Credential → List Credential) (id : String) (s after : S)
      : Type 0 where
    pub path : String
    pub tokens : List TokenPolicy
    pub token : TokenPolicy
    pub was : read_token_file c s path ≡ loaded tokens
    pub had : find_token_doc tokens id ≡ some token
    pub new_tokens : List TokenPolicy
    pub is : read_token_file c after path ≡ loaded new_tokens
    pub has :
        find_token_doc new_tokens id ≡ some (record token { credentials = f token.credentials })

  -- What encode_tokens writes, decode_tokens reads back.
  abbrev pub ReadsBack : Type 0
  ReadsBack =
      (tokens : List TokenPolicy) (text : B)
      → c.encode_tokens tokens ≡ loaded text
      → c.decode_tokens text ≡ loaded tokens

  pub saved-IsChanged :
      (cfg_path : String)
      → IsLawful c.loader.disk
      → ReadsBack
      → (f : List Credential → List Credential) (id text out : String) (doc : TokenDoc) (s : S)
      → IsFound s id doc
      → (saved c cfg_path text (edited c cfg_path id f doc) s).1 ≡ printed out
      → IsChanged f id s (saved c cfg_path text (edited c cfg_path id f doc) s).0
  unfolding read_token_file
  saved-IsChanged cfg_path law back f id text out doc s was h =
      let next = edited c cfg_path id f doc in
      let r = write_token_file c doc.path next.tokens cfg_path s in
      let edit =
        subst
          (λ (x : S × Option String).
            IsEdit c doc.path cfg_path was.old (c.encode_tokens next.tokens) x)
          (printing-printed text out r h)
          (write_token_file-IsEdit c doc.path law cfg_path was.old next.tokens s was.kept) in
      let (written, _, _, encoded, new, _, _, _) = edit.at in
      record {
        path = doc.path;
        tokens = doc.tokens;
        token = was.token;
        was = ap (decoded_tokens c) was.kept ∙ was.decodes;
        had = was.found;
        new_tokens = next.tokens;
        is = ap (decoded_tokens c) new ∙ back next.tokens written encoded;
        has = find-edit_token id _ doc.tokens was.token (λ u. refl) was.found;
      }
