-- ===== src/CommandLine/Changed.antt =====
-- cmd/remnaguard/main.go: what `token disable` and `token prune` change of the credentials that
-- FindCredential finds in a token.
use remnaguard.Prelude.{
  String, Bool, true, false, not, none, List, [], ◌∷◌, if◌then◌else◌, ◌==◌, ◌||◌, ◌≡◌, refl, ap,
  sym, ◌∙◌, arith, eq_iff, subst, All, Bool-cases, inl, inr,
}
use remnaguard.Disk.{IsLawful}
use remnaguard.Config.{Credential, enabled_credential}
use remnaguard.CommandLine.Tokens.{
  Cli, TokenDoc, find_token_doc, disable_credential, live_credentials, load_token_doc_for_edit,
}
use remnaguard.CommandLine.Commands.{
  Printed, printed, refused, saved, on_doc, edited, has_credential, token_disable, token_prune,
}
use remnaguard.CommandLine.Edited.{
  IsChanged, ReadsBack, load_token_doc_for_edit-IsFound, on_doc-printed, saved-IsChanged,
}

enabled_credential-disable :
    (id x : String) (cs : List Credential)
    → enabled_credential x (disable_credential id cs)
      ≡ (if id == x then none else enabled_credential x cs)
unfolding enabled_credential disable_credential
enabled_credential-disable id x [] = ground arith
enabled_credential-disable id x (k ∷ cs) =
    ground (arith, enabled_credential-disable id x cs, eq_iff k.id id, eq_iff k.id x, eq_iff id x)

enabled_credential-live :
    (x : String) (cs : List Credential)
    → enabled_credential x (live_credentials cs) ≡ enabled_credential x cs
unfolding enabled_credential live_credentials
enabled_credential-live x [] = refl
enabled_credential-live x (k ∷ cs) = ground (arith, enabled_credential-live x cs)

live_credentials-All : (cs : List Credential) → All (λ k. k.disabled ≡ false) (live_credentials cs)
unfolding live_credentials
live_credentials-All [] = tt
live_credentials-All (k ∷ cs) = elim (Bool-cases k.disabled) [
  | inl e ↦ rw e (live_credentials-All cs)
  | inr e ↦ rw e (refl, live_credentials-All cs)
]

pub guard-printed :
    {S : Type 0} (b : Bool) (s : S) (e out : String) (r : S × Printed)
    → (if◌then◌else◌ {A = S × Printed} b (s, refused e) r).1 ≡ printed out
    → (if◌then◌else◌ {A = S × Printed} b (s, refused e) r) ≡ r
guard-printed true s e out r h = absurd (ground (arith, h))
guard-printed false s e out r h = refl

pub after_first :
    {S : Type 0} (a b : S × Printed) (out : String) → a ≡ b → a.1 ≡ printed out → b.1 ≡ printed out
after_first a b out same h = ap (λ r. r.1) (sym same) ∙ h

module _ {S B : Type 0} (c : Cli S B) (cfg_path : String) (law : IsLawful c.loader.disk)
    (back : ReadsBack c) where
  -- A command that goes on from the file of the named token, if it prints no error.
  pub loaded-IsChanged :
      (f : List Credential → List Credential) (id explicit text out : String) (s : S)
      (next : TokenDoc → S × Printed) (r : S × Printed)
      → r ≡ on_doc c cfg_path s (load_token_doc_for_edit c s cfg_path explicit id) next
      → ((doc : TokenDoc)
          → (next doc).1 ≡ printed out
          → next doc ≡ saved c cfg_path text (edited c cfg_path id f doc) s)
      → r.1 ≡ printed out
      → IsChanged c f id s r.0
  loaded-IsChanged f id explicit text out s next r first saves h =
      let o = load_token_doc_for_edit c s cfg_path explicit id in
      let h1 = after_first r _ out first h in
      let (doc, found, second) = on_doc-printed c cfg_path s o next out h1 in
      let h2 = after_first _ (next doc) out second h1 in
      let third = saves doc h2 in
      let result = saved c cfg_path text (edited c cfg_path id f doc) s in
      subst (λ (x : S × Printed). IsChanged c f id s x.0) (sym (first ∙ second ∙ third))
        (saved-IsChanged c cfg_path law back f id text out doc s
          (load_token_doc_for_edit-IsFound c s cfg_path explicit id doc found)
          (after_first (next doc) result out third h2))

  -- If `token disable` prints no error, a token file that had the token has it still, with credentials among
  -- which FindCredential does not find the disabled one, and finds every other as before.
  pub token_disable-IsChanged :
      (id cred_id explicit out : String) (s : S)
      → (token_disable c cfg_path id cred_id explicit s).1 ≡ printed out
      → (change : IsChanged c
          (disable_credential cred_id)
          id
          s
          (token_disable c cfg_path id cred_id explicit s).0)
        × ((x : String)
            → enabled_credential x (disable_credential cred_id change.token.credentials)
              ≡ (if cred_id == x then none else enabled_credential x change.token.credentials))
  unfolding token_disable
  token_disable-IsChanged id cred_id explicit out s h = (
    loaded-IsChanged (disable_credential cred_id) id explicit "" out s _ _
        (guard-printed (id == "" || cred_id == "") s _ out _ h)
        (λ doc.
          guard-printed (not (has_credential c cfg_path cred_id (find_token_doc doc.tokens id))) s _
            out _)
        h,
    λ x. enabled_credential-disable cred_id x _,
  )

  -- If `token prune` prints no error, a token file that had the token has it still, without disabled credentials,
  -- and FindCredential finds in it what it found before.
  pub token_prune-IsChanged :
      (id explicit out : String) (s : S)
      → (token_prune c cfg_path id explicit s).1 ≡ printed out
      → (change : IsChanged c live_credentials id s (token_prune c cfg_path id explicit s).0) × All
          (λ k. k.disabled ≡ false)
          (live_credentials change.token.credentials)
        × ((x : String)
            → enabled_credential x (live_credentials change.token.credentials)
              ≡ enabled_credential x change.token.credentials)
  unfolding token_prune
  token_prune-IsChanged id explicit out s h =
      let change =
        loaded-IsChanged live_credentials id explicit "" out s _ _
          (guard-printed (id == "") s _ out _ h) (λ doc _. refl) h in
      (
        change,
        live_credentials-All change.token.credentials,
        λ x. enabled_credential-live x change.token.credentials,
      )
