-- ===== src/CommandLine/Rotated.antt =====
-- cmd/remnaguard/main.go: the credential that `token rotate` adds, and the token that it prints.
use remnaguard.Prelude.{
  String, true, not, Option, none, some, List, [], ◌∷◌, ◌++◌, if◌then◌else◌, ◌==◌, ◌&&◌, ◌≡◌, refl,
  sym, ◌∙◌, arith, subst, eq_iff,
}
use remnaguard.Disk.{IsLawful}
use remnaguard.Config.{Credential, enabled_credential, first_of_two}
use remnaguard.Config.Load.{Loaded, loaded, failed}
use remnaguard.Auth.Bearer.{verify}
use remnaguard.Auth.Trips.{token_text}
use remnaguard.CommandLine.Tokens.{Cli, TokenDoc, make_credential, load_token_doc_for_edit}
use remnaguard.CommandLine.Commands.{
  Printed, printed, refused, printing, saved, on_doc, on_credential, edited, new_credential,
  token_rotate,
}
use remnaguard.CommandLine.Edited.{IsChanged, ReadsBack, on_doc-printed}
use remnaguard.CommandLine.Changed.{loaded-IsChanged, guard-printed, after_first}

enabled_credential-append :
    (x : String) (k : Credential) (cs : List Credential)
    → enabled_credential x (cs ++ (k ∷ []))
      ≡ first_of_two
          (enabled_credential x cs)
          (if k.id == x && not k.disabled then some k else none)
unfolding enabled_credential
enabled_credential-append x k [] = refl
enabled_credential-append x k (j ∷ cs) = ground (arith, enabled_credential-append x k cs)

printing_text :
    {S : Type 0} (text out : String) (r : S × Option String)
    → (printing text r).1 ≡ printed out
    → text ≡ out
printing_text text out (s, none) h = ground (arith, h)
printing_text text out (s, some e) h = absurd (ground (arith, h))

module _ {S B : Type 0} (c : Cli S B) (cfg_path : String) where
  abbrev added : Credential → List Credential → List Credential
  added k cs = cs ++ (k ∷ [])

  -- What `rotate` does once the arguments are checked.
  abbrev rotated : String → String → String → S → Loaded (String × String) → S × Printed
  rotated id cred_id explicit s o =
      on_doc c cfg_path s (load_token_doc_for_edit c s cfg_path explicit id) (λ doc.
        on_credential c cfg_path s o (λ token digest.
          saved c cfg_path token
            (edited c cfg_path id (added (new_credential c cfg_path cred_id digest)) doc) s))

  made_secret :
      (s : S) (cred_id token digest : String)
      → make_credential c s cred_id ≡ loaded (token, digest)
      → (secret : String) × (c.secret ≡ loaded secret)
        × (token ≡ token_text cred_id secret)
        × (digest ≡ c.digest secret ((c.loader.sys s).getenv "REMNAGUARD_TOKEN_PEPPER"))
  unfolding make_credential
  made_secret s cred_id token digest h = of_secret c.secret refl
    where
      pepper : String
      pepper = (c.loader.sys s).getenv "REMNAGUARD_TOKEN_PEPPER"

      of_secret :
          (o : Loaded String)
          → c.secret ≡ o
          → (secret : String) × (c.secret ≡ loaded secret)
            × (token ≡ token_text cred_id secret)
            × (digest ≡ c.digest secret ((c.loader.sys s).getenv "REMNAGUARD_TOKEN_PEPPER"))
      of_secret (loaded secret) same =
          (secret, same, ground (arith, h, same), ground (arith, h, same))
      of_secret (failed e) same = absurd (ground (arith, h, same))

  -- After a rotation that printed `out`.
  pub record IsRotated (id cred_id out : String) (s after : S) : Type 0 where
    pub secret : String
    pub made : c.secret ≡ loaded secret
    pub shown : out ≡ token_text cred_id secret
    pub digest : String
    pub verified :
        verify c.digest secret
          ((c.loader.sys s).getenv "REMNAGUARD_TOKEN_PEPPER")
          (new_credential c cfg_path cred_id digest)
        ≡ true
    pub change : IsChanged c (added (new_credential c cfg_path cred_id digest)) id s after
    pub found :
        (x : String)
        → enabled_credential x
            (added (new_credential c cfg_path cred_id digest) change.token.credentials)
          ≡ first_of_two
              (enabled_credential x change.token.credentials)
              (if cred_id == x then some (new_credential c cfg_path cred_id digest) else none)

  module _ (law : IsLawful c.loader.disk) (back : ReadsBack c) where
    rotated-IsRotated :
        (id cred_id explicit out : String) (s : S) (o : Loaded (String × String))
        → make_credential c s cred_id ≡ o
        → (rotated id cred_id explicit s o).1 ≡ printed out
        → IsRotated id cred_id out s (rotated id cred_id explicit s o).0
    unfolding verify
    rotated-IsRotated id cred_id explicit out s (failed e) same h =
        let (doc, found, second) =
          on_doc-printed c cfg_path s (load_token_doc_for_edit c s cfg_path explicit id)
            (λ _. (s, refused e)) out h in
        absurd (ground (arith, after_first _ _ out second h))
    rotated-IsRotated id cred_id explicit out s (loaded (token, digest)) same h =
        let (secret, made, shown, digested) = made_secret s cred_id token digest same in
        let k = new_credential c cfg_path cred_id digest in
        let next =
          λ (doc : TokenDoc). saved c cfg_path token (edited c cfg_path id (added k) doc) s in
        let (doc, found, second) =
          on_doc-printed c cfg_path s (load_token_doc_for_edit c s cfg_path explicit id) next out
            h in
        let change =
          loaded-IsChanged c cfg_path law back (added k) id explicit token out s next _ refl
            (λ doc _. refl) h in
        record {
          secret = secret;
          made = made;
          shown = sym (printing_text token out _ (after_first _ _ out second h)) ∙ shown;
          digest = digest;
          verified = (eq_iff _ _).1 (sym digested);
          change = change;
          found = λ x. enabled_credential-append x k change.token.credentials ∙ ground arith;
        }

    -- If `token rotate` prints a token, it is the new secret's, which Verify accepts for the credential added, and
    -- a token file that had the token has it still, with that credential beside those before, which
    -- FindCredential finds as before.
    pub token_rotate-IsRotated :
        (id cred_id explicit out : String) (s : S)
        → (token_rotate c cfg_path id cred_id explicit s).1 ≡ printed out
        → IsRotated id cred_id out s (token_rotate c cfg_path id cred_id explicit s).0
    unfolding token_rotate
    token_rotate-IsRotated id cred_id explicit out s h =
        let first = guard-printed (id == "") s _ out _ h in
        subst (λ (r : S × Printed). IsRotated id cred_id out s r.0) (sym first)
          (rotated-IsRotated id cred_id explicit out s (make_credential c s cred_id) refl
            (after_first _ _ out first h))
