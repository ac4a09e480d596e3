-- ===== src/CommandLine/Kept.antt =====
-- cmd/remnaguard/main.go: what writeTokenFileWithValidation leaves of a token file that was there.
use text.Mathlib.TextPositions.{len-append}
use remnaguard.Prelude.{
  String, Option, none, some, ◌+++◌, ◌≡◌, ◌≢◌, ◌⊎◌, inl, inr, refl, ap, ◌∙◌, arith, len, subst,
}
use remnaguard.Disk.{IsLawful, file}
use remnaguard.Config.{Config}
use remnaguard.Config.Load.{Loaded, loaded, failed, load}
use remnaguard.CommandLine.Tokens.{Cli}
use remnaguard.CommandLine.Save.{
  backup, step, backup_name, step_or_close, revalidated, put_in_place,
}

longer_differs : (p q : String) → len q ≢ 0 → p +++ q ≢ p
longer_differs p q h same = h (omega (arith, len-append p q, ap len same))

pub backup_differs : (p q : String) → p +++ "." +++ q ≢ p
backup_differs p q = longer_differs p ("." +++ q) (λ e. omega (arith, len-append "." q, e))

module _ {S B : Type 0} (c : Cli S B) (path : String) where
  abbrev pub Holds : S → String → B → Type 0
  Holds s p t = c.loader.disk.read_file s p ≡ file t

  -- The copy has the text, and the rename that should put it back, as the file, has failed.
  abbrev pub IsStranded : B → S → Type 0
  IsStranded old s =
      Holds s (backup_name c path) old
      × (before : S) × (e : String) × Holds before (backup_name c path) old
      × ((c.loader.disk.rename (backup_name c path) path before).1 ≡ some e)

  -- After an error the file is as it was, or its copy could not be put back. Without one, the file has the new text, with which the
  -- configuration was loaded, and the copy has the old text.
  abbrev pub EditOf : String → B → Loaded B → S × Option String → Type 0
  EditOf cfg_path old text (s, some e) = Holds s path old ⊎ IsStranded old s
  EditOf cfg_path old text (s, none) =
      (written : B) × (cfg : Config) × (before : S) × (text ≡ loaded written)
      × Holds s path written
      × Holds s (backup_name c path) old
      × Holds before path written
      × (load c.loader before cfg_path ≡ loaded cfg)

  pub record IsEdit (cfg_path : String) (old : B) (text : Loaded B) (r : S × Option String)
      : Type 0 where
    pub at : EditOf cfg_path old text r

  module _ (law : IsLawful c.loader.disk) (cfg_path : String) (old : B) where
    abbrev Both : S → Type 0
    Both s = Holds s path old × Holds s (backup_name c path) old

    module _ (text : Loaded B) where
      abbrev Edit : S × Option String → Type 0
      Edit = IsEdit cfg_path old text

      pub step-IsEdit :
          (r : S × Option String) (next : S → S × Option String)
          → ((e : String) → r.1 ≡ some e → Edit (r.0, some e))
          → (r.1 ≡ none → Edit (next r.0))
          → Edit (step r next)
      step-IsEdit (s, none) next stop go = go refl
      step-IsEdit (s, some e) next stop go = stop e refl

      step_or_close-IsEdit :
          (name : String) (r : S × Option String) (next : S → S × Option String)
          → Holds r.0 path old
          → (r.1 ≡ none → Edit (next r.0))
          → Edit (step_or_close c path name r next)
      step_or_close-IsEdit name (s, none) next kept go = go refl
      step_or_close-IsEdit name (s, some e) next kept go = record {
        at = inl (law.read_close s name path ∙ kept);
      }

      pub error-IsEdit :
          (s : S) (e : String) → Holds s path old ⊎ IsStranded old s → Edit (s, some e)
      error-IsEdit s e h = record { at = h }

      rolled_back-Holds :
          (s : S) (r : S × Option String)
          → c.loader.disk.rename (backup_name c path) path s ≡ r
          → Holds s (backup_name c path) old
          → Holds r.0 path old ⊎ IsStranded old r.0
      rolled_back-Holds s (t, none) same h = inl (
          subst (λ r. c.loader.disk.read_file r.0 path ≡ file old) same
            (law.read_renamed s (backup_name c path) path (ap (λ r. r.1) same) ∙ h))
      rolled_back-Holds s (t, some e) same h = inr (
        subst (λ r. c.loader.disk.read_file r.0 (backup_name c path) ≡ file old) same
            (law.read_unrenamed s (backup_name c path) path (backup_name c path) e
                (ap (λ r. r.1) same)
              ∙ h),
        s,
        e,
        h,
        ap (λ r. r.1) same,
      )

      revalidated-IsEdit :
          (s : S) (written : B) (o : Loaded Config)
          → load c.loader s cfg_path ≡ o
          → text ≡ loaded written
          → Holds s path written
          → Holds s (backup_name c path) old
          → Edit (revalidated c path (backup (backup_name c path)) s o)
      revalidated-IsEdit s written (loaded cfg) same t new kept = record {
        at = (written, cfg, s, t, new, kept, new, same);
      }
      revalidated-IsEdit s written (failed e) same t new kept =
          error-IsEdit _ _ (rolled_back-Holds s _ refl kept)

      pub put_in_place-IsEdit :
          (name : String) (written : B) (s : S)
          → path ≢ name
          → backup_name c path ≢ name
          → text ≡ loaded written
          → Both s
          → Edit (put_in_place c path cfg_path (backup (backup_name c path)) name written s)
      unfolding put_in_place
      put_in_place-IsEdit name written s other copy_other t (kept, copied) =
          let d = c.loader.disk in
          let copy = backup_name c path in
          let s1 = (d.chmod name s).0 in
          let s2 = (d.write name written s1).0 in
          let s3 = (d.sync name s2).0 in
          let s4 = (d.close name s3).0 in
          let s5 = (d.rename name path s4).0 in
          let kept1 : Holds s1 path old = law.read_chmod s name path other ∙ kept in
          let kept2 : Holds s2 path old = law.read_write s1 name written path other ∙ kept1 in
          let kept3 : Holds s3 path old = law.read_sync s2 name path ∙ kept2 in
          let kept4 : Holds s4 path old = law.read_close s3 name path ∙ kept3 in
          let copied4 : Holds s4 copy old =
            law.read_close s3 name copy
            ∙ law.read_sync s2 name copy
            ∙ law.read_write s1 name written copy copy_other
            ∙ law.read_chmod s name copy copy_other
            ∙ copied in
          step_or_close-IsEdit name (d.chmod name s) _ kept1 (λ _.
            step_or_close-IsEdit name (d.write name written s1) _ kept2 (λ done.
              step_or_close-IsEdit name (d.sync name s2) _ kept3 (λ _.
                step-IsEdit (d.close name s3) _ (λ e _. error-IsEdit s4 e (inl kept4))
                  (λ _.
                    let new4 : Holds s4 name written =
                      law.read_close s3 name name
                      ∙ law.read_sync s2 name name
                      ∙ law.read_written s1 name written done in
                    step-IsEdit (d.rename name path s4) _
                      (λ e h.
                        error-IsEdit s5 e (inl (law.read_unrenamed s4 name path path e h ∙ kept4)))
                      (λ h.
                        revalidated-IsEdit s5 written (load c.loader s5 cfg_path) refl t
                          (law.read_renamed s4 name path h ∙ new4)
                          (law.read_rename s4 name path copy copy_other
                              (backup_differs path (c.now_text +++ ".bak"))
                            ∙ copied4))))))
