-- ===== src/CommandLine/Restored.antt =====
-- cmd/remnaguard/main.go: the whole of writeTokenFileWithValidation, for a token file that was there.
use remnaguard.Prelude.{String, Option, none, some, List, ◌≡◌, ◌≢◌, inl, inr, refl, sym, ◌∙◌}
use remnaguard.Disk.{IsLawful, Created, created, not_created}
use remnaguard.Config.{TokenPolicy}
use remnaguard.Config.Load.{Loaded, loaded, failed}
use remnaguard.CommandLine.Tokens.{Cli}
use remnaguard.CommandLine.Save.{
  backup, backup_name, copied_to, back_up, without_temp, with_temp, with_text, with_backup,
  write_token_file,
}
use remnaguard.CommandLine.Kept.{
  Holds, IsEdit, error-IsEdit, backup_differs, step-IsEdit, put_in_place-IsEdit,
}

module _ {S B : Type 0} (c : Cli S B) (path : String) (law : IsLawful c.loader.disk)
    (cfg_path : String) (old : B) where
  without_temp-IsEdit :
      (name : String) (text : Loaded B) (r : S × Option String)
      → path ≢ name
      → backup_name c path ≢ name
      → IsEdit c path cfg_path old text r
      → IsEdit c path cfg_path old text (without_temp c path name r)
  without_temp-IsEdit name text (s, some e) other copy_other h =
      error-IsEdit c path law cfg_path old text _ e (elim h.at [
        | inl k ↦ inl (law.read_remove s name path other ∙ k)
        | inr (k, before, f, held, stuck) ↦
            inr (law.read_remove s name (backup_name c path) copy_other ∙ k, before, f, held, stuck)
      ])
  without_temp-IsEdit name text (s, none) other copy_other h =
      let (written, cfg, u, t, new, kept, before, loads) = h.at in
      record {
        at = (
          written,
          cfg,
          u,
          t,
          law.read_remove s name path other ∙ new,
          law.read_remove s name (backup_name c path) copy_other ∙ kept,
          before,
          loads,
        );
      }

  with_temp-IsEdit :
      (written : B) (text : Loaded B) (r : S × Created)
      → text ≡ loaded written
      → Holds c path r.0 path old
      → Holds c path r.0 (backup_name c path) old
      → ((n : String) → r.1 ≡ created n → (path ≢ n) × (backup_name c path ≢ n))
      → IsEdit c path cfg_path old text
          (with_temp c path cfg_path (backup (backup_name c path)) written r)
  with_temp-IsEdit written text (s, not_created e) t kept copied new =
      error-IsEdit c path law cfg_path old text s e (inl kept)
  with_temp-IsEdit written text (s, created n) t kept copied new =
      let (other, copy_other) = new n refl in
      without_temp-IsEdit n text _ other copy_other (
        put_in_place-IsEdit c path law cfg_path old text n written s other copy_other t
          (kept, copied))

  with_text-IsEdit :
      (s : S) (text : Loaded B)
      → Holds c path s path old
      → Holds c path s (backup_name c path) old
      → IsEdit c path cfg_path old text
          (with_text c path cfg_path (backup (backup_name c path)) s text)
  with_text-IsEdit s (failed e) kept copied =
      error-IsEdit c path law cfg_path old (failed e) s e (inl kept)
  with_text-IsEdit s (loaded written) kept copied =
      let dir = c.loader.dir path in
      let copy = backup_name c path in
      with_temp-IsEdit written (loaded written) (c.loader.disk.create_temp dir s) refl
        (law.read_create_temp s dir path old kept) (law.read_create_temp s dir copy old copied)
        (λ n h.
          (law.temp_is_new s dir n path old kept h, law.temp_is_new s dir n copy old copied h))

  copied_to-IsEdit :
      (tokens : List TokenPolicy) (r : S × Option String)
      → Holds c path r.0 path old
      → (r.1 ≡ none → Holds c path r.0 (backup_name c path) old)
      → IsEdit c path cfg_path old
          (c.encode_tokens tokens)
          (with_backup c path cfg_path tokens (copied_to c path (backup_name c path) r))
  copied_to-IsEdit tokens (s, none) kept copied =
      with_text-IsEdit s (c.encode_tokens tokens) kept (copied refl)
  copied_to-IsEdit tokens (s, some e) kept copied =
      error-IsEdit c path law cfg_path old (c.encode_tokens tokens) s e (inl kept)

  back_up-IsEdit :
      (tokens : List TokenPolicy) (s : S)
      → Holds c path s path old
      → IsEdit c path cfg_path old
          (c.encode_tokens tokens)
          (with_backup c path cfg_path tokens (back_up c path s))
  unfolding back_up
  back_up-IsEdit tokens s kept =
      let copy = backup_name c path in
      rw (law.stat_read s path old kept, kept)
        (copied_to-IsEdit tokens (c.loader.disk.write_file copy old s)
          (law.read_write_file s copy old path (λ same. backup_differs path _ (sym same)) ∙ kept)
          (law.read_written_file s copy old))

  -- For a token file that was there: after an error of writeTokenFileWithValidation, the file has the old
  -- text, or its copy has it and the rename that should put the copy back has failed; without an error, the file has the text of the new tokens, a state with that file gave
  -- a valid configuration, and the copy has the old text.
  pub write_token_file-IsEdit :
      (tokens : List TokenPolicy) (s : S)
      → Holds c path s path old
      → IsEdit c path cfg_path old
          (c.encode_tokens tokens)
          (write_token_file c path tokens cfg_path s)
  unfolding write_token_file
  write_token_file-IsEdit tokens s kept =
      let dir = c.loader.dir path in
      let kept1 = law.read_mkdir_all s dir path old kept in
      step-IsEdit c path law cfg_path old (c.encode_tokens tokens) (c.loader.disk.mkdir_all dir s) _
        (λ e _. error-IsEdit c path law cfg_path old (c.encode_tokens tokens) _ e (inl kept1))
        (λ _. back_up-IsEdit tokens (c.loader.disk.mkdir_all dir s).0 kept1)
