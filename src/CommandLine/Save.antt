-- ===== src/CommandLine/Save.antt =====
-- cmd/remnaguard/main.go: writeTokenFileWithValidation, from a state of the file system to the state after it
-- and the error, if there is one.
use remnaguard.Prelude.{String, Option, none, some, List, if◌then◌else◌, ◌+++◌}
use remnaguard.Disk.{FileRead, file, missing, unreadable, Created, created, not_created}
use remnaguard.Config.{Config, TokenPolicy}
use remnaguard.Config.Load.{Loaded, loaded, failed, load}
use remnaguard.CommandLine.Tokens.{Cli}

-- The path of the copy, or the error, after the state.
pub data Backup : Type 0 where
  no_backup : Backup
  backup : String → Backup
  not_copied : String → Backup

-- One step of a function that returns at its first error.
abbrev pub step : {S : Type 0} → S × Option String → (S → S × Option String) → S × Option String
step (s, none) next = next s
step (s, some e) next = (s, some e)

module _ {S B : Type 0} (c : Cli S B) (path : String) where
  abbrev pub backup_name : String
  backup_name = path +++ "." +++ c.now_text +++ ".bak"

  abbrev pub copied_to : String → S × Option String → S × Backup
  copied_to name (s, none) = (s, backup name)
  copied_to name (s, some e) = (s, not_copied e)

  abbrev pub copy_of : S → FileRead B → S × Backup
  copy_of s (file b) = copied_to backup_name (c.loader.disk.write_file backup_name b s)
  copy_of s missing = (s, not_copied "file does not exist")
  copy_of s (unreadable e) = (s, not_copied e)

  -- The copy of a file that is there.
  unfoldable pub back_up : S → S × Backup
  back_up s =
      if c.loader.disk.stat_ok s path
      then copy_of s (c.loader.disk.read_file s path)
      else (s, no_backup)

  -- An error before the temporary file is closed: it is closed on the way out.
  abbrev pub step_or_close :
      String → S × Option String → (S → S × Option String) → S × Option String
  step_or_close name (s, none) next = next s
  step_or_close name (s, some e) next = ((c.loader.disk.close name s).0, some e)

  abbrev pub rolled_back : Backup → S → S
  rolled_back (backup name) s = (c.loader.disk.rename name path s).0
  rolled_back _ s = s

  -- The configuration is loaded again, and the copy put back if that fails.
  abbrev pub revalidated : Backup → S → Loaded Config → S × Option String
  revalidated copy s (loaded cfg) = (s, none)
  revalidated copy s (failed e) =
      (rolled_back copy s, some ("validation failed after token edit: " +++ e))

  unfoldable pub put_in_place : String → Backup → String → B → S → S × Option String
  put_in_place cfg_path copy name text s = step_or_close name (c.loader.disk.chmod name s) (λ s1.
      step_or_close name (c.loader.disk.write name text s1) (λ s2.
        step_or_close name (c.loader.disk.sync name s2) (λ s3.
          step (c.loader.disk.close name s3) (λ s4.
            step (c.loader.disk.rename name path s4)
              (λ s5. revalidated copy s5 (load c.loader s5 cfg_path))))))

  -- The deferred removal of the temporary file.
  abbrev pub without_temp : String → S × Option String → S × Option String
  without_temp name (s, e) = (c.loader.disk.remove name s, e)

  abbrev pub with_temp : String → Backup → B → S × Created → S × Option String
  with_temp cfg_path copy text (s, not_created e) = (s, some e)
  with_temp cfg_path copy text (s, created name) =
      without_temp name (put_in_place cfg_path copy name text s)

  abbrev pub with_text : String → Backup → S → Loaded B → S × Option String
  with_text cfg_path copy s (failed e) = (s, some e)
  with_text cfg_path copy s (loaded text) =
      with_temp cfg_path copy text (c.loader.disk.create_temp (c.loader.dir path) s)

  abbrev pub with_backup : String → List TokenPolicy → S × Backup → S × Option String
  with_backup cfg_path tokens (s, not_copied e) = (s, some e)
  with_backup cfg_path tokens (s, copy) = with_text cfg_path copy s (c.encode_tokens tokens)

  -- writeTokenFileWithValidation
  unfoldable pub write_token_file : List TokenPolicy → String → S → S × Option String
  unfolding back_up put_in_place
  write_token_file tokens cfg_path s =
      step (c.loader.disk.mkdir_all (c.loader.dir path) s)
        (λ s1. with_backup cfg_path tokens (back_up s1))
