-- ===== src/Disk.antt =====
-- What the program uses of the file system, over an unknown state: the operations of Go's package os, and
-- what they promise. Modelled for internal/config/config.go and cmd/remnaguard/main.go.
use remnaguard.Prelude.{String, Bool, true, Option, none, some, ◌≡◌, ◌≢◌}

-- What os.ReadFile gives, with B for what a file holds.
pub data FileRead (B : Type 0) : Type 0 where
  file : B → FileRead B
  missing : FileRead B
  unreadable : String → FileRead B

-- The name of a new temporary file, or the error.
pub data Created : Type 0 where
  created : String → Created
  not_created : String → Created

pub record Disk (S B : Type 0) : Type 0 where
  pub read_file : S → String → FileRead B
  pub stat_ok : S → String → Bool
  pub mkdir_all : String → S → S × Option String
  pub write_file : String → B → S → S × Option String
  pub create_temp : String → S → S × Created
  -- Chmod, Write, Sync and Close of the file that create_temp has opened under the name
  pub chmod : String → S → S × Option String
  pub write : String → B → S → S × Option String
  pub sync : String → S → S × Option String
  pub close : String → S → S × Option String
  pub rename : String → String → S → S × Option String
  pub remove : String → S → S

-- An operation on one name leaves what is read under every other name, and what a file holds survives an
-- operation that does not write it. The names are taken to be of different files, without links, and
-- nobody else writes the files meanwhile.
pub record IsLawful {S B : Type 0} (d : Disk S B) : Type 0 where
  pub stat_read : (s : S) (p : String) (t : B) → d.read_file s p ≡ file t → d.stat_ok s p ≡ true
  pub read_mkdir_all :
      (s : S) (q p : String) (t : B)
      → d.read_file s p ≡ file t
      → d.read_file (d.mkdir_all q s).0 p ≡ file t
  pub read_write_file :
      (s : S) (q : String) (b : B) (p : String)
      → p ≢ q
      → d.read_file (d.write_file q b s).0 p ≡ d.read_file s p
  pub read_written_file :
      (s : S) (q : String) (b : B)
      → (d.write_file q b s).1 ≡ none
      → d.read_file (d.write_file q b s).0 q ≡ file b
  -- The temporary file is new.
  pub read_create_temp :
      (s : S) (q p : String) (t : B)
      → d.read_file s p ≡ file t
      → d.read_file (d.create_temp q s).0 p ≡ file t
  pub temp_is_new :
      (s : S) (q n p : String) (t : B)
      → d.read_file s p ≡ file t
      → (d.create_temp q s).1 ≡ created n
      → p ≢ n
  pub read_chmod : (s : S) (q p : String) → p ≢ q → d.read_file (d.chmod q s).0 p ≡ d.read_file s p
  pub read_write :
      (s : S) (q : String) (b : B) (p : String)
      → p ≢ q
      → d.read_file (d.write q b s).0 p ≡ d.read_file s p
  pub read_written :
      (s : S) (q : String) (b : B)
      → (d.write q b s).1 ≡ none
      → d.read_file (d.write q b s).0 q ≡ file b
  pub read_sync : (s : S) (q p : String) → d.read_file (d.sync q s).0 p ≡ d.read_file s p
  pub read_close : (s : S) (q p : String) → d.read_file (d.close q s).0 p ≡ d.read_file s p
  pub read_unrenamed :
      (s : S) (a b p e : String)
      → (d.rename a b s).1 ≡ some e
      → d.read_file (d.rename a b s).0 p ≡ d.read_file s p
  pub read_renamed :
      (s : S) (a b : String)
      → (d.rename a b s).1 ≡ none
      → d.read_file (d.rename a b s).0 b ≡ d.read_file s a
  pub read_rename :
      (s : S) (a b p : String) → p ≢ a → p ≢ b → d.read_file (d.rename a b s).0 p ≡ d.read_file s p
  pub read_remove : (s : S) (q p : String) → p ≢ q → d.read_file (d.remove q s) p ≡ d.read_file s p
