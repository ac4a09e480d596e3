-- ===== src/Config/Load.antt =====
-- internal/config/config.go: Load and loadInto. The YAML decoder, filepath and the state of the system are
-- parameters.
use remnaguard.Prelude.{String, Option, none, some, List, [], ◌∷◌, ◌++◌}
use remnaguard.Disk.{Disk, FileRead, file, missing, unreadable}
use remnaguard.Config.Types.{Config, TokenPolicy}
use remnaguard.Config.Defaults.{empty_config, defaults}
use remnaguard.Config.Parts.{System}
use remnaguard.Config.Validate.{validate}

-- A result or an error's text.
pub data Loaded (A : Type 0) : Type 0 where
  loaded : A → Loaded A
  failed : String → Loaded A

abbrev pub and_then : {A B : Type 0} → Loaded A → (A → Loaded B) → Loaded B
and_then (loaded a) f = f a
and_then (failed e) f = failed e

-- `sys` is what the system gives in a state; `decode` is yaml.Unmarshal onto a configuration.
pub record Loader (S B : Type 0) : Type 0 where
  pub disk : Disk S B
  pub sys : S → System
  pub decode : B → Config → Loaded Config
  pub glob : S → String → Loaded (List String)
  pub dir : String → String
  pub join : List String → String

module _ {S B : Type 0} (l : Loader S B) where
  abbrev pub decode_into : FileRead B → Config → Loaded Config
  decode_into (file b) cfg = l.decode b cfg
  decode_into missing cfg = failed "file does not exist"
  decode_into (unreadable e) cfg = failed e

  -- loadInto
  unfoldable pub load_into : S → String → Config → Loaded Config
  load_into s path cfg = decode_into (l.disk.read_file s path) cfg

  -- The loop over the files that an entry of `include` matches: their tokens.
  unfoldable pub tokens_of : S → List String → Loaded (List TokenPolicy)
  unfolding load_into
  tokens_of s [] = loaded []
  tokens_of s (path ∷ paths) =
      let rest = tokens_of s paths in
      and_then (load_into s path empty_config)
        (λ child. and_then rest (λ tokens. loaded (child.tokens ++ tokens)))

  -- The loop over the entries of `include`, below the folder `base`.
  unfoldable pub included_tokens : S → String → List String → Loaded (List TokenPolicy)
  unfolding tokens_of
  included_tokens s base [] = loaded []
  included_tokens s base (inc ∷ incs) =
      let rest = included_tokens s base incs in
      and_then (l.glob s (l.join (base ∷ inc ∷ []))) (λ paths.
        and_then (tokens_of s paths) (λ here. and_then rest (λ later. loaded (here ++ later))))

  abbrev pub validated : Option String → Config → Loaded Config
  validated none cfg = loaded cfg
  validated (some e) cfg = failed e

  -- Load
  unfoldable pub load : S → String → Loaded Config
  unfolding load_into included_tokens
  load s path = and_then (load_into s path defaults) (λ cfg.
      and_then (included_tokens s (l.dir path) cfg.includes) (λ tokens.
        let whole = record cfg { tokens = cfg.tokens ++ tokens } in
        validated (validate (l.sys s) whole) whole))
