-- ===== src/Tests/TokenFiles.antt =====
-- The commands that edit a token file, on files kept in an association list.
mod Runs
use remnaguard.Prelude.{
  String, Bool, true, false, Option, none, some, List, [], ◌∷◌, if◌then◌else◌, ◌==◌, ◌≡◌, ◌≢◌, refl,
  ap, sym, ◌∙◌, arith, eq_iff, eq_refl, find, store, without, find-store, find-without, Bool-cases,
  inl, inr,
}
use remnaguard.Disk.{
  Disk, IsLawful, FileRead, file, missing, unreadable, Created, created, not_created,
}
use remnaguard.Config.{Config, TokenPolicy}

-- What a file holds: the tokens of a token file, or a configuration.
pub data Content : Type 0 where
  tokens : List TokenPolicy → Content
  settings : Config → Content

abbrev pub Files : Type 0
Files = List (String × Content)

abbrev pub content_read : Option Content → FileRead Content
content_read none = missing
content_read (some b) = file b

abbrev is_there : Option Content → Bool
is_there none = false
is_there (some b) = true

abbrev temp_in : Files → Option Content → Files × Created
temp_in s none = (store "t.tmp" (tokens []) s, created "t.tmp")
temp_in s (some b) = (s, not_created "exists")

abbrev renamed_in : String → String → Files → Option Content → Files × Option String
renamed_in a b s none = (s, some "file does not exist")
renamed_in a b s (some v) = (if a == b then s else store b v (without a s), none)

abbrev pub memory : Disk Files Content
memory = record {
  read_file = λ s p. content_read (find p s);
  stat_ok = λ s p. is_there (find p s);
  mkdir_all = λ q s. (s, none);
  write_file = λ q b s. (store q b s, none);
  create_temp = λ q s. temp_in s (find "t.tmp" s);
  chmod = λ q s. (s, none);
  write = λ q b s. (store q b s, none);
  sync = λ q s. (s, none);
  close = λ q s. (s, none);
  rename = λ a b s. renamed_in a b s (find a s);
  remove = λ q s. without q s;
}

differ : (p q : String) → p ≢ q → (q == p) ≡ false
differ p q other = ground (arith, eq_iff q p, other)

read_stored :
    (q p : String) (b : Content) (s : Files)
    → p ≢ q
    → content_read (find p (store q b s)) ≡ content_read (find p s)
read_stored q p b s other =
    ap content_read
      (find-store q p b s ∙ ap (λ x. if x then some b else find p s) (differ p q other))

read_stored_at :
    (q : String) (b : Content) (s : Files) → content_read (find q (store q b s)) ≡ file b
read_stored_at q b s =
    ap content_read (find-store q q b s ∙ ap (λ x. if x then some b else find q s) (eq_refl q))

read_without :
    (q p : String) (s : Files)
    → p ≢ q
    → content_read (find p (without q s)) ≡ content_read (find p s)
read_without q p s other =
    ap content_read (find-without q p s ∙ ap (λ x. if x then none else find p s) (differ p q other))

temp_is_new :
    (s : Files) (p : String) (b : Content)
    → find "t.tmp" s ≡ none
    → content_read (find p s) ≡ file b
    → p ≢ "t.tmp"
temp_is_new s p b free h same =
    absurd (ground (arith, ap (λ x. content_read (find x s)) (sym same) ∙ h, ap content_read free))

temp-reads :
    (s : Files) (o : Option Content) (p : String) (b : Content)
    → find "t.tmp" s ≡ o
    → content_read (find p s) ≡ file b
    → content_read (find p (temp_in s o).0) ≡ file b
temp-reads s none p b same h = read_stored "t.tmp" p (tokens []) s (temp_is_new s p b same h) ∙ h
temp-reads s (some x) p b same h = h

temp_name :
    (s : Files) (o : Option Content) (n p : String) (b : Content)
    → find "t.tmp" s ≡ o
    → content_read (find p s) ≡ file b
    → (temp_in s o).1 ≡ created n
    → p ≢ n
temp_name s none n p b same h e eq =
    let named : "t.tmp" ≡ n = ground (arith, e) in temp_is_new s p b same h (eq ∙ sym named)
temp_name s (some x) n p b same h e eq = absurd (ground (arith, e))

unrenamed :
    (s : Files) (a b p e : String) (o : Option Content)
    → (renamed_in a b s o).1 ≡ some e
    → content_read (find p (renamed_in a b s o).0) ≡ content_read (find p s)
unrenamed s a b p e none h = refl
unrenamed s a b p e (some v) h = absurd (ground (arith, h))

renamed :
    (s : Files) (a b : String) (o : Option Content)
    → find a s ≡ o
    → (renamed_in a b s o).1 ≡ none
    → content_read (find b (renamed_in a b s o).0) ≡ content_read (find a s)
renamed s a b none same h = absurd (ground (arith, h))
renamed s a b (some v) same h = elim (Bool-cases (a == b)) [
  | inl e ↦
      ap (λ x. content_read (find b (if x then s else store b v (without a s)))) e
      ∙ ap (λ x. content_read (find x s)) (sym ((eq_iff a b).0 e))
  | inr e ↦
      ap (λ x. content_read (find b (if x then s else store b v (without a s)))) e
      ∙ read_stored_at b v (without a s)
      ∙ sym (ap content_read same)
]

others_renamed :
    (s : Files) (a b p : String) (o : Option Content)
    → p ≢ a
    → p ≢ b
    → content_read (find p (renamed_in a b s o).0) ≡ content_read (find p s)
others_renamed s a b p none f g = refl
others_renamed s a b p (some v) f g = elim (Bool-cases (a == b)) [
  | inl e ↦ ap (λ x. content_read (find p (if x then s else store b v (without a s)))) e
  | inr e ↦
      ap (λ x. content_read (find p (if x then s else store b v (without a s)))) e
      ∙ read_stored b p v (without a s) g
      ∙ read_without a p s f
]

there : (o : Option Content) (b : Content) → content_read o ≡ file b → is_there o ≡ true
there none b h = absurd (ground (arith, h))
there (some x) b h = refl

pub memory-IsLawful : IsLawful memory
memory-IsLawful = record {
  stat_read = λ s p t h. there (find p s) t h;
  read_mkdir_all = λ s q p t h. h;
  read_write_file = λ s q b p other. read_stored q p b s other;
  read_written_file = λ s q b h. read_stored_at q b s;
  read_create_temp = λ s q p t h. temp-reads s (find "t.tmp" s) p t refl h;
  temp_is_new = λ s q n p t h e. temp_name s (find "t.tmp" s) n p t refl h e;
  read_chmod = λ s q p other. refl;
  read_write = λ s q b p other. read_stored q p b s other;
  read_written = λ s q b h. read_stored_at q b s;
  read_sync = λ s q p. refl;
  read_close = λ s q p. refl;
  read_unrenamed = λ s a b p e h. unrenamed s a b p e (find a s) h;
  read_renamed = λ s a b h. renamed s a b (find a s) refl h;
  read_rename = λ s a b p f g. others_renamed s a b p (find a s) f g;
  read_remove = λ s q p other. read_without q p s other;
}
