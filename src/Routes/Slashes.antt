-- ===== src/Routes/Slashes.antt =====
-- internal/routes/catalog.go: no parameter takes a slash.
use remnaguard.Prelude.{
  ℕ, zero, suc, ◌+◌, String, Bool, true, false, Option, none, some, List, [], ◌∷◌, map, code, cons,
  nat_eq, if◌then◌else◌, ◌≡◌, refl, arith, All, and_true, or_true, inl, inr, codes, to_lower, ◌==◌,
  ◌+++◌, Bool-cases, if_both, eq_of_nat_eq, not_true, sym, ap, ◌∙◌, ◌||◌, eq_iff,
}
use mathlib.Core.Bool.{false≢true}
use remnaguard.Routes.Pattern.{Piece, lit, run, parameter, pieces_from, compile, match_run, matches}

-- How many slashes a text has.
pub slashes : String → ℕ
slashes String.[] = 0
slashes (String.◌∷◌ c s) = (if nat_eq (code c) b'/' then 1 else 0) + slashes s

-- How many slashes a compiled pattern has outside its parameters.
pub literal_slashes : List Piece → ℕ
literal_slashes [] = 0
literal_slashes (lit d ∷ ps) = (if nat_eq d b'/' then 1 else 0) + literal_slashes ps
literal_slashes (run class least most ∷ ps) = literal_slashes ps

abbrev IsSlashFree : Piece → Type 0
IsSlashFree (lit d) = Unit
IsSlashFree (run class least most) = class b'/' ≡ false

parameter-IsSlashFree : (name : String) → IsSlashFree (parameter name)
unfolding parameter
parameter-IsSlashFree name =
    if_both IsSlashFree (name == "uuid" || name == "useruuid" || name == "nodeuuid") refl (
      if_both IsSlashFree (name == "id" || name == "telegramid") refl (
        if_both IsSlashFree (name == "shortuuid") refl
          (if_both IsSlashFree (name == "clienttype") refl refl)))

literal-IsSlashFree : (cs : List ℕ) → All IsSlashFree (map lit cs)
literal-IsSlashFree [] = tt
literal-IsSlashFree (c ∷ cs) = (tt, literal-IsSlashFree cs)

pieces_from-IsSlashFree : (o : Option String) (s : String) → All IsSlashFree (pieces_from o s)
unfolding pieces_from
pieces_from-IsSlashFree none String.[] = tt
pieces_from-IsSlashFree none (String.◌∷◌ c s) = elim (Bool-cases (nat_eq (code c) b'{')) [
  | inl e ↦ rw e (pieces_from-IsSlashFree (some "") s)
  | inr e ↦ rw e (tt, pieces_from-IsSlashFree none s)
]
pieces_from-IsSlashFree (some name) String.[] = (tt, literal-IsSlashFree (codes name))
pieces_from-IsSlashFree (some name) (String.◌∷◌ c s) =
    let rest = pieces_from-IsSlashFree none s in
    elim (Bool-cases (nat_eq (code c) b'}')) [
      | inl e ↦ elim (Bool-cases (name == "")) [
        | inl n ↦ rw (e, n) (tt, (tt, rest))
        | inr n ↦ rw (e, n) (parameter-IsSlashFree (to_lower name), rest)
      ]
      | inr e ↦ rw e (pieces_from-IsSlashFree (some (name +++ cons c "")) s)
    ]

-- A character of a class without the slash is no slash.
not_slash_of :
    (class : ℕ → Bool) (c : ℕ) → class b'/' ≡ false → class c ≡ true → nat_eq c b'/' ≡ false
not_slash_of class c free h =
    not_true _ (λ e. false≢true (sym free ∙ ap class (sym (eq_of_nat_eq c b'/' e)) ∙ h))

match_run-slashes :
    (class : ℕ → Bool) (k most : ℕ) (rest : String → Bool) (n : ℕ) (s : String)
    → class b'/' ≡ false
    → ((v : String) → rest v ≡ true → slashes v ≡ n)
    → match_run class k most rest s ≡ true
    → slashes s ≡ n
unfolding match_run slashes
match_run-slashes class zero most rest n String.[] free keep h = keep String.[] h
match_run-slashes class (suc k) most rest n String.[] free keep h = ground arith
match_run-slashes class zero zero rest n (String.◌∷◌ c s) free keep h = keep (cons c s) h
match_run-slashes class (suc k) zero rest n (String.◌∷◌ c s) free keep h = ground arith
match_run-slashes class zero (suc most) rest n (String.◌∷◌ c s) free keep h = elim (or_true _ _ h) [
  | inl e ↦ keep (cons c s) e
  | inr e ↦
      let (in_class, later) = and_true _ _ e in
      let ih = match_run-slashes class zero most rest n s free keep later in
      rw (not_slash_of class (code c) free in_class) (omega (arith, ih))
]
match_run-slashes class (suc k) (suc most) rest n (String.◌∷◌ c s) free keep h =
    let (in_class, later) = and_true _ _ h in
    let ih = match_run-slashes class k most rest n s free keep later in
    rw (not_slash_of class (code c) free in_class) (omega (arith, ih))

matches-slashes :
    (ps : List Piece) (s : String)
    → All IsSlashFree ps
    → matches ps s ≡ true
    → slashes s ≡ literal_slashes ps
unfolding matches slashes literal_slashes
matches-slashes [] s free h = rw ((eq_iff s "").0 h)
matches-slashes (lit d ∷ ps) String.[] free h = ground arith
matches-slashes (lit d ∷ ps) (String.◌∷◌ c s) free h =
    let (same, later) = and_true _ _ h in
    let ih = matches-slashes ps s free.1 later in rw (eq_of_nat_eq (code c) d same, ih)
matches-slashes (run class least most ∷ ps) s free h =
    match_run-slashes class least most (matches ps) (literal_slashes ps) s free.0
      (λ v later. matches-slashes ps v free.1 later) h

-- A path that matches a compiled pattern has as many slashes as the pattern has outside its
-- parameters: no parameter takes in a further segment.
pub slashes-matches :
    (pattern path : String)
    → matches (compile pattern) path ≡ true
    → slashes path ≡ literal_slashes (compile pattern)
unfolding compile
slashes-matches pattern path h =
    matches-slashes (pieces_from none pattern) path (pieces_from-IsSlashFree none pattern) h
