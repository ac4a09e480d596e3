-- ===== src/Remnawave/Refs.antt =====
-- internal/remnawave/user.go: every squad that a decoded user refers to has a UUID.
use remnaguard.Prelude.{String, false, Option, none, some, List, ◌==◌, ◌≡◌, refl, arith, All}
use remnaguard.Json.{Json, text, array, object, Items, no_items, item}
use remnaguard.Remnawave.Types.{SquadRef}
use remnaguard.Remnawave.Owns.{listed}
use remnaguard.Remnawave.Decode.{nonempty_ref, parse_squad_ref, item_refs, squad_refs, and_ref}

abbrev pub HasUuid : SquadRef → Type 0
HasUuid s = (s.uuid == "") ≡ false

nonempty_ref-HasUuid : (s : String) (r : SquadRef) → nonempty_ref s ≡ some r → HasUuid r
nonempty_ref-HasUuid s r h = ground (arith, h)

pub parse_squad_ref-HasUuid :
    (v : Option Json) (r : SquadRef) → parse_squad_ref v ≡ some r → HasUuid r
unfolding parse_squad_ref
parse_squad_ref-HasUuid (some (text s)) r h = nonempty_ref-HasUuid s r h
parse_squad_ref-HasUuid (some (object fs)) r h = nonempty_ref-HasUuid _ r h
parse_squad_ref-HasUuid _ r h = absurd (ground (arith, h))

and_ref-HasUuid :
    (o : Option SquadRef) (refs : List SquadRef)
    → ((r : SquadRef) → o ≡ some r → HasUuid r)
    → All HasUuid refs
    → All HasUuid (and_ref o refs)
and_ref-HasUuid none refs first rest = rest
and_ref-HasUuid (some r) refs first rest = (first r refl, rest)

item_refs-HasUuid : (items : Items) → All HasUuid (item_refs items)
unfolding item_refs
item_refs-HasUuid no_items = tt
item_refs-HasUuid (item v vs) =
    and_ref-HasUuid (parse_squad_ref (some v)) (item_refs vs) (parse_squad_ref-HasUuid (some v))
      (item_refs-HasUuid vs)

pub squad_refs-HasUuid : (v : Option Json) → All HasUuid (squad_refs v)
unfolding squad_refs
squad_refs-HasUuid (some (array items)) = item_refs-HasUuid items
squad_refs-HasUuid _ = tt

pub listed-HasUuid :
    (o : Option SquadRef) → ((r : SquadRef) → o ≡ some r → HasUuid r) → All HasUuid (listed o)
listed-HasUuid none h = tt
listed-HasUuid (some r) h = (h r refl, tt)
