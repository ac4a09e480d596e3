-- ===== src/Remnawave/Types.antt =====
-- internal/remnawave/user.go: a user and its squads. The raw message is left out, as nothing here reads
-- it.
use remnaguard.Prelude.{String, Option, List, ℤ}

pub record SquadRef : Type 0 where
  pub uuid : String

pub record User : Type 0 where
  pub uuid : String
  pub short_uuid : String
  pub username : String
  pub telegram_id : ℤ
  pub email : String
  pub internal_squads : List SquadRef
  pub active_internal_squads : List SquadRef
  pub external_squads : List SquadRef
  pub external_squad : Option SquadRef
  pub external_squad_uuid : String
  pub subscription_page_config_uuid : String
