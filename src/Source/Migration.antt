-- ===== src/Source/Migration.antt =====
-- source/migration.go: the direction and the description of one migration file.
use migrate.Prelude.{ℕ, ◌≡◌, ◌↔◌, Bool, true, false, Bytes, arith}
use migrate.Prelude.Map.{Eq}

pub data Direction : Type 0 where
  down up : Direction

abbrev direction_beq : Direction → Direction → Bool
direction_beq down down = true
direction_beq up up = true
direction_beq down up = false
direction_beq up down = false

pub direction_beq_iff : (a b : Direction) → (direction_beq a b ≡ true) ↔ (a ≡ b)
direction_beq_iff a b = ground arith

instance abbrev pub direction_eq : Eq Direction
direction_eq = record { beq = direction_beq; beq_iff = direction_beq_iff }

pub record Migration : Type 0 where
  pub version : ℕ
  pub identifier : Bytes
  pub direction : Direction
  pub raw : Bytes
