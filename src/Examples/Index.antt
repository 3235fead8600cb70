-- ===== src/Examples/Index.antt =====
-- The index of source/migration.go on the small source.
use migrate.Prelude.{ℕ, ◌≡◌, refl, true, false, none, some, [], ◌∷◌, if◌then◌else◌, ◌≤◌, ◌↔◌}
use migrate.Prelude.Map.{get, put, nat_eq}
use migrate.Source.Search.{search_loop, search_first}
use migrate.Source.Sort.{sort}
use migrate.Source.Migration.{Migration, Direction, direction_eq}
use migrate.Source.Migrations.{
  append, new_migrations, at_version, ensure_version, insert_migration, build_index, first, next,
  prev, find_pos, search,
}
use migrate.Source.Migrations.Index.{
  IsValid, files, append-IsValid, append-files, new_migrations-IsValid,
}
use migrate.Source.Migrations.Neighbours.{Has, neighbours_lem}
use migrate.Source.Migrations.Neighbours.Next.{IsNext}
use migrate.Source.Migrations.Neighbours.Prev.{IsPrev}
use migrate.Examples.{file, three}

unfoldable pub program : Unit {0}
unfolding three append insert_migration ensure_version at_version build_index get put sort
    new_migrations first next prev find_pos search search_first search_loop
program = tt

three_index : three.index ≡ 1 ∷ 3 ∷ 7 ∷ []
unfolding program
three_index = refl

next_three : (next three 1 ≡ some 3) × (next three 7 ≡ none) × (next three 2 ≡ none)
unfolding program
next_three = (refl, refl, refl)

prev_three : (prev three 3 ≡ some 1) × (prev three 1 ≡ none)
unfolding program
prev_three = (refl, refl)

duplicate : (append three (some (file 3 Direction.up))).1 ≡ false
unfolding program
duplicate = refl

pub three-IsValid : IsValid three
unfolding three
three-IsValid = append-IsValid _ (some (file 7 Direction.down)) (
    append-IsValid _ (some (file 3 Direction.up)) (
      append-IsValid _ (some (file 1 Direction.down)) (
        append-IsValid _ (some (file 1 Direction.up))
          (append-IsValid _ (some (file 7 Direction.up)) new_migrations-IsValid))))

append-IsValid_example : IsValid (append three (some (file 3 Direction.down))).0
append-IsValid_example = append-IsValid three (some (file 3 Direction.down)) three-IsValid

append-files_example :
    ((get Direction.down (at_version three 3) ≡ none)
      → ((append three (some (file 3 Direction.down))).1 ≡ true)
        × ((v : ℕ) (d : Direction)
            → get d (at_version (append three (some (file 3 Direction.down))).0 v) ≡ (
                if files (file 3 Direction.down) v d
                then some (file 3 Direction.down)
                else get d (at_version three v))))
    × ((dup : Migration)
        → get Direction.down (at_version three 3) ≡ some dup
        → append three (some (file 3 Direction.down)) ≡ (three, false))
append-files_example = append-files three (file 3 Direction.down)

neighbours_lem_example :
    ((first three ≡ some 3) ↔ (Has three 3 × ((u : ℕ) → Has three u → 3 ≤ u)))
    × (((next three 1 ≡ some 3) ↔ IsNext (Has three) 1 3)
        × ((prev three 1 ≡ some 3) ↔ IsPrev (Has three) 1 3))
neighbours_lem_example = neighbours_lem three three-IsValid 1 3
