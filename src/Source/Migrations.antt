-- ===== src/Source/Migrations.antt =====
-- source/migration.go: the migrations that a source holds in memory, by version and direction,
-- with the sorted index of the versions.
pub mod Index
pub mod Order
pub mod Neighbours
use migrate.Prelude.{
  ℕ, ◌+◌, ◌-◌, ◌<◌, Bool, true, false, List, [], ◌∷◌, Option, none, some, ℤ, pos, negsuc, minus_one,
  ltb, leb, ◌==◌, if◌then◌else◌, ◌&&◌, length, get_elem?,
}
use migrate.Prelude.Map.{Map, get, put, keys, nat_eq}
use migrate.Source.Search.{search_first}
use migrate.Source.Sort.{sort}
use migrate.Source.Migration.{Migration, Direction, direction_eq}

pub record Migrations : Type 0 where
  pub index : List ℕ
  pub migrations : Map ℕ (Map Direction Migration)

unfoldable pub new_migrations : Migrations
new_migrations = record { index = []; migrations = [] }

-- `i.migrations[version]`; a version that is missing reads as a nil map, which is empty.
unfoldable pub at_version : Migrations → ℕ → Map Direction Migration
at_version i version = elim (get version i.migrations) [
  | none ↦ []
  | some by_direction ↦ by_direction
]

unfoldable pub build_index : Migrations → Migrations
build_index i = record i { index = sort (keys i.migrations) }

unfoldable pub insert_migration : Migrations → Migration → Migrations × Bool
insert_migration i m = elim (get m.direction (at_version i m.version)) [
  | some dup ↦ (i, false)
  | none ↦ (
    build_index (record i {
      migrations = put m.version (put m.direction m (at_version i m.version)) i.migrations;
    }),
    true,
  )
]

-- Makes the inner map of a version that has none.
unfoldable pub ensure_version : Migrations → ℕ → Migrations
ensure_version i version = elim (get version i.migrations) [
  | some by_direction ↦ i
  | none ↦ record i { migrations = put version [] i.migrations }
]

-- `Append`; `none` is the nil pointer.
unfoldable pub append : Migrations → Option Migration → Migrations × Bool
append i none = (i, false)
append i (some m) = insert_migration (ensure_version i m.version) m

unfoldable pub first : Migrations → Option ℕ
first i = get_elem? i.index 0

-- `s[k] >= x`; `sort.Search` asks only below the length.
abbrev pub at_least : List ℕ → ℕ → ℕ → Bool
at_least s x k = elim (get_elem? s k) [ none ↦ false | some y ↦ leb x y ]

unfoldable pub search : List ℕ → ℕ → ℕ
search s x = search_first (length s) (at_least s x)

abbrev holds_at : List ℕ → ℕ → ℕ → Bool
holds_at s ix version = elim (get_elem? s ix) [ none ↦ false | some y ↦ y == version ]

unfoldable pub find_pos : Migrations → ℕ → ℤ
find_pos i version =
    if ltb 0 (length i.index)
    then (let ix = search i.index version in
        if ltb ix (length i.index) && holds_at i.index ix version then pos ix else minus_one)
    else minus_one

before : List ℕ → ℤ → Option ℕ
before s (pos p) = if leb 1 p && ltb (p - 1) (length s) then get_elem? s (p - 1) else none
before s (negsuc p) = none

unfoldable pub prev : Migrations → ℕ → Option ℕ
unfolding before
prev i version = before i.index (find_pos i version)

after : List ℕ → ℤ → Option ℕ
after s (pos p) = if ltb (p + 1) (length s) then get_elem? s (p + 1) else none
after s (negsuc p) = none

unfoldable pub next : Migrations → ℕ → Option ℕ
unfolding after
next i version = after i.index (find_pos i version)

unfoldable pub up : Migrations → ℕ → Option Migration
up i version = elim (get version i.migrations) [
  | none ↦ none
  | some by_direction ↦ get Direction.up by_direction
]

unfoldable pub down : Migrations → ℕ → Option Migration
down i version = elim (get version i.migrations) [
  | none ↦ none
  | some by_direction ↦ get Direction.down by_direction
]
