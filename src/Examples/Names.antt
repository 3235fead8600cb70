-- ===== src/Examples/Names.antt =====
-- File names, URLs, directories and registries of drivers, on small examples.
use migrate.Prelude.{ℕ, ◌≡◌, ◌≢◌, refl, false, Bytes, none, some, List, [], ◌∷◌, ◌++◌, arith, All}
use migrate.Prelude.Map.{get, put}
use migrate.Prelude.Decimal.{decimal, digits_value}
use migrate.Errors.{Result, ok, err, no_match, no_scheme}
use migrate.Source.Migration.{Migration, Direction}
use migrate.Source.Migrations.{append, new_migrations}
use migrate.Source.Migrations.Index.{IsValid}
use migrate.Source.Driver.{Body}
use migrate.Source.Iofs.{
  FileSystem, DirEntry, init, init_listed, add_entries, add_entry, add_parsed, append_entry,
}
use migrate.Source.Iofs.Init.{init-Listed, registered, Registers, Comes}
use migrate.Source.Parse.{
  parse, parse_rest, parse_matched, parse_uint, span_digits, match_title, match_tail,
  direction_part,
}
use migrate.Source.Parse.Names.{parse-name}
use migrate.Source.Parse.Shape.{IsName, parse-IsName}
use migrate.Url.{scheme_from_url, scheme_at, index_colon}
use migrate.Registry.{bytes_eq, register, open_database, register-open_database}
use migrate.Examples.Index.{program}

unfoldable names : Unit {0}
unfolding parse parse_rest parse_matched parse_uint span_digits match_title match_tail digits_value
    decimal scheme_from_url scheme_at index_colon
names = tt

-- "12_a.up.b.down.sql", whose last direction counts.
abbrev last_counts : Bytes
last_counts =
    b'1' ∷ b'2' ∷ b'_' ∷ b'a' ∷ b'.' ∷ b'u' ∷ b'p' ∷ b'.' ∷ b'b' ∷ b'.' ∷ b'd' ∷ b'o' ∷ b'w' ∷ b'n'
    ∷ b'.' ∷ b's' ∷ b'q' ∷ b'l' ∷ []

abbrev last_parsed : Migration
last_parsed = record {
  version = 12;
  identifier = b'a' ∷ b'.' ∷ b'u' ∷ b'p' ∷ b'.' ∷ b'b' ∷ [];
  direction = Direction.down;
  raw = last_counts;
}

last_direction : parse last_counts ≡ ok last_parsed
unfolding names
last_direction = refl

-- "_a.up.sql"
no_version : parse (b'_' ∷ b'a' ∷ b'.' ∷ b'u' ∷ b'p' ∷ b'.' ∷ b's' ∷ []) ≡ err no_match
unfolding names
no_version = refl

parse-IsName_example : IsName last_counts last_parsed
unfolding names
parse-IsName_example = parse-IsName last_counts last_parsed refl

abbrev title : Bytes
title = b'i' ∷ b'n' ∷ b'i' ∷ b't' ∷ []

abbrev sql : Bytes
sql = b's' ∷ b'q' ∷ b'l' ∷ []

parse-name_example :
    parse (decimal 12 ++ b'_' ∷ (title ++ (direction_part Direction.up ++ sql)))
    ≡ ok (record {
      version = 12;
      identifier = title;
      direction = Direction.up;
      raw = decimal 12 ++ b'_' ∷ (title ++ (direction_part Direction.up ++ sql));
    })
parse-name_example = parse-name 12 title Direction.up sql (omega arith) refl refl refl

-- "stub://x" and "://x"
abbrev stub_url : Bytes
stub_url = b's' ∷ b't' ∷ b'u' ∷ b'b' ∷ b':' ∷ b'/' ∷ b'/' ∷ b'x' ∷ []

no_scheme_there : scheme_from_url (b':' ∷ b'/' ∷ b'/' ∷ b'x' ∷ []) ≡ err no_scheme
unfolding names
no_scheme_there = refl

abbrev stub_name : Bytes
stub_name = b's' ∷ b't' ∷ b'u' ∷ b'b' ∷ []

abbrev open_number : ℕ → Bytes → Result ℕ
open_number n url = ok n

register-open_database_example :
    ((rest : Bytes)
      → open_database open_number ((stub_name, 7) ∷ []) (stub_name ++ b':' ∷ rest) ≡ ok 7)
    × ((j : Bytes) → j ≢ stub_name → get j ((stub_name, 7) ∷ []) ≡ get {V = ℕ} j [])
    × ((d' : ℕ) → register stub_name (some d') ((stub_name, 7) ∷ []) ≡ none)
    × (register {A = ℕ} stub_name none ((stub_name, 7) ∷ []) ≡ none)
unfolding register get put
register-open_database_example =
    register-open_database open_number stub_name 7 [] ((stub_name, 7) ∷ []) refl (λ e. cc) refl

abbrev entry : Bytes → DirEntry
entry name = record { is_dir = false; name = name; info_error = none }

-- A directory with one file that parses and one that does not.
abbrev listing : List DirEntry
listing = entry last_counts ∷ entry title ∷ []

abbrev nothing : Body
nothing = record { bytes = []; read_error = none; close_error = none }

abbrev directory : FileSystem
directory = record { read_dir = λ path. ok listing; open_file = λ path. ok nothing; close = none }

init-Listed_example :
    IsValid (append new_migrations (some last_parsed)).0
    × All (Registers parse (append new_migrations (some last_parsed)).0) listing
    × ((v : ℕ) (d : Direction) (m : Migration)
        → registered (append new_migrations (some last_parsed)).0 v d ≡ some m
        → Comes parse listing m)
unfolding names program init init_listed add_entries add_entry add_parsed append_entry
init-Listed_example =
    init-Listed parse directory [] listing (append new_migrations (some last_parsed)).0 refl refl
