-- ===== src/Source/Bindata.antt =====
-- source/go_bindata/go-bindata.go: the source over files that were compiled into the program.
use migrate.Prelude.{Bool, true, false, Bytes, Option, none, some, List, [], ◌∷◌}
use migrate.Errors.{not_exist, path_error, Result, ok, err}
use migrate.Source.Migration.{Migration}
use migrate.Source.Migrations.{Migrations, new_migrations, append}
use migrate.Source.Migrations
use migrate.Source.Driver.{Driver, Body}
use migrate.Source.Stub.{or_path_error, nop_closer}

-- The names, and the generated function that gives the text of one.
pub record AssetSource : Type 0 where
  pub names : List Bytes
  pub asset_func : Bytes → Result Bytes

pub record Bindata : Type 0 where
  pub asset_source : AssetSource
  pub migrations : Migrations

-- `unable to parse file`, the error of a name that is there twice.
pub data Opened : Type 0 where
  opened : Migrations → Opened
  duplicate : Bytes → Opened

unfoldable pub add_parsed : Bytes → Migrations × Bool → (Migrations → Opened) → Opened
add_parsed name (ms, true) k = k ms
add_parsed name (ms, false) k = duplicate name

unfoldable pub add_name : Result Migration → Bytes → Migrations → (Migrations → Opened) → Opened
unfolding add_parsed
add_name (err e) name ms k = k ms
add_name (ok m) name ms k = add_parsed name (append ms (some m)) k

unfoldable pub add_names : (Bytes → Result Migration) → List Bytes → Migrations → Opened
unfolding add_name
add_names parse [] ms = opened ms
add_names parse (name ∷ names) ms = add_name (parse name) name ms (add_names parse names)

-- `WithInstance` on an AssetSource.
unfoldable pub with_instance : (Bytes → Result Migration) → AssetSource → Opened
unfolding add_names
with_instance parse source = add_names parse source.names new_migrations

unfoldable pub read_asset : Bytes → Result Bytes → Result (Body × Bytes)
read_asset identifier (ok text) = ok (nop_closer text, identifier)
read_asset identifier (err e) = err e

unfoldable pub read_migration : Bindata → Option Migration → Result (Body × Bytes)
unfolding read_asset
read_migration b none = err (path_error not_exist)
read_migration b (some m) = read_asset m.identifier (b.asset_source.asset_func m.raw)

unfoldable pub bindata_source : Bindata → Driver
unfolding read_migration
bindata_source b = record {
  first = or_path_error (Migrations.first b.migrations);
  prev = λ version. or_path_error (Migrations.prev b.migrations version);
  next = λ version. or_path_error (Migrations.next b.migrations version);
  read_up = λ version. read_migration b (Migrations.up b.migrations version);
  read_down = λ version. read_migration b (Migrations.down b.migrations version);
  close = none;
}
