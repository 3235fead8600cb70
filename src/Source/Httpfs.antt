-- ===== src/Source/Httpfs.antt =====
-- source/httpfs/partial_driver.go: the source over an http.FileSystem.
use migrate.Prelude.{Bool, Bytes, Option, none, some, List, [], ◌∷◌, if◌then◌else◌}
use migrate.Errors.{Error, not_exist, path_error, Result, ok, err}
use migrate.Source.Migration.{Migration}
use migrate.Source.Migrations.{Migrations, new_migrations, append}
use migrate.Source.Migrations
use migrate.Source.Driver.{Driver, Body}
use migrate.Source.Stub.{or_path_error}
use migrate.Source.Iofs.{Initialized, ready, refused, failed, append_entry, is_path_error}

-- An os.FileInfo: whether it is a directory, and its name.
pub record FileInfo : Type 0 where
  pub is_dir : Bool
  pub name : Bytes

-- An http.File: what is read from it and how it closes, and `Readdir`.
pub record HttpFile : Type 0 where
  pub body : Body
  pub read_dir : Result (List FileInfo)

-- The http.FileSystem is its `Open`.
abbrev pub HttpFileSystem : Type 0
HttpFileSystem = Bytes → Result HttpFile

pub record PartialDriver : Type 0 where
  pub migrations : Migrations
  pub fs : HttpFileSystem
  pub path : Bytes

-- The body of the loop: directories and names that do not parse are passed over.
unfoldable pub add_file :
    Result Migration → FileInfo → Migrations → (Migrations → Initialized) → Initialized
unfolding append_entry
add_file (err e) file ms k = k ms
add_file (ok m) file ms k = if file.is_dir then k ms else append_entry m (append ms (some m)) k

unfoldable pub add_files : (Bytes → Result Migration) → List FileInfo → Migrations → Initialized
unfolding add_file
add_files parse [] ms = ready ms
add_files parse (file ∷ files) ms = add_file (parse file.name) file ms (add_files parse files)

-- The directory is closed before its files are looked at; an error of `Readdir` counts more than
-- one of `Close`.
unfoldable pub init_read :
    (Bytes → Result Migration) → Result (List FileInfo) → Option Error → Initialized
unfolding add_files
init_read parse (err e) close_error = refused (failed e)
init_read parse (ok files) (some e) = refused (failed e)
init_read parse (ok files) none = add_files parse files new_migrations

unfoldable pub init_opened : (Bytes → Result Migration) → Result HttpFile → Initialized
unfolding init_read
init_opened parse (err e) = refused (failed e)
init_opened parse (ok root) = init_read parse root.read_dir root.body.close_error

-- `Init` up to the assignment of the fields.
unfoldable pub init : (Bytes → Result Migration) → HttpFileSystem → Bytes → Initialized
unfolding init_opened
init parse fs path = init_opened parse (fs path)

-- `open` and the identifier that goes with what it opens.
unfoldable pub read_opened : Bytes → Result HttpFile → Result (Body × Bytes)
read_opened identifier (ok file) = ok (file.body, identifier)
read_opened identifier (err e) = if is_path_error e then err e else err (path_error e)

-- `path.Join(p.path, m.Raw)` is the parameter `join`.
unfoldable pub read_migration :
    (Bytes → Bytes → Bytes) → PartialDriver → Option Migration → Result (Body × Bytes)
unfolding read_opened
read_migration join p none = err (path_error not_exist)
read_migration join p (some m) = read_opened m.identifier (p.fs (join p.path m.raw))

unfoldable pub httpfs_source : (Bytes → Bytes → Bytes) → PartialDriver → Driver
unfolding read_migration
httpfs_source join p = record {
  first = or_path_error (Migrations.first p.migrations);
  prev = λ version. or_path_error (Migrations.prev p.migrations version);
  next = λ version. or_path_error (Migrations.next p.migrations version);
  read_up = λ version. read_migration join p (Migrations.up p.migrations version);
  read_down = λ version. read_migration join p (Migrations.down p.migrations version);
  close = none;
}
