-- ===== src/Source/Iofs.antt =====
-- source/iofs/iofs.go: the source over an io/fs file system, which most sources embed.
pub mod Init
use migrate.Prelude.{Bool, true, false, Bytes, Option, none, some, List, [], ◌∷◌, if◌then◌else◌}
use migrate.Errors.{Error, not_exist, path_error, no_migration, Result, ok, err}
use migrate.Source.Migration.{Migration}
use migrate.Source.Migrations.{Migrations, new_migrations, append}
use migrate.Source.Migrations
use migrate.Source.Driver.{Driver, Body}
use migrate.Source.Stub.{or_path_error}

-- An fs.DirEntry: whether it is a directory, its name, and the error of `Info`.
pub record DirEntry : Type 0 where
  pub is_dir : Bool
  pub name : Bytes
  pub info_error : Option Error

-- The file system: `fs.ReadDir`, `Open`, and `Close` where it has one.
pub record FileSystem : Type 0 where
  pub read_dir : Bytes → Result (List DirEntry)
  pub open_file : Bytes → Result Body
  pub close : Option Error

-- `ErrDuplicateMigration` of source/errors.go carries the migration.
pub data InitError : Type 0 where
  failed : Error → InitError
  duplicate_migration : Migration → InitError

pub data Initialized : Type 0 where
  ready : Migrations → Initialized
  refused : InitError → Initialized

unfoldable pub append_entry :
    Migration → Migrations × Bool → (Migrations → Initialized) → Initialized
append_entry m (ms, true) k = k ms
append_entry m (ms, false) k = refused (duplicate_migration m)

unfoldable pub add_parsed :
    Option Error → Migration → Migrations → (Migrations → Initialized) → Initialized
unfolding append_entry
add_parsed (some e) m ms k = refused (failed e)
add_parsed none m ms k = append_entry m (append ms (some m)) k

-- The body of the loop: directories and names that do not parse are passed over.
unfoldable pub add_entry :
    Result Migration → DirEntry → Migrations → (Migrations → Initialized) → Initialized
unfolding add_parsed
add_entry (err e) entry ms k = k ms
add_entry (ok m) entry ms k = if entry.is_dir then k ms else add_parsed entry.info_error m ms k

-- `source.DefaultParse` is a variable of the package, so it is a parameter.
unfoldable pub add_entries : (Bytes → Result Migration) → List DirEntry → Migrations → Initialized
unfolding add_entry
add_entries parse [] ms = ready ms
add_entries parse (entry ∷ entries) ms =
    add_entry (parse entry.name) entry ms (add_entries parse entries)

pub record PartialDriver : Type 0 where
  pub migrations : Migrations
  pub fsys : FileSystem
  pub path : Bytes

unfoldable pub init_listed : (Bytes → Result Migration) → Result (List DirEntry) → Initialized
unfolding add_entries new_migrations
init_listed parse (err e) = refused (failed e)
init_listed parse (ok entries) = add_entries parse entries new_migrations

-- `Init` up to the assignment of the fields.
unfoldable pub init : (Bytes → Result Migration) → FileSystem → Bytes → Initialized
unfolding init_listed
init parse fsys path = init_listed parse (fsys.read_dir path)

-- `errors.As(err, new(*fs.PathError))`.
abbrev pub is_path_error : Error → Bool
is_path_error (path_error e) = true
is_path_error (no_migration v e) = is_path_error e
is_path_error _ = false

unfoldable pub opened : Result Body → Result Body
opened (ok f) = ok f
opened (err e) = if is_path_error e then err e else err (path_error e)

unfoldable pub read_opened : Bytes → Result Body → Result (Body × Bytes)
read_opened identifier (ok body) = ok (body, identifier)
read_opened identifier (err e) = err e

-- `path.Join(d.path, m.Raw)` is the parameter `join`.
unfoldable pub read_migration :
    (Bytes → Bytes → Bytes) → PartialDriver → Option Migration → Result (Body × Bytes)
unfolding opened read_opened
read_migration join d none = err (path_error not_exist)
read_migration join d (some m) =
    read_opened m.identifier (opened (d.fsys.open_file (join d.path m.raw)))

unfoldable pub iofs_source : (Bytes → Bytes → Bytes) → PartialDriver → Driver
unfolding read_migration
iofs_source join d = record {
  first = or_path_error (Migrations.first d.migrations);
  prev = λ version. or_path_error (Migrations.prev d.migrations version);
  next = λ version. or_path_error (Migrations.next d.migrations version);
  read_up = λ version. read_migration join d (Migrations.up d.migrations version);
  read_down = λ version. read_migration join d (Migrations.down d.migrations version);
  close = d.fsys.close;
}
