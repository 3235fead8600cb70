-- ===== src/Engine/New.antt =====
-- migrate.go: the constructors of a Migrate, which open a source and a database by their URLs.
use migrate.Prelude.{ℕ, Bytes}
use migrate.Prelude.Map.{Map}
use migrate.Errors.{Result, ok, ◌>>=◌}
use migrate.Url.{scheme_from_url}
use migrate.Registry.{open_database, open_source}

-- `DefaultPrefetchMigrations`, and `DefaultLockTimeout` in seconds.
abbrev pub default_prefetch_migrations : ℕ
default_prefetch_migrations = 10

abbrev pub default_lock_timeout : ℕ
default_lock_timeout = 15

-- A Migrate as it is made: what stays the same in it, with the two drivers, `S` and `D`.
pub record Instance (S D : Type 0) : Type 0 where
  pub source_name : Bytes
  pub source_drv : S
  pub database_name : Bytes
  pub database_drv : D
  pub prefetch_migrations : ℕ
  pub lock_timeout : ℕ

module _ {S D : Type 0} where
  -- `NewWithInstance`, with `newCommon`.
  unfoldable pub new_with_instance : Bytes → S → Bytes → D → Instance S D
  new_with_instance source_name source_instance database_name database_instance = record {
    source_name = source_name;
    source_drv = source_instance;
    database_name = database_name;
    database_drv = database_instance;
    prefetch_migrations = default_prefetch_migrations;
    lock_timeout = default_lock_timeout;
  }

-- The drivers that are registered, `A` and `B`, how they open a URL, and the scheme that `nurl.Parse` finds.
pub record Drivers (A B S D : Type 0) : Type 0 where
  pub sources : Map Bytes A
  pub databases : Map Bytes B
  pub source_open : A → Bytes → Result S
  pub database_open : B → Bytes → Result D
  pub url_scheme : Bytes → Result Bytes

module _ {A B S D : Type 0} (drivers : Drivers A B S D) where
  unfoldable pub new : Bytes → Bytes → Result (Instance S D)
  unfolding new_with_instance
  new source_url database_url = do
    source_name ← scheme_from_url source_url
    database_name ← scheme_from_url database_url
    source_drv ← open_source drivers.source_open drivers.url_scheme drivers.sources source_url
    database_drv ← open_database drivers.database_open drivers.databases database_url
    ok (new_with_instance source_name source_drv database_name database_drv)

  unfoldable pub new_with_database_instance : Bytes → Bytes → D → Result (Instance S D)
  unfolding new_with_instance
  new_with_database_instance source_url database_name database_instance = do
    source_name ← scheme_from_url source_url
    source_drv ← open_source drivers.source_open drivers.url_scheme drivers.sources source_url
    ok (new_with_instance source_name source_drv database_name database_instance)

  unfoldable pub new_with_source_instance : Bytes → S → Bytes → Result (Instance S D)
  unfolding new_with_instance
  new_with_source_instance source_name source_instance database_url = do
    database_name ← scheme_from_url database_url
    database_drv ← open_database drivers.database_open drivers.databases database_url
    ok (new_with_instance source_name source_instance database_name database_drv)
