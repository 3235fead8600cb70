-- ===== src/Database/Sqlite.antt =====
-- database/sqlite/sqlite.go: the driver of the SQLite databases, over a connection of database/sql.
pub mod Version
use migrate.Prelude.{
  ℤ, pos, minus_one, eqb_ℤ, ltb_ℤ, not, Bool, true, false, ◌&&◌, ◌||◌, Bytes, Option, none, some,
  List, [], ◌∷◌, ◌++◌, codes, is_empty, remove_first, if◌then◌else◌,
}
use migrate.Errors.{
  Error, database_locked, not_locked, no_config, bad_option, external, failed_query, Result, ok,
  err, ◌>>=◌,
}
use migrate.Database.Driver.{Driver, Reader}
use migrate.Database.Sql.{
  Sql, Value, int, bool, Cursor, tried, opened, failing, add_deferred, close_cursor,
}
use migrate.Database.Sql.Transaction.{scan_names, or_nil_version, leave, execute_query, rewrite_row}
use migrate.Database.Url.{ParsedUrl, Opener, get_option, filter_custom_query, url_text, parse_bool}

-- `DefaultMigrationsTable`.
abbrev pub default_migrations_table : Bytes
default_migrations_table = codes "schema_migrations"

pub record Config : Type 0 where
  pub migrations_table : Bytes
  pub database_name : Bytes
  pub no_tx_wrap : Bool

pub record Sqlite (S : Type 0) : Type 0 where
  pub db : S
  pub is_locked : Bool
  pub config : Config

abbrev pub with_db : {S A : Type 0} → Sqlite S → A × S → A × Sqlite S
with_db m (a, s) = (a, record m { db = s })

module _ {S : Type 0} where
  -- `m.isLocked.CAS(false, true)`.
  unfoldable pub lock : Sqlite S → Option Error × Sqlite S
  lock m = if m.is_locked then (some database_locked, m) else (none, record m { is_locked = true })

  unfoldable pub unlock : Sqlite S → Option Error × Sqlite S
  unlock m = if m.is_locked then (none, record m { is_locked = false }) else (some not_locked, m)

  abbrev unlock_deferred : Option Error × Sqlite S → Option Error × Sqlite S
  unlock_deferred (e, m) =
      tried (unlock m) (λ unlock_error m1. (some (add_deferred e unlock_error), m1)) λ m1. (e, m1)

abbrev pub create_table : Bytes → Bytes
create_table table =
    codes "\n\tCREATE TABLE IF NOT EXISTS "
    ++ (table
        ++ (codes
              " (version uint64,dirty bool);\n  CREATE UNIQUE INDEX IF NOT EXISTS version_unique ON "
            ++ (table ++ codes " (version);\n  ")))

abbrev pub delete_rows : Bytes → Bytes
delete_rows table = codes "DELETE FROM " ++ table

abbrev pub insert_row : Bytes → Bytes
insert_row table = codes "INSERT INTO " ++ (table ++ codes " (version, dirty) VALUES (?, ?)")

abbrev pub select_row : Bytes → Bytes
select_row table = codes "SELECT version, dirty FROM " ++ (table ++ codes " LIMIT 1")

abbrev default_table : Bytes → Bytes
default_table table = if is_empty table then default_migrations_table else table

module _ {S Tx : Type 0} (sql : Sql S Tx) where
  unfoldable pub execute_query_no_tx : Bytes → S → Option Error × S
  execute_query_no_tx query s = tried (sql.exec query [] s) (failing [] query) λ s1. (none, s1)

  unfoldable pub ensure_version_table : Sqlite S → Option Error × Sqlite S
  unfolding lock unlock
  ensure_version_table m =
      tried (lock m) (λ e m1. (some e, m1))
        λ m1.
          unlock_deferred (with_db m1 (sql.exec (create_table m1.config.migrations_table) [] m1.db))

  abbrev drop_tables : List Bytes → S → Option Error × S
  drop_tables [] s = (none, s)
  drop_tables (table ∷ tables) s =
      let drop_table = codes "DROP TABLE " ++ table in
      let rest = drop_tables tables in
      tried (execute_query sql drop_table s) (failing [] drop_table) rest

  abbrev vacuum : Option Error × S → Option Error × S
  vacuum (some e, s) = (some e, s)
  vacuum (none, s) =
      opened (sql.query (codes "VACUUM") s) (failing [] (codes "VACUUM")) λ cursor s1. (none, s1)

  abbrev drop_named : List Bytes → S → Option Error × S
  drop_named [] s = (none, s)
  drop_named (table ∷ tables) s = vacuum (drop_tables (table ∷ tables) s)

  abbrev select_tables : Bytes
  select_tables = codes "SELECT name FROM sqlite_master WHERE type = 'table';"

  abbrev when_read : Option Error → List Bytes → S → Option Error × S
  when_read (some e) tables s = failing [] select_tables e s
  when_read none tables s = drop_named tables s

  abbrev drop_scanned : Result (List Bytes) → Option Error → S → Option Error × S
  drop_scanned (err e) failed s = (some e, s)
  drop_scanned (ok tables) failed s = when_read failed tables s

  unfoldable pub drop_all : S → Option Error × S
  unfolding execute_query
  drop_all s =
      opened (sql.query select_tables s) (failing [] select_tables)
        λ cursor s1. close_cursor cursor (drop_scanned (scan_names cursor.rows) cursor.failed s1)

  unfoldable pub drop : Sqlite S → Option Error × Sqlite S
  unfolding drop_all
  drop m = with_db m (drop_all m.db)

  abbrev run_query : Bool → Bytes → S → Option Error × S
  run_query no_tx_wrap query s =
      if no_tx_wrap then execute_query_no_tx query s else execute_query sql query s

  -- `ioutil.ReadAll` waits for the end of the reader.
  unfoldable pub run : Reader → Sqlite S → Option (Option Error × Sqlite S)
  unfolding execute_query execute_query_no_tx
  run migration m =
      if migration.ended
      then some (with_db m (run_query m.config.no_tx_wrap migration.bytes m.db))
      else none

  unfoldable pub set_version : ℤ → Bool → Sqlite S → Option Error × Sqlite S
  unfolding rewrite_row
  set_version version dirty m = with_db m (
      rewrite_row sql (leave sql) (delete_rows m.config.migrations_table)
        (insert_row m.config.migrations_table) version dirty m.db)

  unfoldable pub version : Sqlite S → Result (ℤ × Bool)
  version m = or_nil_version (sql.query_row (select_row m.config.migrations_table) m.db)

  unfoldable pub close : Sqlite S → Option Error × Sqlite S
  close m = with_db m (sql.close m.db)

  unfoldable pub sqlite_driver : Driver (Sqlite S)
  unfolding lock unlock run set_version version drop close
  sqlite_driver = record {
    lock = lock;
    unlock = unlock;
    run = run;
    set_version = set_version;
    version = version;
    drop = drop;
    close = close;
  }

  abbrev with_table : Option Error × Sqlite S → Result (Sqlite S) × S
  with_table (some e, m) = (err e, m.db)
  with_table (none, m) = (ok m, m.db)

  unfoldable pub with_instance : Option Config → S → Result (Sqlite S) × S
  unfolding ensure_version_table
  with_instance none s = (err no_config, s)
  with_instance (some config) s =
      tried (sql.ping s) (λ e s1. (err e, s1))
        λ s1. with_table (
          ensure_version_table (record {
            db = s1;
            is_locked = false;
            config = record config { migrations_table = default_table config.migrations_table };
          }))

abbrev no_tx_wrap_option : Option Bool → Result Bool
no_tx_wrap_option none = err (bad_option (codes "x-no-tx-wrap") (external 0))
no_tx_wrap_option (some b) = ok b

abbrev read_no_tx_wrap : Bytes → Result Bool
read_no_tx_wrap v = if is_empty v then ok false else no_tx_wrap_option (parse_bool v)

module _ {S Tx : Type 0} (sql : Sql S Tx) (from : Opener S) where
  abbrev dbfile : ParsedUrl → Bytes
  dbfile purl = remove_first (codes "sqlite://") (url_text (filter_custom_query purl))

  abbrev url_config : ParsedUrl → Bool → Config
  url_config purl no_tx_wrap = record {
    database_name = purl.path;
    migrations_table = default_table (get_option purl (codes "x-migrations-table"));
    no_tx_wrap = no_tx_wrap;
  }

  abbrev connect : ParsedUrl → S → Result (Sqlite S)
  connect purl s = do
    no_tx_wrap ← read_no_tx_wrap (get_option purl (codes "x-no-tx-wrap"))
    (with_instance sql (some (url_config purl no_tx_wrap)) s).0

  unfoldable pub open_url : Bytes → Result (Sqlite S)
  unfolding with_instance
  open_url url = do
    purl ← from.parse url
    s ← from.sql_open (codes "sqlite") (dbfile purl)
    connect purl s
