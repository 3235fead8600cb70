-- ===== src/Database/Ql.antt =====
-- database/ql/ql.go: the driver of the QL databases, over a connection of database/sql.
pub mod Version
use migrate.Prelude.{
  ℤ, pos, minus_one, eqb_ℤ, ltb_ℤ, not, Bool, true, false, ◌&&◌, ◌||◌, Bytes, Option, none, some,
  List, [], ◌∷◌, ◌++◌, codes, is_empty, is_prefix, remove_first, if◌then◌else◌,
}
use migrate.Errors.{
  Error, database_locked, not_locked, no_config, bad_option, external, failed_query, Result, ok,
  err, ◌>>=◌,
}
use migrate.Database.Driver.{Driver, Reader}
use migrate.Database.Sql.{
  Sql, Value, int, bool, Cursor, tried, opened, failing, add_deferred, close_cursor,
}
use migrate.Database.Sql.Transaction.{scan_names, or_nil_version, leave, execute_query, rewrite_row}
use migrate.Database.Url.{ParsedUrl, Opener, get_option, filter_custom_query, url_text, parse_bool}

-- `DefaultMigrationsTable`.
abbrev pub default_migrations_table : Bytes
default_migrations_table = codes "schema_migrations"

pub record Config : Type 0 where
  pub migrations_table : Bytes
  pub database_name : Bytes

pub record Ql (S : Type 0) : Type 0 where
  pub db : S
  pub is_locked : Bool
  pub config : Config

abbrev pub with_db : {S A : Type 0} → Ql S → A × S → A × Ql S
with_db m (a, s) = (a, record m { db = s })

module _ {S : Type 0} where
  -- `m.isLocked.CAS(false, true)`.
  unfoldable pub lock : Ql S → Option Error × Ql S
  lock m = if m.is_locked then (some database_locked, m) else (none, record m { is_locked = true })

  unfoldable pub unlock : Ql S → Option Error × Ql S
  unlock m = if m.is_locked then (none, record m { is_locked = false }) else (some not_locked, m)

  abbrev unlock_deferred : Option Error × Ql S → Option Error × Ql S
  unlock_deferred (e, m) =
      tried (unlock m) (λ unlock_error m1. (some (add_deferred e unlock_error), m1)) λ m1. (e, m1)

abbrev pub create_table : Bytes → Bytes
create_table table =
    codes "\n\tCREATE TABLE IF NOT EXISTS "
    ++ (table
        ++ (codes
              " (version uint64, dirty bool);\n\tCREATE UNIQUE INDEX IF NOT EXISTS version_unique ON "
            ++ (table ++ codes " (version);\n")))

abbrev pub truncate_rows : Bytes → Bytes
truncate_rows table = codes "TRUNCATE TABLE " ++ table

abbrev pub insert_row : Bytes → Bytes
insert_row table =
    codes "INSERT INTO " ++ (table ++ codes " (version, dirty) VALUES (uint64(?1), ?2)")

abbrev pub select_row : Bytes → Bytes
select_row table = codes "SELECT version, dirty FROM " ++ (table ++ codes " LIMIT 1")

abbrev default_table : Bytes → Bytes
default_table table = if is_empty table then default_migrations_table else table

-- `!strings.HasPrefix(tableName, "__")`.
abbrev keep_user_tables : List Bytes → List Bytes
keep_user_tables [] = []
keep_user_tables (name ∷ names) =
    if is_prefix (codes "__") name then keep_user_tables names else name ∷ keep_user_tables names

module _ {S Tx : Type 0} (sql : Sql S Tx) where
  -- An error of the rollback stands in place of the statement's.
  abbrev undo_create : Tx → Error → S → Option Error × S
  undo_create tx e s =
      tried (sql.rollback tx s) (λ rollback_error s1. (some rollback_error, s1)) λ s1. (some e, s1)

  unfoldable pub create : Bytes → S → Option Error × S
  create table s =
      opened (sql.begin s) (λ e s1. (some e, s1))
        λ tx s1. tried (sql.tx_exec tx (create_table table) [] s1) (undo_create tx) (sql.commit tx)

  unfoldable pub ensure_version_table : Ql S → Option Error × Ql S
  unfolding lock unlock create
  ensure_version_table m =
      tried (lock m) (λ e m1. (some e, m1))
        λ m1. unlock_deferred (with_db m1 (create m1.config.migrations_table m1.db))

  abbrev drop_tables : List Bytes → S → Option Error × S
  drop_tables [] s = (none, s)
  drop_tables (table ∷ tables) s =
      let drop_table = codes "DROP TABLE " ++ table in
      let rest = drop_tables tables in
      tried (execute_query sql drop_table s) (failing [] drop_table) rest

  abbrev select_tables : Bytes
  select_tables = codes "SELECT Name FROM __Table"

  abbrev when_read : Option Error → List Bytes → S → Option Error × S
  when_read (some e) tables s = failing [] select_tables e s
  when_read none tables s = drop_tables (keep_user_tables tables) s

  abbrev drop_scanned : Result (List Bytes) → Option Error → S → Option Error × S
  drop_scanned (err e) failed s = (some e, s)
  drop_scanned (ok tables) failed s = when_read failed tables s

  unfoldable pub drop_all : S → Option Error × S
  unfolding execute_query
  drop_all s =
      opened (sql.query select_tables s) (failing [] select_tables)
        λ cursor s1. close_cursor cursor (drop_scanned (scan_names cursor.rows) cursor.failed s1)

  unfoldable pub drop : Ql S → Option Error × Ql S
  unfolding drop_all
  drop m = with_db m (drop_all m.db)

  -- `ioutil.ReadAll` waits for the end of the reader.
  unfoldable pub run : Reader → Ql S → Option (Option Error × Ql S)
  unfolding execute_query
  run migration m =
      if migration.ended then some (with_db m (execute_query sql migration.bytes m.db)) else none

  unfoldable pub set_version : ℤ → Bool → Ql S → Option Error × Ql S
  unfolding rewrite_row
  set_version version dirty m = with_db m (
      rewrite_row sql (leave sql) (truncate_rows m.config.migrations_table)
        (insert_row m.config.migrations_table) version dirty m.db)

  unfoldable pub version : Ql S → Result (ℤ × Bool)
  version m = or_nil_version (sql.query_row (select_row m.config.migrations_table) m.db)

  unfoldable pub close : Ql S → Option Error × Ql S
  close m = with_db m (sql.close m.db)

  unfoldable pub ql_driver : Driver (Ql S)
  unfolding lock unlock run set_version version drop close
  ql_driver = record {
    lock = lock;
    unlock = unlock;
    run = run;
    set_version = set_version;
    version = version;
    drop = drop;
    close = close;
  }

  abbrev with_table : Option Error × Ql S → Result (Ql S) × S
  with_table (some e, m) = (err e, m.db)
  with_table (none, m) = (ok m, m.db)

  unfoldable pub with_instance : Option Config → S → Result (Ql S) × S
  unfolding ensure_version_table
  with_instance none s = (err no_config, s)
  with_instance (some config) s =
      tried (sql.ping s) (λ e s1. (err e, s1))
        λ s1. with_table (
          ensure_version_table (record {
            db = s1;
            is_locked = false;
            config = record config { migrations_table = default_table config.migrations_table };
          }))

module _ {S Tx : Type 0} (sql : Sql S Tx) (from : Opener S) where
  abbrev dbfile : ParsedUrl → Bytes
  dbfile purl = remove_first (codes "ql://") (url_text (filter_custom_query purl))

  abbrev url_config : ParsedUrl → Config
  url_config purl = record {
    database_name = purl.path;
    migrations_table = default_table (get_option purl (codes "x-migrations-table"));
  }

  abbrev connect : ParsedUrl → S → Result (Ql S)
  connect purl s = (with_instance sql (some (url_config purl)) s).0

  unfoldable pub open_url : Bytes → Result (Ql S)
  unfolding with_instance
  open_url url = do
    purl ← from.parse url
    s ← from.sql_open (codes "ql") (dbfile purl)
    connect purl s
