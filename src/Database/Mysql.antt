-- ===== src/Database/Mysql.antt =====
-- database/mysql/mysql.go: the driver of MySQL on a connection that is open.
pub mod Open
pub mod Version
use migrate.Prelude.{
  ℕ, ℤ, minus_one, Bool, true, false, not, Bytes, Option, none, some, List, [], ◌∷◌, ◌++◌, codes,
  is_empty, is_prefix, if◌then◌else◌,
}
use migrate.Prelude.Map.{Map, get}
use migrate.Errors.{
  Error, database_locked, not_locked, no_config, no_database_name, no_rows, not_closed,
  failed_query, bad_option, external, Result, ok, err, ◌>>=◌,
}
use migrate.Registry.{bytes_eq}
use migrate.Database.Driver.{Driver, Reader}
use migrate.Database.Util.{generate_advisory_lock_id, cas_restore_on_err}
use migrate.Database.Url.{parse_bool}
use migrate.Database.Sql.{
  Sql, Value, text, Cursor, tried, opened, failing, add_deferred, close_cursor,
}
use migrate.Database.Sql.Transaction.{scan_names, undo, rewrite_row}

pub record Config : Type 0 where
  pub migrations_table : Bytes
  pub database_name : Bytes
  pub no_lock : Bool

-- `has_db`: the driver was made of a `*sql.DB`, which it closes too.
pub record Mysql (S : Type 0) : Type 0 where
  pub conn : S
  pub has_db : Bool
  pub is_locked : Bool
  pub config : Config

-- `*mysql.Config`: the name of the database and the parameters of a DSN, and its text.
pub record Dsn : Type 0 where
  pub db_name : Bytes
  pub params : Map Bytes Bytes
  pub print : Map Bytes Bytes → Bytes

-- What the driver takes of other packages: crc32.ChecksumIEEE, whether an error is a `*mysql.MySQLError` of the
-- number 0, and `urlToMySQLConfig`, which parses a URL with package mysql.
pub record Outside : Type 0 where
  pub checksum : Bytes → ℕ
  pub is_number_zero : Error → Bool
  pub url_to_mysql_config : Bytes → Result Dsn

abbrev pub default_migrations_table : Bytes
default_migrations_table = codes "schema_migrations"

abbrev pub with_conn : {S A : Type 0} → Mysql S → A × S → A × Mysql S
with_conn m (a, s) = (a, record m { conn = s })

abbrev pub with_flag : {S A : Type 0} → Mysql S → A × (Bool × S) → A × Mysql S
with_flag m (a, (flag, s)) = (a, record m { is_locked = flag; conn = s })

abbrev quoted : Bytes → Bytes
quoted name = codes "`" ++ (name ++ codes "`")

abbrev pub delete_rows : Bytes → Bytes
delete_rows table = codes "DELETE FROM " ++ quoted table

abbrev pub insert_row : Bytes → Bytes
insert_row table = codes "INSERT INTO " ++ (quoted table ++ codes " (version, dirty) VALUES (?, ?)")

abbrev pub select_row : Bytes → Bytes
select_row table = codes "SELECT version, dirty FROM " ++ (quoted table ++ codes " LIMIT 1")

abbrev pub create_table : Bytes → Bytes
create_table table =
    codes "CREATE TABLE "
    ++ (quoted table ++ codes " (version bigint not null primary key, dirty boolean not null)")

abbrev pub show_table : Bytes → Bytes
show_table table = codes "SHOW TABLES LIKE '" ++ (table ++ codes "'")

abbrev is_any : Bytes → List Bytes → Bool
is_any s [] = false
is_any s (t ∷ ts) = if bytes_eq.beq s t then true else is_any s ts

-- `readBool`: the value and whether it is one.
unfoldable pub read_bool : Bytes → Bool × Bool
read_bool input =
    if is_any input (codes "1" ∷ codes "true" ∷ codes "TRUE" ∷ codes "True" ∷ [])
    then (true, true)
    else if is_any input (codes "0" ∷ codes "false" ∷ codes "FALSE" ∷ codes "False" ∷ [])
    then (false, true)
    else (false, false)

module _ {S Tx : Type 0} (out : Outside) (sql : Sql S Tx) where
  -- `fmt.Sprintf("%s:%s", m.config.DatabaseName, m.config.MigrationsTable)`
  abbrev pub lock_id : Config → Bytes
  lock_id config =
      generate_advisory_lock_id out.checksum
        (config.database_name ++ (codes ":" ++ config.migrations_table)) []

  abbrev pub got_lock : Bool × S → Option Error × S
  got_lock (success, s) = if success then (none, s) else (some database_locked, s)

  abbrev pub try_lock : Config → S → Option Error × S
  try_lock config s =
      if config.no_lock
      then (none, s)
      else (opened (sql.query_bool (codes "SELECT GET_LOCK(?, 10)") (text (lock_id config) ∷ []) s)
          (failing (codes "try lock failed") (codes "SELECT GET_LOCK(?, 10)"))
          λ success s1. got_lock (success, s1))

  abbrev pub try_unlock : Config → S → Option Error × S
  try_unlock config s =
      if config.no_lock
      then (none, s)
      else (tried (sql.exec (codes "SELECT RELEASE_LOCK(?)") (text (lock_id config) ∷ []) s)
          (failing [] (codes "SELECT RELEASE_LOCK(?)")) λ s1. (none, s1))

  unfoldable pub lock : Mysql S → Option Error × Mysql S
  unfolding cas_restore_on_err
  lock m =
      with_flag m
        (cas_restore_on_err false true database_locked (try_lock m.config) (m.is_locked, m.conn))

  unfoldable pub unlock : Mysql S → Option Error × Mysql S
  unfolding cas_restore_on_err
  unlock m =
      with_flag m
        (cas_restore_on_err true false not_locked (try_unlock m.config) (m.is_locked, m.conn))

  abbrev pub run_text : Bytes → S → Option Error × S
  run_text migration s =
      tried (sql.exec migration [] s) (failing (codes "migration failed") migration)
        λ s1. (none, s1)

  -- `ioutil.ReadAll` waits for the end of the reader.
  unfoldable pub run : Reader → Mysql S → Option (Option Error × Mysql S)
  run migration m =
      if migration.ended then some (with_conn m (run_text migration.bytes m.conn)) else none

  unfoldable pub set_version : ℤ → Bool → Mysql S → Option Error × Mysql S
  unfolding rewrite_row
  set_version version dirty m = with_conn m (
      rewrite_row sql (undo sql) (delete_rows m.config.migrations_table)
        (insert_row m.config.migrations_table) version dirty m.conn)

  -- No row, or an error of the number 0, is the nil version; any other error is one.
  abbrev pub read_version : Bytes → Result (ℤ × Bool) → Result (ℤ × Bool)
  read_version query (err no_rows) = ok (minus_one, false)
  read_version query (err e) =
      if out.is_number_zero e then ok (minus_one, false) else err (failed_query e [] query)
  read_version query (ok row) = ok row

  unfoldable pub version : Mysql S → Result (ℤ × Bool)
  version m =
      read_version (select_row m.config.migrations_table)
        (sql.query_row (select_row m.config.migrations_table) m.conn)

  abbrev drop_tables : List Bytes → S → Option Error × S
  drop_tables [] s = (none, s)
  drop_tables (t ∷ tables) s =
      let drop_table = codes "DROP TABLE IF EXISTS " ++ quoted t in
      let rest = drop_tables tables in tried (sql.exec drop_table [] s) (failing [] drop_table) rest

  -- The deferred statement, whose error is dropped.
  abbrev enable_checks : Option Error × S → Option Error × S
  enable_checks (e, s) = (e, (sql.exec (codes "SET foreign_key_checks = 1") [] s).1)

  abbrev drop_named : List Bytes → S → Option Error × S
  drop_named [] s = (none, s)
  drop_named (t ∷ tables) s =
      tried (sql.exec (codes "SET foreign_key_checks = 0") [] s)
        (failing [] (codes "SET foreign_key_checks = 0"))
        λ s1. enable_checks (drop_tables (t ∷ tables) s1)

  abbrev when_read : Option Error → List Bytes → S → Option Error × S
  when_read (some e) tables s = failing [] (codes "SHOW TABLES LIKE '%'") e s
  when_read none tables s = drop_named tables s

  abbrev drop_scanned : Result (List Bytes) → Option Error → S → Option Error × S
  drop_scanned (err e) failed s = (some e, s)
  drop_scanned (ok tables) failed s = when_read failed tables s

  unfoldable pub drop : Mysql S → Option Error × Mysql S
  drop m = with_conn m (
      opened (sql.query (codes "SHOW TABLES LIKE '%'") m.conn)
        (failing [] (codes "SHOW TABLES LIKE '%'"))
        λ cursor s1. close_cursor cursor (drop_scanned (scan_names cursor.rows) cursor.failed s1))

  -- An error if closing the connection or the pool failed, with the text of both.
  abbrev closed : Option Error → Option Error → Option Error
  closed none none = none
  closed (some e) db_error = some not_closed
  closed none (some e) = some not_closed

  abbrev close_db : Bool → Option Error × S → Option Error × S
  close_db false (conn_error, s) = (closed conn_error none, s)
  close_db true (conn_error, s) = (closed conn_error (sql.close_pool s).0, (sql.close_pool s).1)

  unfoldable pub close : Mysql S → Option Error × Mysql S
  close m = with_conn m (close_db m.has_db (sql.close m.conn))

  unfoldable pub mysql_driver : Driver (Mysql S)
  unfolding lock unlock run set_version version drop close
  mysql_driver = record {
    lock = lock;
    unlock = unlock;
    run = run;
    set_version = set_version;
    version = version;
    drop = drop;
    close = close;
  }
