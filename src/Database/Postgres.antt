-- ===== src/Database/Postgres.antt =====
-- database/postgres/postgres.go: the driver of PostgreSQL on a connection that is open.
pub mod Open
pub mod OpenUrl
pub mod Version
pub mod Panics
use migrate.Prelude.{
  ℕ, ℤ, minus_one, Bool, true, false, Bytes, Option, none, some, List, [], ◌∷◌, ◌++◌, codes, ◌==◌,
  is_empty, if◌then◌else◌,
}
use migrate.Errors.{
  Error, database_locked, not_locked, no_rows, not_closed, failed_query, Result, ok, err,
}
use migrate.Database.Driver.{Driver, Reader}
use migrate.Database.Util.{generate_advisory_lock_id, cas_restore_on_err}
use migrate.Database.Multistmt.{Chunks, parse}
use migrate.Database.Pq.{Pq, run_statement}
use migrate.Database.Sql.{
  Sql, Value, text, Cursor, tried, opened, failing, add_deferred, close_cursor,
}
use migrate.Database.Sql.Transaction.{scan_names, undo, rewrite_row}

-- The names of the table and its schema are those without quotes.
pub record Config : Type 0 where
  pub migrations_table : Bytes
  pub migrations_table_quoted : Bool
  pub multi_statement_enabled : Bool
  pub database_name : Bytes
  pub schema_name : Bytes
  pub migrations_schema_name : Bytes
  pub migrations_table_name : Bytes
  pub statement_timeout : ℤ
  pub multi_statement_max_size : ℕ

-- `has_db`: the driver was made of a `*sql.DB`, which it closes too.
pub record Postgres (S : Type 0) : Type 0 where
  pub conn : S
  pub has_db : Bool
  pub is_locked : Bool
  pub config : Config

-- `checksum` is crc32.ChecksumIEEE, and `chunks` how a migration arrives when it is read piece by piece.
pub record Outside : Type 0 where
  pub pq : Pq
  pub checksum : Bytes → ℕ
  pub chunks : Bytes → Chunks

abbrev pub with_conn : {S A : Type 0} → Postgres S → A × S → A × Postgres S
with_conn p (a, s) = (a, record p { conn = s })

abbrev pub with_flag : {S A : Type 0} → Postgres S → A × (Bool × S) → A × Postgres S
with_flag p (a, (flag, s)) = (a, record p { is_locked = flag; conn = s })

-- `multiStmtDelimiter`.
abbrev pub multi_stmt_delimiter : Bytes
multi_stmt_delimiter = codes ";"

module _ {S Tx : Type 0} (out : Outside) (sql : Sql S Tx) where
  abbrev pub table : Config → Bytes
  table config =
      out.pq.quote_identifier config.migrations_schema_name
      ++ (codes "." ++ out.pq.quote_identifier config.migrations_table_name)

  abbrev pub truncate_rows : Config → Bytes
  truncate_rows config = codes "TRUNCATE " ++ table config

  abbrev pub insert_row : Config → Bytes
  insert_row config =
      codes "INSERT INTO " ++ (table config ++ codes " (version, dirty) VALUES ($1, $2)")

  abbrev pub select_row : Config → Bytes
  select_row config = codes "SELECT version, dirty FROM " ++ (table config ++ codes " LIMIT 1")

  abbrev pub lock_id : Config → Bytes
  lock_id config =
      generate_advisory_lock_id out.checksum config.database_name
        (config.migrations_schema_name ∷ config.migrations_table_name ∷ [])

  abbrev pub try_lock : Config → S → Option Error × S
  try_lock config s =
      tried (sql.exec (codes "SELECT pg_advisory_lock($1)") (text (lock_id config) ∷ []) s)
        (failing (codes "try lock failed") (codes "SELECT pg_advisory_lock($1)")) λ s1. (none, s1)

  abbrev pub try_unlock : Config → S → Option Error × S
  try_unlock config s =
      tried (sql.exec (codes "SELECT pg_advisory_unlock($1)") (text (lock_id config) ∷ []) s)
        (failing [] (codes "SELECT pg_advisory_unlock($1)")) λ s1. (none, s1)

  unfoldable pub lock : Postgres S → Option Error × Postgres S
  unfolding cas_restore_on_err
  lock p =
      with_flag p
        (cas_restore_on_err false true database_locked (try_lock p.config) (p.is_locked, p.conn))

  unfoldable pub unlock : Postgres S → Option Error × Postgres S
  unfolding cas_restore_on_err
  unlock p =
      with_flag p
        (cas_restore_on_err true false not_locked (try_unlock p.config) (p.is_locked, p.conn))

  -- The error of the last statement that ran, which stops the parser, and the connection.
  abbrev pub keep_error : Option Error × S → Bool × (Option Error × S)
  keep_error (some e, s) = (false, (some e, s))
  keep_error (none, s) = (true, (none, s))

  abbrev pub handle_statement : ℤ → Bytes → Option Error × S → Bool × (Option Error × S)
  handle_statement timeout m (e, s) = keep_error (run_statement out.pq sql timeout m s)

  abbrev pub first_error : Option Error × (Option Error × S) → Option Error × S
  first_error (some e, (statement_error, s)) = (some e, s)
  first_error (none, r) = r

  abbrev pub run_text : Config → Bytes → S → Option Error × S
  run_text config migration s =
      if config.multi_statement_enabled
      then first_error (
          parse multi_stmt_delimiter config.multi_statement_max_size
            (handle_statement config.statement_timeout) (out.chunks migration) (none, s))
      else run_statement out.pq sql config.statement_timeout migration s

  -- A reader without an end keeps the call waiting, after the statements that came.
  unfoldable pub run : Reader → Postgres S → Option (Option Error × Postgres S)
  unfolding run_statement
  run migration p =
      if migration.ended
      then some (with_conn p (run_text p.config migration.bytes p.conn))
      else none

  unfoldable pub set_version : ℤ → Bool → Postgres S → Option Error × Postgres S
  unfolding rewrite_row
  set_version version dirty p = with_conn p (
      rewrite_row sql (undo sql) (truncate_rows p.config) (insert_row p.config) version dirty
        p.conn)

  -- No row, or no table, is the nil version; any other error is one.
  abbrev pub read_version : Bytes → Result (ℤ × Bool) → Result (ℤ × Bool)
  read_version query (err no_rows) = ok (minus_one, false)
  read_version query (err e) =
      if out.pq.is_undefined_table e then ok (minus_one, false) else err (failed_query e [] query)
  read_version query (ok row) = ok row

  unfoldable pub version : Postgres S → Result (ℤ × Bool)
  version p = read_version (select_row p.config) (sql.query_row (select_row p.config) p.conn)

  abbrev drop_tables : List Bytes → S → Option Error × S
  drop_tables [] s = (none, s)
  drop_tables (t ∷ tables) s =
      let drop_table =
        codes "DROP TABLE IF EXISTS " ++ (out.pq.quote_identifier t ++ codes " CASCADE") in
      let rest = drop_tables tables in tried (sql.exec drop_table [] s) (failing [] drop_table) rest

  abbrev select_tables : Bytes
  select_tables =
      codes
        "SELECT table_name FROM information_schema.tables WHERE table_schema=(SELECT current_schema()) AND table_type='BASE TABLE'"

  abbrev when_read : Option Error → List Bytes → S → Option Error × S
  when_read (some e) tables s = failing [] select_tables e s
  when_read none tables s = drop_tables tables s

  abbrev drop_scanned : Result (List Bytes) → Option Error → S → Option Error × S
  drop_scanned (err e) failed s = (some e, s)
  drop_scanned (ok tables) failed s = when_read failed tables s

  unfoldable pub drop : Postgres S → Option Error × Postgres S
  drop p = with_conn p (
      opened (sql.query select_tables p.conn) (failing [] select_tables)
        λ cursor s1. close_cursor cursor (drop_scanned (scan_names cursor.rows) cursor.failed s1))

  -- An error if closing the connection or the pool failed, with the text of both.
  abbrev closed : Option Error → Option Error → Option Error
  closed none none = none
  closed (some e) db_error = some not_closed
  closed none (some e) = some not_closed

  abbrev close_db : Bool → Option Error × S → Option Error × S
  close_db false (conn_error, s) = (closed conn_error none, s)
  close_db true (conn_error, s) = (closed conn_error (sql.close_pool s).0, (sql.close_pool s).1)

  unfoldable pub close : Postgres S → Option Error × Postgres S
  close p = with_conn p (close_db p.has_db (sql.close p.conn))

  unfoldable pub postgres_driver : Driver (Postgres S)
  unfolding lock unlock run set_version version drop close
  postgres_driver = record {
    lock = lock;
    unlock = unlock;
    run = run;
    set_version = set_version;
    version = version;
    drop = drop;
    close = close;
  }
