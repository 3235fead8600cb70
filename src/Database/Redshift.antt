-- ===== src/Database/Redshift.antt =====
-- database/redshift/redshift.go: the driver of Amazon Redshift, which has no locks of its own.
pub mod Open
pub mod Version
use migrate.Prelude.{
  ℤ, minus_one, Bool, true, false, Bytes, Option, none, some, List, [], ◌∷◌, ◌++◌, codes,
  if◌then◌else◌,
}
use migrate.Errors.{
  Error, database_locked, not_locked, no_rows, not_closed, failed_query, Result, ok, err,
}
use migrate.Database.Driver.{Driver, Reader}
use migrate.Database.Pq.{Pq, statement_error}
use migrate.Database.Sql.{Sql, tried, opened, failing, close_cursor}
use migrate.Database.Sql.Transaction.{scan_names, undo, rewrite_row}

pub record Config : Type 0 where
  pub migrations_table : Bytes
  pub database_name : Bytes

pub record Redshift (S : Type 0) : Type 0 where
  pub is_locked : Bool
  pub conn : S
  pub config : Config

abbrev pub with_conn : {S A : Type 0} → Redshift S → A × S → A × Redshift S
with_conn p (a, s) = (a, record p { conn = s })

module _ {S : Type 0} where
  -- `p.isLocked.CAS(false, true)`.
  unfoldable pub lock : Redshift S → Option Error × Redshift S
  lock p = if p.is_locked then (some database_locked, p) else (none, record p { is_locked = true })

  unfoldable pub unlock : Redshift S → Option Error × Redshift S
  unlock p = if p.is_locked then (none, record p { is_locked = false }) else (some not_locked, p)

abbrev quoted : Bytes → Bytes
quoted name = codes "\"" ++ (name ++ codes "\"")

abbrev pub delete_rows : Bytes → Bytes
delete_rows table = codes "DELETE FROM " ++ quoted table

abbrev pub insert_row : Bytes → Bytes
insert_row table =
    codes "INSERT INTO " ++ (quoted table ++ codes " (version, dirty) VALUES ($1, $2)")

abbrev pub select_row : Bytes → Bytes
select_row table = codes "SELECT version, dirty FROM " ++ (quoted table ++ codes " LIMIT 1")

module _ {S Tx : Type 0} (pq : Pq) (sql : Sql S Tx) where
  unfoldable pub run_query : Bytes → S → Option Error × S
  run_query query s =
      tried (sql.exec query [] s) (λ e s1. (some (statement_error pq query e (pq.pg_error e)), s1))
        λ s1. (none, s1)

  unfoldable pub run : Reader → Redshift S → Option (Option Error × Redshift S)
  unfolding run_query
  run migration p =
      if migration.ended then some (with_conn p (run_query migration.bytes p.conn)) else none

  unfoldable pub set_version : ℤ → Bool → Redshift S → Option Error × Redshift S
  unfolding rewrite_row
  set_version version dirty p = with_conn p (
      rewrite_row sql (undo sql) (delete_rows p.config.migrations_table)
        (insert_row p.config.migrations_table) version dirty p.conn)

  -- No row, or no table, is the nil version; any other error is one.
  abbrev pub read_version : Bytes → Result (ℤ × Bool) → Result (ℤ × Bool)
  read_version query (err no_rows) = ok (minus_one, false)
  read_version query (err e) =
      if pq.is_undefined_table e then ok (minus_one, false) else err (failed_query e [] query)
  read_version query (ok row) = ok row

  unfoldable pub version : Redshift S → Result (ℤ × Bool)
  version p =
      let query = select_row p.config.migrations_table in
      read_version query (sql.query_row query p.conn)

  abbrev drop_tables : List Bytes → S → Option Error × S
  drop_tables [] s = (none, s)
  drop_tables (t ∷ tables) s =
      let drop_table = codes "DROP TABLE IF EXISTS " ++ (t ++ codes " CASCADE") in
      let rest = drop_tables tables in tried (sql.exec drop_table [] s) (failing [] drop_table) rest

  abbrev select_tables : Bytes
  select_tables =
      codes
        "SELECT table_name FROM information_schema.tables WHERE table_schema=(SELECT current_schema()) AND table_type='BASE TABLE'"

  abbrev when_read : Option Error → List Bytes → S → Option Error × S
  when_read (some e) tables s = failing [] select_tables e s
  when_read none tables s = drop_tables tables s

  abbrev drop_scanned : Result (List Bytes) → Option Error → S → Option Error × S
  drop_scanned (err e) failed s = (some e, s)
  drop_scanned (ok tables) failed s = when_read failed tables s

  unfoldable pub drop : Redshift S → Option Error × Redshift S
  drop p = with_conn p (
      opened (sql.query select_tables p.conn) (failing [] select_tables)
        λ cursor s1. close_cursor cursor (drop_scanned (scan_names cursor.rows) cursor.failed s1))

  abbrev closed : Option Error → Option Error → Option Error
  closed none none = none
  closed (some e) db_error = some not_closed
  closed none (some e) = some not_closed

  -- The connection, and then the pool that it is of.
  abbrev close_db : Option Error × S → Option Error × S
  close_db (conn_error, s) = (closed conn_error (sql.close_pool s).0, (sql.close_pool s).1)

  unfoldable pub close : Redshift S → Option Error × Redshift S
  close p = with_conn p (close_db (sql.close p.conn))

  unfoldable pub redshift_driver : Driver (Redshift S)
  unfolding lock unlock run set_version version drop close
  redshift_driver = record {
    lock = lock;
    unlock = unlock;
    run = run;
    set_version = set_version;
    version = version;
    drop = drop;
    close = close;
  }
