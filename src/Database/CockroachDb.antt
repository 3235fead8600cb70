-- ===== src/Database/CockroachDb.antt =====
-- database/cockroachdb/cockroachdb.go: the driver of CockroachDB, which locks with a row of a table.
pub mod Open
pub mod Exclusive
use migrate.Prelude.{
  ℕ, ℤ, minus_one, Bool, true, false, not, ◌&&◌, Bytes, Option, none, some, List, [], ◌∷◌, ◌++◌,
  codes, is_empty, ◌==◌, if◌then◌else◌,
}
use migrate.Errors.{Error, database_locked, not_locked, no_rows, failed_query, Result, ok, err}
use migrate.Database.Driver.{Driver, Reader}
use migrate.Database.Util.{generate_advisory_lock_id, cas_restore_on_err}
use migrate.Database.Sql.{
  Sql, Value, int, bool, text, Cursor, tried, opened, failing, add_deferred, close_cursor,
}
use migrate.Database.Sql.Transaction.{scan_names, is_kept}

pub record Config : Type 0 where
  pub migrations_table : Bytes
  pub lock_table : Bytes
  pub force_lock : Bool
  pub database_name : Bytes

pub record CockroachDb (S : Type 0) : Type 0 where
  pub db : S
  pub is_locked : Bool
  pub config : Config

-- What the driver takes of other packages: crc32.ChecksumIEEE, whether an error is a `*pq.Error` of the code
-- 42P01, `crdb.ExecuteTx` on the function that it runs, and a query within a transaction.
pub record Crdb (S Tx : Type 0) : Type 0 where
  pub checksum : Bytes → ℕ
  pub is_undefined_table : Error → Bool
  pub execute_tx : (Tx → S → Option Error × S) → S → Option Error × S
  pub tx_query : Tx → Bytes → List Value → S → Result Cursor × S

abbrev pub with_db : {S A : Type 0} → CockroachDb S → A × S → A × CockroachDb S
with_db c (a, s) = (a, record c { db = s })

abbrev pub with_flag : {S A : Type 0} → CockroachDb S → A × (Bool × S) → A × CockroachDb S
with_flag c (a, (flag, s)) = (a, record c { is_locked = flag; db = s })

abbrev pub select_lock : Config → Bytes
select_lock config = codes "SELECT * FROM " ++ (config.lock_table ++ codes " WHERE lock_id = $1")

abbrev pub insert_lock : Config → Bytes
insert_lock config = codes "INSERT INTO " ++ (config.lock_table ++ codes " (lock_id) VALUES ($1)")

abbrev pub delete_lock : Config → Bytes
delete_lock config = codes "DELETE FROM " ++ (config.lock_table ++ codes " WHERE lock_id = $1")

abbrev quoted : Bytes → Bytes
quoted name = codes "\"" ++ (name ++ codes "\"")

abbrev delete_rows : Config → Bytes
delete_rows config = codes "DELETE FROM " ++ quoted config.migrations_table

abbrev insert_row : Config → Bytes
insert_row config =
    codes "INSERT INTO "
    ++ (quoted config.migrations_table ++ codes " (version, dirty) VALUES ($1, $2)")

abbrev select_row : Config → Bytes
select_row config =
    codes "SELECT version, dirty FROM " ++ (quoted config.migrations_table ++ codes " LIMIT 1")

-- `rows.Next()`.
abbrev next : List (Result Bytes) → Bool
next [] = false
next (row ∷ rows) = true

module _ {S Tx : Type 0} (crdb : Crdb S Tx) (sql : Sql S Tx) where
  abbrev pub lock_id : Config → Bytes
  lock_id config = generate_advisory_lock_id crdb.checksum config.database_name []

  abbrev pub take_lock : Config → Bool → Tx → S → Option Error × S
  take_lock config has_row tx s =
      if has_row && not config.force_lock
      then (some database_locked, s)
      else tried (sql.tx_exec tx (insert_lock config) (text (lock_id config) ∷ []) s)
          (failing (codes "failed to set migration lock") (insert_lock config)) λ s1. (none, s1)

  -- The function that `Lock` runs in a transaction.
  abbrev pub lock_within : Config → Tx → S → Option Error × S
  lock_within config tx s =
      opened (crdb.tx_query tx (select_lock config) (text (lock_id config) ∷ []) s)
        (failing (codes "failed to fetch migration lock") (select_lock config))
        λ cursor s1. close_cursor cursor (take_lock config (next cursor.rows) tx s1)

  abbrev pub try_lock : Config → S → Option Error × S
  try_lock config s = crdb.execute_tx (lock_within config) s

  abbrev pub unlock_failed : Config → Error → S → Option Error × S
  unlock_failed config e s =
      if crdb.is_undefined_table e
      then (none, s)
      else failing (codes "failed to release migration lock") (delete_lock config) e s

  abbrev pub try_unlock : Config → S → Option Error × S
  try_unlock config s =
      tried (sql.exec (delete_lock config) (text (lock_id config) ∷ []) s) (unlock_failed config)
        λ s1. (none, s1)

  unfoldable pub lock : CockroachDb S → Option Error × CockroachDb S
  unfolding cas_restore_on_err
  lock c =
      with_flag c
        (cas_restore_on_err false true database_locked (try_lock c.config) (c.is_locked, c.db))

  unfoldable pub unlock : CockroachDb S → Option Error × CockroachDb S
  unfolding cas_restore_on_err
  unlock c =
      with_flag c
        (cas_restore_on_err true false not_locked (try_unlock c.config) (c.is_locked, c.db))

  abbrev run_query : Bytes → S → Option Error × S
  run_query query s =
      tried (sql.exec query [] s) (failing (codes "migration failed") query) λ s1. (none, s1)

  unfoldable pub run : Reader → CockroachDb S → Option (Option Error × CockroachDb S)
  run migration c =
      if migration.ended then some (with_db c (run_query migration.bytes c.db)) else none

  abbrev insert_version : Config → ℤ → Bool → Tx → S → Option Error × S
  insert_version config version dirty tx s =
      if is_kept version dirty
      then sql.tx_exec tx (insert_row config) (int version ∷ bool dirty ∷ []) s
      else (none, s)

  -- The function that `SetVersion` runs in a transaction.
  abbrev set_within : Config → ℤ → Bool → Tx → S → Option Error × S
  set_within config version dirty tx s =
      tried (sql.tx_exec tx (delete_rows config) [] s) (λ e s1. (some e, s1))
        (insert_version config version dirty tx)

  unfoldable pub set_version : ℤ → Bool → CockroachDb S → Option Error × CockroachDb S
  set_version version dirty c = with_db c (crdb.execute_tx (set_within c.config version dirty) c.db)

  abbrev read_version : Bytes → Result (ℤ × Bool) → Result (ℤ × Bool)
  read_version query (err no_rows) = ok (minus_one, false)
  read_version query (err e) =
      if crdb.is_undefined_table e then ok (minus_one, false) else err (failed_query e [] query)
  read_version query (ok row) = ok row

  unfoldable pub version : CockroachDb S → Result (ℤ × Bool)
  version c = read_version (select_row c.config) (sql.query_row (select_row c.config) c.db)

  abbrev drop_tables : List Bytes → S → Option Error × S
  drop_tables [] s = (none, s)
  drop_tables (t ∷ tables) s =
      let drop_table = codes "DROP TABLE IF EXISTS " ++ (t ++ codes " CASCADE") in
      let rest = drop_tables tables in tried (sql.exec drop_table [] s) (failing [] drop_table) rest

  abbrev select_tables : Bytes
  select_tables =
      codes
        "SELECT table_name FROM information_schema.tables WHERE table_schema=(SELECT current_schema())"

  abbrev when_read : Option Error → List Bytes → S → Option Error × S
  when_read (some e) tables s = failing [] select_tables e s
  when_read none tables s = drop_tables tables s

  abbrev drop_scanned : Result (List Bytes) → Option Error → S → Option Error × S
  drop_scanned (err e) failed s = (some e, s)
  drop_scanned (ok tables) failed s = when_read failed tables s

  unfoldable pub drop : CockroachDb S → Option Error × CockroachDb S
  drop c = with_db c (
      opened (sql.query select_tables c.db) (failing [] select_tables)
        λ cursor s1. close_cursor cursor (drop_scanned (scan_names cursor.rows) cursor.failed s1))

  unfoldable pub close : CockroachDb S → Option Error × CockroachDb S
  close c = with_db c (sql.close c.db)

  unfoldable pub cockroachdb_driver : Driver (CockroachDb S)
  unfolding lock unlock run set_version version drop close
  cockroachdb_driver = record {
    lock = lock;
    unlock = unlock;
    run = run;
    set_version = set_version;
    version = version;
    drop = drop;
    close = close;
  }
