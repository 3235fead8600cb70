-- ===== src/Database/Postgres/Version.antt =====
-- database/postgres/postgres.go keeps the contract for the version, over a server that keeps its table.
use migrate.Prelude.{
  codes, true, ◌≡◌, refl, sym, ◌∙◌, ap, inl, inr, ℤ, Bool, false, Bytes, Option, some, List, [],
  ◌∷◌, Bool-cases,
}
use migrate.Errors.{database_locked, not_locked, Error}
use migrate.Database.Driver.{Reader}
use migrate.Database.Recorder.{recorded, Atomic, set_version-Atomic}
use migrate.Database.Pq.{run_statement, is_blank}
use migrate.Database.Util.{cas_restore_on_err_keeps}
use migrate.Database.Sql.{Sql, text, tried_cases}
use migrate.Database.Sql.Methods.{Methods, Untouched, backed}
use migrate.Database.Sql.Recorder.{Backed, recorder}
use migrate.Database.Sql.Table.{Table, Row, first_row, undo-Keeps}
use migrate.Database.Sql.Transaction.{or_nil_version, undo, rewrite_row}
use migrate.Database.Postgres.{
  Config, Postgres, Outside, with_conn, truncate_rows, insert_row, select_row, read_version,
  set_version, version, run, run_text, lock, unlock, try_lock, try_unlock, lock_id, postgres_driver,
}

module _ {S Tx : Type 0} (out : Outside) {sql : Sql S Tx} (config : Config)
    (table : Table sql
      (truncate_rows out sql config)
      (insert_row out sql config)
      (select_row out sql config))
    (single : config.multi_statement_enabled ≡ false)
    (locking : table.apart (codes "SELECT pg_advisory_lock($1)"))
    (unlocking : table.apart (codes "SELECT pg_advisory_unlock($1)")) where
  abbrev pub IsReady : Postgres S → Type 0
  IsReady p = p.config ≡ config

  read_version-rows :
      (query : Bytes) (rows : List Row)
      → read_version out sql query (first_row rows) ≡ or_nil_version (first_row rows)
  read_version-rows query [] = refl
  read_version-rows query (row ∷ rows) = refl

  pub version-rows :
      (p : Postgres S)
      → IsReady p
      → version out sql p ≡ or_nil_version (first_row (table.rows p.conn))
  unfolding version
  version-rows p ready =
      ap
        (λ c.
          read_version out sql (select_row out sql c) (sql.query_row (select_row out sql c) p.conn))
        ready
      ∙ ap (read_version out sql (select_row out sql config)) (table.select_first p.conn)
      ∙ read_version-rows (select_row out sql config) (table.rows p.conn)

  statement-rows :
      (query : Bytes) (s : S)
      → table.apart query
      → table.rows (run_statement out.pq sql config.statement_timeout query s).1 ≡ table.rows s
  unfolding run_statement
  statement-rows query s apart = elim (Bool-cases (is_blank query)) [
    | inl h ↦ rw h refl
    | inr h ↦ rw h (
        tried_cases (λ (r : Option Error × S). table.rows r.1 ≡ table.rows s)
          (sql.exec_within config.statement_timeout query s)
          (λ e s1 g.
            ap (λ r. table.rows r.1) (sym g)
            ∙ table.within_keeps config.statement_timeout query s apart)
          (λ s1 g.
            ap (λ r. table.rows r.1) (sym g)
            ∙ table.within_keeps config.statement_timeout query s apart))
  ]

  one_statement :
      (migration : Bytes) (p : Postgres S)
      → IsReady p
      → run_text out sql p.config migration p.conn
        ≡ run_statement out.pq sql config.statement_timeout migration p.conn
  one_statement migration p ready =
      ap (λ c. run_text out sql c migration p.conn) ready ∙ rw single refl

  run-ready :
      (r : Reader) (p p' : Postgres S) (o : Option Error)
      → IsReady p
      → run out sql r p ≡ some (o, p')
      → with_conn p (run_statement out.pq sql config.statement_timeout r.bytes p.conn) ≡ (o, p')
  unfolding run
  run-ready r p p' o ready = elim (Bool-cases r.ended) [
    | inl ended ↦ rw ended λ h. cc (h, one_statement r.bytes p ready)
    | inr open_end ↦ rw open_end λ h. cc
  ]

  abbrev pub Same : Postgres S → Postgres S → Type 0
  Same = Untouched (postgres_driver out sql) table (λ p. p.conn) (λ p. p.config)

  run-Same :
      (r : Reader) (p p' : Postgres S) (o : Option Error)
      → IsReady p
      → table.apart r.bytes
      → run out sql r p ≡ some (o, p')
      → Same p p'
  run-Same r p p' o ready apart h =
      let ran = run-ready r p p' o ready h in
      (
        ap (λ q. q.1.config) (sym ran),
        ap (λ q. table.rows q.1.conn) (sym ran) ∙ statement-rows r.bytes p.conn apart,
      )

  try_lock-rows : (c : Config) (s : S) → table.rows (try_lock out sql c s).1 ≡ table.rows s
  try_lock-rows c s =
      tried_cases (λ (r : Option Error × S). table.rows r.1 ≡ table.rows s)
        (sql.exec (codes "SELECT pg_advisory_lock($1)") (text (lock_id out sql c) ∷ []) s)
        (λ e s1 g.
          ap (λ r. table.rows r.1) (sym g)
          ∙ table.exec_keeps (codes "SELECT pg_advisory_lock($1)") (text (lock_id out sql c) ∷ []) s
              locking)
        (λ s1 g.
          ap (λ r. table.rows r.1) (sym g)
          ∙ table.exec_keeps (codes "SELECT pg_advisory_lock($1)") (text (lock_id out sql c) ∷ []) s
              locking)

  try_unlock-rows : (c : Config) (s : S) → table.rows (try_unlock out sql c s).1 ≡ table.rows s
  try_unlock-rows c s =
      tried_cases (λ (r : Option Error × S). table.rows r.1 ≡ table.rows s)
        (sql.exec (codes "SELECT pg_advisory_unlock($1)") (text (lock_id out sql c) ∷ []) s)
        (λ e s1 g.
          ap (λ r. table.rows r.1) (sym g)
          ∙ table.exec_keeps (codes "SELECT pg_advisory_unlock($1)") (text (lock_id out sql c) ∷ [])
              s unlocking)
        (λ s1 g.
          ap (λ r. table.rows r.1) (sym g)
          ∙ table.exec_keeps (codes "SELECT pg_advisory_unlock($1)") (text (lock_id out sql c) ∷ [])
              s unlocking)

  lock-Same : (p : Postgres S) → Same p (lock out sql p).1
  unfolding lock
  lock-Same p = (
    refl,
    cas_restore_on_err_keeps (λ s. table.rows s ≡ table.rows p.conn) false true database_locked
        (try_lock out sql p.config) p.is_locked p.conn refl (try_lock-rows p.config p.conn),
  )

  unlock-Same : (p : Postgres S) → Same p (unlock out sql p).1
  unfolding unlock
  unlock-Same p = (
    refl,
    cas_restore_on_err_keeps (λ s. table.rows s ≡ table.rows p.conn) true false not_locked
        (try_unlock out sql p.config) p.is_locked p.conn refl (try_unlock-rows p.config p.conn),
  )

  pub postgres-Methods :
      Methods
        (postgres_driver out sql)
        table
        (λ p. p.conn)
        (λ p. p.config)
        (λ c. c ≡ config)
        (undo sql)
  unfolding postgres_driver set_version
  postgres-Methods = record {
    clear_keeps = undo-Keeps table (truncate_rows out sql config);
    version_reads = version-rows;
    set_keeps = λ v b p. refl;
    set_writes = λ v b p ready.
        ap
          (λ c.
            rewrite_row sql (undo sql) (truncate_rows out sql c) (insert_row out sql c) v b p.conn)
          (sym ready);
    lock_keeps = lock-Same;
    unlock_keeps = unlock-Same;
    run_keeps = run-Same;
  }

  abbrev pub postgres_backed : Backed (postgres_driver out sql) table
  unfolding postgres_driver
  postgres_backed =
      backed (postgres_driver out sql) table (λ p. p.conn) (λ p. p.config) postgres-Methods

  -- On a server that keeps the table of versions (Table) and a driver without multi-statement mode: after a
  -- SetVersion that returned nil, Version answers the version and the flag that were set, or the clean nil
  -- version for a negative version that is not the dirty nil version; after one that failed, Version answers
  -- what it answered before.
  pub postgres-Atomic :
      (v : ℤ) (b : Bool) (p : Postgres S)
      → IsReady p
      → table.storable v
      → Atomic
          (postgres_driver out sql)
          (version out sql p)
          (recorded v b)
          (set_version out sql v b p)
  unfolding postgres_driver
  postgres-Atomic = set_version-Atomic (recorder postgres_backed)
