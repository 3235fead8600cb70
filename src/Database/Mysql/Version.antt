-- ===== src/Database/Mysql/Version.antt =====
-- database/mysql/mysql.go keeps the contract for the version, over a server that keeps its table.
use migrate.Prelude.{
  codes, true, false, ◌≡◌, refl, sym, ◌∙◌, ap, inl, inr, ℤ, Bool, Bytes, Option, some, List, [],
  ◌∷◌, Bool-cases,
}
use migrate.Errors.{database_locked, not_locked, Error}
use migrate.Database.Driver.{Reader}
use migrate.Database.Recorder.{recorded, Atomic, set_version-Atomic}
use migrate.Database.Util.{cas_restore_on_err_keeps}
use migrate.Database.Sql.{Sql, text, tried_cases, opened_cases}
use migrate.Database.Sql.Methods.{Methods, Untouched, backed}
use migrate.Database.Sql.Recorder.{Backed, recorder}
use migrate.Database.Sql.Table.{Table, Row, first_row, undo-Keeps}
use migrate.Database.Sql.Transaction.{or_nil_version, undo, rewrite_row}
use migrate.Database.Mysql.{
  Config, Mysql, Outside, with_conn, delete_rows, insert_row, select_row, read_version, set_version,
  version, run, run_text, lock, unlock, try_lock, try_unlock, lock_id, got_lock, mysql_driver,
}

module _ {S Tx : Type 0} (out : Outside) {sql : Sql S Tx} (name : Bytes)
    (table : Table sql (delete_rows name) (insert_row name) (select_row name))
    (locking : table.apart (codes "SELECT GET_LOCK(?, 10)"))
    (unlocking : table.apart (codes "SELECT RELEASE_LOCK(?)")) where
  abbrev pub IsReady : Mysql S → Type 0
  IsReady p = p.config.migrations_table ≡ name

  read_version-rows :
      (query : Bytes) (rows : List Row)
      → read_version out sql query (first_row rows) ≡ or_nil_version (first_row rows)
  read_version-rows query [] = refl
  read_version-rows query (row ∷ rows) = refl

  pub version-rows :
      (p : Mysql S) → IsReady p → version out sql p ≡ or_nil_version (first_row (table.rows p.conn))
  unfolding version
  version-rows p ready =
      ap (λ c. read_version out sql (select_row c) (sql.query_row (select_row c) p.conn)) ready
      ∙ ap (read_version out sql (select_row name)) (table.select_first p.conn)
      ∙ read_version-rows (select_row name) (table.rows p.conn)

  text-rows :
      (query : Bytes) (s : S)
      → table.apart query
      → table.rows (run_text out sql query s).1 ≡ table.rows s
  text-rows query s apart =
      tried_cases (λ (r : Option Error × S). table.rows r.1 ≡ table.rows s) (sql.exec query [] s)
        (λ e s1 g. ap (λ r. table.rows r.1) (sym g) ∙ table.exec_keeps query [] s apart)
        (λ s1 g. ap (λ r. table.rows r.1) (sym g) ∙ table.exec_keeps query [] s apart)

  run-ready :
      (r : Reader) (p p' : Mysql S) (o : Option Error)
      → IsReady p
      → run out sql r p ≡ some (o, p')
      → with_conn p (run_text out sql r.bytes p.conn) ≡ (o, p')
  unfolding run
  run-ready r p p' o ready = elim (Bool-cases r.ended) [
    | inl ended ↦ rw ended λ h. cc
    | inr open_end ↦ rw open_end λ h. cc
  ]

  abbrev pub Same : Mysql S → Mysql S → Type 0
  Same = Untouched (mysql_driver out sql) table (λ p. p.conn) (λ p. p.config)

  run-Same :
      (r : Reader) (p p' : Mysql S) (o : Option Error)
      → IsReady p
      → table.apart r.bytes
      → run out sql r p ≡ some (o, p')
      → Same p p'
  run-Same r p p' o ready apart h =
      let ran = run-ready r p p' o ready h in
      (
        ap (λ q. q.1.config) (sym ran),
        ap (λ q. table.rows q.1.conn) (sym ran) ∙ text-rows r.bytes p.conn apart,
      )

  got_lock-rows : (b : Bool) (s : S) → table.rows (got_lock out sql (b, s)).1 ≡ table.rows s
  got_lock-rows true s = refl
  got_lock-rows false s = refl

  try_lock-rows : (c : Config) (s : S) → table.rows (try_lock out sql c s).1 ≡ table.rows s
  try_lock-rows c s = elim (Bool-cases c.no_lock) [
    | inl h ↦ rw h refl
    | inr h ↦ rw h (
        opened_cases (λ (r : Option Error × S). table.rows r.1 ≡ table.rows s)
          (sql.query_bool (codes "SELECT GET_LOCK(?, 10)") (text (lock_id out sql c) ∷ []) s)
          (λ e s1 g.
            ap (λ r. table.rows r.1) (sym g)
            ∙ table.query_bool_keeps (codes "SELECT GET_LOCK(?, 10)")
                (text (lock_id out sql c) ∷ []) s locking)
          (λ b s1 g.
            got_lock-rows b s1
            ∙ ap (λ r. table.rows r.1) (sym g)
            ∙ table.query_bool_keeps (codes "SELECT GET_LOCK(?, 10)")
                (text (lock_id out sql c) ∷ []) s locking))
  ]

  try_unlock-rows : (c : Config) (s : S) → table.rows (try_unlock out sql c s).1 ≡ table.rows s
  try_unlock-rows c s = elim (Bool-cases c.no_lock) [
    | inl h ↦ rw h refl
    | inr h ↦ rw h (
        tried_cases (λ (r : Option Error × S). table.rows r.1 ≡ table.rows s)
          (sql.exec (codes "SELECT RELEASE_LOCK(?)") (text (lock_id out sql c) ∷ []) s)
          (λ e s1 g.
            ap (λ r. table.rows r.1) (sym g)
            ∙ table.exec_keeps (codes "SELECT RELEASE_LOCK(?)") (text (lock_id out sql c) ∷ []) s
                unlocking)
          (λ s1 g.
            ap (λ r. table.rows r.1) (sym g)
            ∙ table.exec_keeps (codes "SELECT RELEASE_LOCK(?)") (text (lock_id out sql c) ∷ []) s
                unlocking))
  ]

  lock-Same : (p : Mysql S) → Same p (lock out sql p).1
  unfolding lock
  lock-Same p = (
    refl,
    cas_restore_on_err_keeps (λ s. table.rows s ≡ table.rows p.conn) false true database_locked
        (try_lock out sql p.config) p.is_locked p.conn refl (try_lock-rows p.config p.conn),
  )

  unlock-Same : (p : Mysql S) → Same p (unlock out sql p).1
  unfolding unlock
  unlock-Same p = (
    refl,
    cas_restore_on_err_keeps (λ s. table.rows s ≡ table.rows p.conn) true false not_locked
        (try_unlock out sql p.config) p.is_locked p.conn refl (try_unlock-rows p.config p.conn),
  )

  pub mysql-Methods :
      Methods
        (mysql_driver out sql)
        table
        (λ p. p.conn)
        (λ p. p.config)
        (λ c. c.migrations_table ≡ name)
        (undo sql)
  unfolding mysql_driver set_version
  mysql-Methods = record {
    clear_keeps = undo-Keeps table (delete_rows name);
    version_reads = version-rows;
    set_keeps = λ v b p. refl;
    set_writes = λ v b p ready.
        ap (λ c. rewrite_row sql (undo sql) (delete_rows c) (insert_row c) v b p.conn) (sym ready);
    lock_keeps = lock-Same;
    unlock_keeps = unlock-Same;
    run_keeps = run-Same;
  }

  abbrev pub mysql_backed : Backed (mysql_driver out sql) table
  unfolding mysql_driver
  mysql_backed = backed (mysql_driver out sql) table (λ p. p.conn) (λ p. p.config) mysql-Methods

  -- On a server that keeps the table of versions (Table): after a
  -- SetVersion that returned nil, Version answers the version and the flag that were set, or the clean nil
  -- version for a negative version that is not the dirty nil version; after one that failed, Version answers
  -- what it answered before.
  pub mysql-Atomic :
      (v : ℤ) (b : Bool) (p : Mysql S)
      → IsReady p
      → table.storable v
      → Atomic (mysql_driver out sql) (version out sql p) (recorded v b) (set_version out sql v b p)
  unfolding mysql_driver
  mysql-Atomic = set_version-Atomic (recorder mysql_backed)
