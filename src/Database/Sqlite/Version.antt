-- ===== src/Database/Sqlite/Version.antt =====
-- database/sqlite/sqlite.go keeps the contract for the version, over a server that keeps its table.
use migrate.Prelude.{
  ◌≡◌, refl, sym, ◌∙◌, ap, inl, inr, ℤ, false, Bool, Bytes, Option, some, Bool-cases,
}
use migrate.Errors.{Error}
use migrate.Database.Driver.{Reader}
use migrate.Database.Recorder.{recorded, Atomic, set_version-Atomic}
use migrate.Database.Sql.Recorder.{Backed, recorder}
use migrate.Database.Sql.{Sql}
use migrate.Database.Sql.Table.{Table, first_row, leave-Keeps, execute_query-rows}
use migrate.Database.Sql.Methods.{Methods, Untouched, backed}
use migrate.Database.Sql.Transaction.{or_nil_version, leave, rewrite_row, execute_query}
use migrate.Database.Sqlite.{
  Config, Sqlite, with_db, delete_rows, insert_row, select_row, set_version, version, run, lock,
  unlock, sqlite_driver,
}

abbrev pub Suited : Bytes → Config → Type 0
Suited name config = (config.migrations_table ≡ name) × (config.no_tx_wrap ≡ false)

module _ {S Tx : Type 0} {sql : Sql S Tx} {name : Bytes}
    (table : Table sql (delete_rows name) (insert_row name) (select_row name)) where
  abbrev pub IsReady : Sqlite S → Type 0
  IsReady m = Suited name m.config

  version-rows :
      (m : Sqlite S) → IsReady m → version sql m ≡ or_nil_version (first_row (table.rows m.db))
  unfolding version
  version-rows m (named, wrapped) = rw named (ap or_nil_version (table.select_first m.db))

  run-ready :
      (r : Reader) (m m' : Sqlite S) (o : Option Error)
      → IsReady m
      → run sql r m ≡ some (o, m')
      → with_db m (execute_query sql r.bytes m.db) ≡ (o, m')
  unfolding run
  run-ready r m m' o (named, wrapped) = elim (Bool-cases r.ended) [
    | inl ended ↦ rw (ended, wrapped) λ h. cc
    | inr open_end ↦ rw open_end λ h. cc
  ]

  run-Untouched :
      (r : Reader) (m m' : Sqlite S) (o : Option Error)
      → IsReady m
      → table.apart r.bytes
      → run sql r m ≡ some (o, m')
      → Untouched (sqlite_driver sql) table (λ m. m.db) (λ m. m.config) m m'
  run-Untouched r m m' o ready apart h =
      let ran = run-ready r m m' o ready h in
      (
        ap (λ p. p.1.config) (sym ran),
        ap (λ p. table.rows p.1.db) (sym ran) ∙ execute_query-rows table r.bytes m.db apart,
      )

  pub sqlite-Methods :
      Methods (sqlite_driver sql) table (λ m. m.db) (λ m. m.config) (Suited name) (leave sql)
  unfolding sqlite_driver set_version lock unlock
  sqlite-Methods = record {
    clear_keeps = leave-Keeps table (delete_rows name);
    version_reads = version-rows;
    set_keeps = λ v b m. refl;
    set_writes = λ v b m ready.
        ap (λ t. rewrite_row sql (leave sql) (delete_rows t) (insert_row t) v b m.db) (sym ready.0);
    lock_keeps = λ m. elim (Bool-cases m.is_locked) [
      | inl h ↦ rw h (refl, refl)
      | inr h ↦ rw h (refl, refl)
    ];
    unlock_keeps = λ m. elim (Bool-cases m.is_locked) [
      | inl h ↦ rw h (refl, refl)
      | inr h ↦ rw h (refl, refl)
    ];
    run_keeps = run-Untouched;
  }

  abbrev pub sqlite_backed : Backed (sqlite_driver sql) table
  unfolding sqlite_driver
  sqlite_backed = backed (sqlite_driver sql) table (λ m. m.db) (λ m. m.config) sqlite-Methods

  -- On a driver that wraps its migrations in transactions, over a server that keeps the table of versions
  -- (Table): after a SetVersion that returned nil, Version answers the version and the flag that were set, or the
  -- clean nil version for a negative version that is not the dirty nil version; after one that failed, Version
  -- answers what it answered before.
  pub sqlite-Atomic :
      (v : ℤ) (b : Bool) (m : Sqlite S)
      → IsReady m
      → table.storable v
      → Atomic (sqlite_driver sql) (version sql m) (recorded v b) (set_version sql v b m)
  unfolding sqlite_driver
  sqlite-Atomic = set_version-Atomic (recorder sqlite_backed)
