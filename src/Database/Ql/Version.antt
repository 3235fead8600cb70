-- ===== src/Database/Ql/Version.antt =====
-- database/ql/ql.go keeps the contract for the version, over a server that keeps its table.
use migrate.Prelude.{◌≡◌, refl, sym, ◌∙◌, ap, inl, inr, ℤ, Bool, Bytes, Option, some, Bool-cases}
use migrate.Errors.{Error}
use migrate.Database.Driver.{Reader}
use migrate.Database.Recorder.{recorded, Atomic, set_version-Atomic}
use migrate.Database.Sql.Recorder.{Backed, recorder}
use migrate.Database.Sql.{Sql}
use migrate.Database.Sql.Table.{Table, first_row, leave-Keeps, execute_query-rows}
use migrate.Database.Sql.Methods.{Methods, Untouched, backed}
use migrate.Database.Sql.Transaction.{or_nil_version, leave, rewrite_row, execute_query}
use migrate.Database.Ql.{
  Config, Ql, with_db, truncate_rows, insert_row, select_row, set_version, version, run, lock,
  unlock, ql_driver,
}

abbrev pub Suited : Bytes → Config → Type 0
Suited name config = config.migrations_table ≡ name

module _ {S Tx : Type 0} {sql : Sql S Tx} {name : Bytes}
    (table : Table sql (truncate_rows name) (insert_row name) (select_row name)) where
  abbrev pub IsReady : Ql S → Type 0
  IsReady m = Suited name m.config

  version-rows :
      (m : Ql S) → IsReady m → version sql m ≡ or_nil_version (first_row (table.rows m.db))
  unfolding version
  version-rows m named = rw named (ap or_nil_version (table.select_first m.db))

  run-Untouched :
      (r : Reader) (m m' : Ql S) (o : Option Error)
      → IsReady m
      → table.apart r.bytes
      → run sql r m ≡ some (o, m')
      → Untouched (ql_driver sql) table (λ m. m.db) (λ m. m.config) m m'
  unfolding run
  run-Untouched r m m' o named apart = elim (Bool-cases r.ended) [
    | inl ended ↦ rw ended λ h. kept (cc)
    | inr open_end ↦ rw open_end λ h. cc
  ]
    where
      kept :
          with_db m (execute_query sql r.bytes m.db) ≡ (o, m')
          → Untouched (ql_driver sql) table (λ m. m.db) (λ m. m.config) m m'
      kept h = (
        ap (λ p. p.1.config) (sym h),
        ap (λ p. table.rows p.1.db) (sym h) ∙ execute_query-rows table r.bytes m.db apart,
      )

  pub ql-Methods :
      Methods (ql_driver sql) table (λ m. m.db) (λ m. m.config) (Suited name) (leave sql)
  unfolding ql_driver set_version lock unlock
  ql-Methods = record {
    clear_keeps = leave-Keeps table (truncate_rows name);
    version_reads = version-rows;
    set_keeps = λ v b m. refl;
    set_writes = λ v b m named.
        ap (λ t. rewrite_row sql (leave sql) (truncate_rows t) (insert_row t) v b m.db) (sym named);
    lock_keeps = λ m. elim (Bool-cases m.is_locked) [
      | inl h ↦ rw h (refl, refl)
      | inr h ↦ rw h (refl, refl)
    ];
    unlock_keeps = λ m. elim (Bool-cases m.is_locked) [
      | inl h ↦ rw h (refl, refl)
      | inr h ↦ rw h (refl, refl)
    ];
    run_keeps = run-Untouched;
  }

  abbrev pub ql_backed : Backed (ql_driver sql) table
  unfolding ql_driver
  ql_backed = backed (ql_driver sql) table (λ m. m.db) (λ m. m.config) ql-Methods

  -- On a server that keeps the table of versions (Table): after a SetVersion that returned nil, Version answers
  -- the version and the flag that were set, or the clean nil version for a negative version that is not the
  -- dirty nil version; after one that failed, Version answers what it answered before.
  pub ql-Atomic :
      (v : ℤ) (b : Bool) (m : Ql S)
      → IsReady m
      → table.storable v
      → Atomic (ql_driver sql) (version sql m) (recorded v b) (set_version sql v b m)
  unfolding ql_driver
  ql-Atomic = set_version-Atomic (recorder ql_backed)
