-- ===== src/Database/Redshift/Version.antt =====
-- database/redshift/redshift.go keeps the contract for the version, over a server that keeps its table.
use migrate.Prelude.{
  ◌≡◌, refl, sym, ◌∙◌, ap, inl, inr, ℤ, Bool, Bytes, Option, some, [], ◌∷◌, List, Bool-cases,
}
use migrate.Errors.{Error}
use migrate.Database.Driver.{Reader}
use migrate.Database.Pq.{Pq}
use migrate.Database.Recorder.{recorded, Atomic, set_version-Atomic}
use migrate.Database.Sql.Recorder.{Backed, recorder}
use migrate.Database.Sql.{Sql, tried_cases}
use migrate.Database.Sql.Table.{Row, Table, first_row, undo-Keeps}
use migrate.Database.Sql.Methods.{Methods, Untouched, backed}
use migrate.Database.Sql.Transaction.{or_nil_version, undo, rewrite_row}
use migrate.Database.Redshift.{
  Config, Redshift, with_conn, delete_rows, insert_row, select_row, set_version, read_version,
  version, run, run_query, lock, unlock, redshift_driver,
}

abbrev pub Named : Bytes → Config → Type 0
Named name config = config.migrations_table ≡ name

module _ {S Tx : Type 0} (pq : Pq) {sql : Sql S Tx} (name : Bytes)
    (table : Table sql (delete_rows name) (insert_row name) (select_row name)) where
  read_version-rows :
      (query : Bytes) (rows : List Row)
      → read_version pq sql query (first_row rows) ≡ or_nil_version (first_row rows)
  read_version-rows query [] = refl
  read_version-rows query (row ∷ rows) = refl

  version-rows :
      (p : Redshift S)
      → Named name p.config
      → version pq sql p ≡ or_nil_version (first_row (table.rows p.conn))
  unfolding version
  version-rows p named =
      ap (λ t. read_version pq sql (select_row t) (sql.query_row (select_row t) p.conn)) named
      ∙ ap (read_version pq sql (select_row name)) (table.select_first p.conn)
      ∙ read_version-rows (select_row name) (table.rows p.conn)

  query-rows :
      (query : Bytes) (s : S)
      → table.apart query
      → table.rows (run_query pq sql query s).1 ≡ table.rows s
  unfolding run_query
  query-rows query s apart =
      tried_cases (λ (r : Option Error × S). table.rows r.1 ≡ table.rows s) (sql.exec query [] s)
        (λ e s1 h. ap (λ r. table.rows r.1) (sym h) ∙ table.exec_keeps query [] s apart)
        (λ s1 h. ap (λ r. table.rows r.1) (sym h) ∙ table.exec_keeps query [] s apart)

  abbrev pub Same : Redshift S → Redshift S → Type 0
  Same = Untouched (redshift_driver pq sql) table (λ p. p.conn) (λ p. p.config)

  run-Same :
      (r : Reader) (p p' : Redshift S) (o : Option Error)
      → table.apart r.bytes
      → run pq sql r p ≡ some (o, p')
      → Same p p'
  unfolding run
  run-Same r p p' o apart = elim (Bool-cases r.ended) [
    | inl ended ↦ rw ended λ h. kept (cc)
    | inr open_end ↦ rw open_end λ h. cc
  ]
    where
      kept : with_conn p (run_query pq sql r.bytes p.conn) ≡ (o, p') → Same p p'
      kept h = (
        ap (λ q. q.1.config) (sym h),
        ap (λ q. table.rows q.1.conn) (sym h) ∙ query-rows r.bytes p.conn apart,
      )

  pub redshift-Methods :
      Methods (redshift_driver pq sql) table (λ p. p.conn) (λ p. p.config) (Named name) (undo sql)
  unfolding redshift_driver set_version lock unlock
  redshift-Methods = record {
    clear_keeps = undo-Keeps table (delete_rows name);
    version_reads = version-rows;
    set_keeps = λ v b p. refl;
    set_writes = λ v b p named.
        ap (λ t. rewrite_row sql (undo sql) (delete_rows t) (insert_row t) v b p.conn) (sym named);
    lock_keeps = λ p. elim (Bool-cases p.is_locked) [
      | inl h ↦ rw h (refl, refl)
      | inr h ↦ rw h (refl, refl)
    ];
    unlock_keeps = λ p. elim (Bool-cases p.is_locked) [
      | inl h ↦ rw h (refl, refl)
      | inr h ↦ rw h (refl, refl)
    ];
    run_keeps = λ r p p' o named apart h. run-Same r p p' o apart h;
  }

  abbrev pub redshift_backed : Backed (redshift_driver pq sql) table
  unfolding redshift_driver
  redshift_backed =
      backed (redshift_driver pq sql) table (λ p. p.conn) (λ p. p.config) redshift-Methods

  -- On a server that keeps the table of versions (Table): after a SetVersion that returned nil, Version answers
  -- the version and the flag that were set, or the clean nil version for a negative version that is not the
  -- dirty nil version; after one that failed, Version answers what it answered before.
  pub redshift-Atomic :
      (v : ℤ) (b : Bool) (p : Redshift S)
      → Named name p.config
      → table.storable v
      → Atomic (redshift_driver pq sql) (version pq sql p) (recorded v b) (set_version pq sql v b p)
  unfolding redshift_driver
  redshift-Atomic = set_version-Atomic (recorder redshift_backed)
