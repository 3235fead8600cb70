-- ===== src/Database/Sql/Methods.antt =====
-- How to show of a SQL driver that it keeps the contract for the version: what its methods do to its settings
-- and its connection.
use migrate.Prelude.{◌≡◌, sym, ◌∙◌, ap, subst, ℤ, Bool, Bytes, Option, some}
use migrate.Errors.{Error}
use migrate.Database.Driver.{Driver, Reader}
use migrate.Database.Sql.{Sql}
use migrate.Database.Sql.Table.{
  Table, first_row, version_rows, Rewritten, Keeps, rewrite_row-Rewritten,
}
use migrate.Database.Sql.Transaction.{or_nil_version, rewrite_row}
use migrate.Database.Sql.Recorder.{Backed}

module _ {D S Tx C : Type 0} {sql : Sql S Tx} {clear insert select : Bytes} (db : Driver D)
    (table : Table sql clear insert select) (conn : D → S) (config : D → C) where
  -- `d'` has the settings of `d`, and the table has the same rows.
  abbrev pub Untouched : D → D → Type 0
  Untouched d d' = (config d' ≡ config d) × (table.rows (conn d') ≡ table.rows (conn d))

  pub record Methods (Suited : C → Type 0)
      (clear_failed : Bytes → Tx → Error → S → Option Error × S) : Type 1 where
    pub clear_keeps : (tx : Tx) → Keeps table (clear_failed clear tx)
    pub version_reads :
        (d : D)
        → Suited (config d)
        → db.version d ≡ or_nil_version (first_row (table.rows (conn d)))
    pub set_keeps : (v : ℤ) (b : Bool) (d : D) → config (db.set_version v b d).1 ≡ config d
    pub set_writes :
        (v : ℤ) (b : Bool) (d : D)
        → Suited (config d)
        → rewrite_row sql clear_failed clear insert v b (conn d)
          ≡ ((db.set_version v b d).0, conn (db.set_version v b d).1)
    pub lock_keeps : (d : D) → Untouched d (db.lock d).1
    pub unlock_keeps : (d : D) → Untouched d (db.unlock d).1
    pub run_keeps :
        (r : Reader) (d d' : D) (o : Option Error)
        → Suited (config d)
        → table.apart r.bytes
        → db.run r d ≡ some (o, d')
        → Untouched d d'

  -- A driver that changes its connection as these say, and its settings never, keeps the contract.
  module _ {Suited : C → Type 0} {clear_failed : Bytes → Tx → Error → S → Option Error × S}
      (methods : Methods Suited clear_failed) where
    pub stays :
        {o : Option Error} {d d' : D} (r : Option Error × D)
        → Untouched d r.1
        → Suited (config d)
        → r ≡ (o, d')
        → Suited (config d') × (table.rows (conn d') ≡ table.rows (conn d))
    stays {o} {d} {d'} r same ready h =
        let at_end = subst (λ r. Untouched d r.1) h same in
        (subst Suited (sym at_end.0) ready, at_end.1)

    pub set_rewrites :
        (v : ℤ) (b : Bool) (d d' : D) (o : Option Error)
        → Suited (config d)
        → table.storable v
        → db.set_version v b d ≡ (o, d')
        → Suited (config d') × Rewritten table (table.rows (conn d)) (version_rows v b) (o, conn d')
    set_rewrites v b d d' o ready fits h = (
      subst (λ r. Suited (config r.1)) h (subst Suited (sym (methods.set_keeps v b d)) ready),
      subst (Rewritten table (table.rows (conn d)) (version_rows v b))
          (methods.set_writes v b d ready ∙ ap (λ r. (r.0, conn r.1)) h)
          (rewrite_row-Rewritten table clear_failed methods.clear_keeps v b (conn d) fits),
    )

    abbrev pub backed : Backed db table
    backed = record {
      conn = conn;
      IsReady = λ d. Suited (config d);
      version_reads = methods.version_reads;
      set_rewrites = set_rewrites;
      set_ready = λ v b d ready. subst Suited (sym (methods.set_keeps v b d)) ready;
      lock_leaves = λ o d d' ready h. stays (db.lock d) (methods.lock_keeps d) ready h;
      unlock_leaves = λ o d d' ready h. stays (db.unlock d) (methods.unlock_keeps d) ready h;
      run_leaves = λ r o d d' ready apart h.
          let same = methods.run_keeps r d d' o ready apart h in
          (subst Suited (sym same.0) ready, same.1);
    }
