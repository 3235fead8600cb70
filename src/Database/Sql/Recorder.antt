-- ===== src/Database/Sql/Recorder.antt =====
-- A driver over a server that keeps the table of versions keeps the contract for the version.
use migrate.Prelude.{
  ◌≡◌, refl, sym, ◌∙◌, ap, zero, suc, ℤ, pos, negsuc, true, false, Bool, Bytes, Option, none, some,
}
use migrate.Errors.{Error, ok}
use migrate.Database.Driver.{Driver, Reader}
use migrate.Database.Recorder.{recorded, Recorder}
use migrate.Database.Sql.{Sql}
use migrate.Database.Sql.Table.{Table, first_row, version_rows, Rewritten}
use migrate.Database.Sql.Transaction.{or_nil_version}

or_nil_version-rows :
    (v : ℤ) (b : Bool) → or_nil_version (first_row (version_rows v b)) ≡ ok (recorded v b)
or_nil_version-rows (pos n) b = refl
or_nil_version-rows (negsuc zero) true = refl
or_nil_version-rows (negsuc zero) false = refl
or_nil_version-rows (negsuc (suc n)) b = refl

-- How the methods of a driver act on the rows of its table; `conn` is its connection.
pub record Backed {D S Tx : Type 0} {sql : Sql S Tx} {clear insert select : Bytes} (db : Driver D)
    (table : Table sql clear insert select) : Type 1 where
  pub conn : D → S
  pub IsReady : D → Type 0
  pub version_reads :
      (d : D) → IsReady d → db.version d ≡ or_nil_version (first_row (table.rows (conn d)))
  pub set_rewrites :
      (v : ℤ) (b : Bool) (d d' : D) (o : Option Error)
      → IsReady d
      → table.storable v
      → db.set_version v b d ≡ (o, d')
      → IsReady d' × Rewritten table (table.rows (conn d)) (version_rows v b) (o, conn d')
  pub set_ready : (v : ℤ) (b : Bool) (d : D) → IsReady d → IsReady (db.set_version v b d).1
  pub lock_leaves :
      (o : Option Error) (d d' : D)
      → IsReady d
      → db.lock d ≡ (o, d')
      → IsReady d' × (table.rows (conn d') ≡ table.rows (conn d))
  pub unlock_leaves :
      (o : Option Error) (d d' : D)
      → IsReady d
      → db.unlock d ≡ (o, d')
      → IsReady d' × (table.rows (conn d') ≡ table.rows (conn d))
  pub run_leaves :
      (r : Reader) (o : Option Error) (d d' : D)
      → IsReady d
      → table.apart r.bytes
      → db.run r d ≡ some (o, d')
      → IsReady d' × (table.rows (conn d') ≡ table.rows (conn d))

module _ {D S Tx : Type 0} {sql : Sql S Tx} {clear insert select : Bytes} {db : Driver D}
    {table : Table sql clear insert select} (backed : Backed db table) where
  pub same_rows :
      (d d' : D)
      → backed.IsReady d
      → backed.IsReady d' × (table.rows (backed.conn d') ≡ table.rows (backed.conn d))
      → db.version d' ≡ db.version d
  same_rows d d' ready (ready', same) =
      backed.version_reads d' ready'
      ∙ ap (λ rows. or_nil_version (first_row rows)) same
      ∙ sym (backed.version_reads d ready)

  pub set_sets :
      (v : ℤ) (b : Bool) (d d' : D)
      → backed.IsReady d'
        × Rewritten table (table.rows (backed.conn d)) (version_rows v b) (none, backed.conn d')
      → db.version d' ≡ ok (recorded v b)
  set_sets v b d d' (ready', rewritten) =
      backed.version_reads d' ready'
      ∙ ap (λ rows. or_nil_version (first_row rows)) rewritten
      ∙ or_nil_version-rows v b

  abbrev pub recorder : Recorder db
  recorder = record {
    IsReady = backed.IsReady;
    Fits = table.storable;
    Apart = λ r. table.apart r.bytes;
    set_keeps = backed.set_ready;
    set_sets =
        λ v b d d' ready fits h. set_sets v b d d' (backed.set_rewrites v b d d' none ready fits h);
    set_fails = λ v b d d' e ready fits h.
        same_rows d d' ready (backed.set_rewrites v b d d' (some e) ready fits h);
    lock_keeps = λ o d d' ready h. (
      (backed.lock_leaves o d d' ready h).0,
      same_rows d d' ready (backed.lock_leaves o d d' ready h),
    );
    unlock_keeps = λ o d d' ready h. (
      (backed.unlock_leaves o d d' ready h).0,
      same_rows d d' ready (backed.unlock_leaves o d d' ready h),
    );
    run_keeps = λ r o d d' ready apart h. (
      (backed.run_leaves r o d d' ready apart h).0,
      same_rows d d' ready (backed.run_leaves r o d d' ready apart h),
    );
  }
