-- ===== src/Database/Sql/Transaction.antt =====
-- What the SQL drivers write alike: `executeQuery`, `SetVersion` and the reading of the table names in `Drop`,
-- as they stand in database/sqlite/sqlite.go. Where the drivers differ, the difference is an argument.
use migrate.Prelude.{
  ℤ, pos, minus_one, false, eqb_ℤ, ltb_ℤ, not, Bool, ◌&&◌, ◌||◌, Bytes, Option, none, List, [], ◌∷◌,
  codes, is_empty, if◌then◌else◌,
}
use migrate.Errors.{Error, also, Result, ok, err}
use migrate.Database.Sql.{Sql, int, bool, tried, opened, failing}

abbrev add_name : Bytes → Result (List Bytes) → Result (List Bytes)
add_name name (err e) = err e
add_name name (ok names) = if is_empty name then ok names else ok (name ∷ names)

-- `for tables.Next() { tables.Scan(&tableName) ... }`: the names that are not empty.
unfoldable pub scan_names : List (Result Bytes) → Result (List Bytes)
scan_names [] = ok []
scan_names (err e ∷ rows) = err e
scan_names (ok name ∷ rows) = add_name name (scan_names rows)

-- `Version` takes every error for a table without a row.
abbrev pub or_nil_version : Result (ℤ × Bool) → Result (ℤ × Bool)
or_nil_version (err e) = ok (minus_one, false)
or_nil_version (ok row) = ok row

-- `version >= 0 || (version == database.NilVersion && dirty)`.
abbrev pub is_kept : ℤ → Bool → Bool
is_kept version dirty = not (ltb_ℤ version (pos 0)) || (eqb_ℤ version minus_one && dirty)

module _ {S Tx : Type 0} (sql : Sql S Tx) where
  -- A statement failed: the transaction is rolled back.
  abbrev pub undo : Bytes → Tx → Error → S → Option Error × S
  undo query tx e s =
      tried (sql.rollback tx s) (λ rollback_error s1. failing [] query (also e rollback_error) s1)
        (λ s1. failing [] query e s1)

  -- A statement failed: the function returns, and the transaction stays open.
  abbrev pub leave : Bytes → Tx → Error → S → Option Error × S
  leave query tx e s = failing [] query e s

  abbrev pub commit : Tx → S → Option Error × S
  commit tx s =
      tried (sql.commit tx s) (failing (codes "transaction commit failed") []) λ s1. (none, s1)

  unfoldable pub execute_query : Bytes → S → Option Error × S
  execute_query query s =
      opened (sql.begin s) (failing (codes "transaction start failed") [])
        λ tx s1. tried (sql.tx_exec tx query [] s1) (undo query tx) (commit tx)

  abbrev pub insert_version : Tx → Bytes → ℤ → Bool → S → Option Error × S
  insert_version tx insert version dirty s =
      tried (sql.tx_exec tx insert (int version ∷ bool dirty ∷ []) s) (undo insert tx) (commit tx)

  abbrev pub write_version : Bool → Tx → Bytes → ℤ → Bool → S → Option Error × S
  write_version kept tx insert version dirty s =
      if kept then insert_version tx insert version dirty s else commit tx s

  -- `clear_failed` is what follows when the rows could not be deleted.
  unfoldable pub rewrite_row :
      (Bytes → Tx → Error → S → Option Error × S) → Bytes → Bytes → ℤ → Bool → S → Option Error × S
  rewrite_row clear_failed clear insert version dirty s =
      opened (sql.begin s) (failing (codes "transaction start failed") []) λ tx s1.
        tried (sql.tx_exec tx clear [] s1) (clear_failed clear tx)
          (write_version (is_kept version dirty) tx insert version dirty)
