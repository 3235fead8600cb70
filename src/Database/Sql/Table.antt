-- ===== src/Database/Sql/Table.antt =====
-- What the drivers rely on of a database server for the table that holds the version, and `SetVersion` over
-- such a server.
use migrate.Prelude.{
  ℕ, ltb, arith, zero, suc, negsuc, minus_one, pos, subst, refl, ◌≡◌, sym, ◌∙◌, ap, ℤ, Bool, true,
  false, Bytes, Option, none, some, List, [], ◌∷◌, ◌++◌, if◌then◌else◌,
}
use migrate.Errors.{Error, no_rows, Result, ok, err}
use migrate.Database.Sql.{tried_cases, opened_cases, Sql, Value, int, bool}
use migrate.Database.Sql.Transaction.{
  is_kept, undo, leave, commit, insert_version, write_version, execute_query, rewrite_row,
}

abbrev pub Row : Type 0
Row = ℤ × Bool

-- What `QueryRow` scans of the rows.
abbrev pub first_row : List Row → Result Row
first_row [] = err no_rows
first_row (row ∷ rows) = ok row

-- `rows` is what is committed and `working` what a transaction sees. `contained` holds of a statement that stays
-- inside its transaction (unlike "COMMIT"), `apart` of one that also leaves the table of versions alone, and `storable` of a version that the column takes unchanged.
pub record Table {S Tx : Type 0} (sql : Sql S Tx) (clear insert select : Bytes) : Type 1 where
  pub rows : S → List Row
  pub working : Tx → S → List Row
  pub contained : Bytes → Type 0
  pub storable : ℤ → Type 0
  pub begin_keeps : (s : S) → rows (sql.begin s).1 ≡ rows s
  pub tx_exec_keeps :
      (tx : Tx) (query : Bytes) (args : List Value) (s : S)
      → contained query
      → rows (sql.tx_exec tx query args s).1 ≡ rows s
  pub begin_sees : (tx : Tx) (s s' : S) → sql.begin s ≡ (ok tx, s') → working tx s' ≡ rows s
  pub apart : Bytes → Type 0
  pub apart_contained : (query : Bytes) → apart query → contained query
  pub apart_keeps :
      (tx : Tx) (query : Bytes) (s s' : S)
      → apart query
      → sql.tx_exec tx query [] s ≡ (none, s')
      → working tx s' ≡ working tx s
  pub exec_keeps :
      (query : Bytes) (args : List Value) (s : S)
      → apart query
      → rows (sql.exec query args s).1 ≡ rows s
  pub query_bool_keeps :
      (query : Bytes) (args : List Value) (s : S)
      → apart query
      → rows (sql.query_bool query args s).1 ≡ rows s
  pub within_keeps :
      (timeout : ℤ) (query : Bytes) (s : S)
      → apart query
      → rows (sql.exec_within timeout query s).1 ≡ rows s
  pub clear_contained : contained clear
  pub insert_contained : contained insert
  pub clear_empties :
      (tx : Tx) (s s' : S) → sql.tx_exec tx clear [] s ≡ (none, s') → working tx s' ≡ []
  pub insert_appends :
      (tx : Tx) (v : ℤ) (d : Bool) (s s' : S)
      → storable v
      → sql.tx_exec tx insert (int v ∷ bool d ∷ []) s ≡ (none, s')
      → working tx s' ≡ working tx s ++ (v, d) ∷ []
  pub rollback_keeps : (tx : Tx) (s : S) → rows (sql.rollback tx s).1 ≡ rows s
  pub commit_publishes :
      (tx : Tx) (s s' : S) → sql.commit tx s ≡ (none, s') → rows s' ≡ working tx s
  pub commit_fails :
      (tx : Tx) (s s' : S) (e : Error) → sql.commit tx s ≡ (some e, s') → rows s' ≡ rows s
  pub select_first : (s : S) → sql.query_row select s ≡ first_row (rows s)

-- The rows that `SetVersion` leaves.
abbrev pub version_rows : ℤ → Bool → List Row
version_rows (pos n) dirty = (pos n, dirty) ∷ []
version_rows (negsuc zero) true = (minus_one, true) ∷ []
version_rows (negsuc zero) false = []
version_rows (negsuc (suc n)) dirty = []

not_below : (n : ℕ) → ltb n 0 ≡ false
not_below n = ground arith

kept_rows : (v : ℤ) (d : Bool) → (if is_kept v d then (v, d) ∷ [] else []) ≡ version_rows v d
kept_rows (pos n) d = rw (not_below n) refl
kept_rows (negsuc zero) true = refl
kept_rows (negsuc zero) false = refl
kept_rows (negsuc (suc n)) d = ground arith

module _ {S Tx : Type 0} {sql : Sql S Tx} {clear insert select : Bytes}
    (table : Table sql clear insert select) where
  -- A call that returned nil left the rows `new`, and one that failed left the rows `old`.
  abbrev pub Rewritten : List Row → List Row → Option Error × S → Type 0
  Rewritten old new (none, s) = table.rows s ≡ new
  Rewritten old new (some e, s) = table.rows s ≡ old

  -- The error `e` is handled without a change of the rows.
  abbrev pub Keeps : (Error → S → Option Error × S) → Type 0
  Keeps handler =
      (old new : List Row) (e : Error) (s : S)
      → table.rows s ≡ old
      → Rewritten old new (handler e s)

  pub leave-Keeps : (query : Bytes) (tx : Tx) → Keeps (leave sql query tx)
  leave-Keeps query tx old new e s kept = kept

  rows_of :
      {A : Type 0} {r : A × S} {a : A} {s : S} {old : List Row}
      → table.rows r.1 ≡ old
      → r ≡ (a, s)
      → table.rows s ≡ old
  rows_of kept e = ap (λ r. table.rows r.1) (sym e) ∙ kept

  pub undo-Keeps : (query : Bytes) (tx : Tx) → Keeps (undo sql query tx)
  undo-Keeps query tx old new e s kept =
      tried_cases (Rewritten old new) (sql.rollback tx s)
        (λ f s1 h. rows_of (table.rollback_keeps tx s ∙ kept) h)
        (λ s1 h. rows_of (table.rollback_keeps tx s ∙ kept) h)

  commit-Rewritten :
      (old new : List Row) (tx : Tx) (s : S)
      → table.rows s ≡ old
      → table.working tx s ≡ new
      → Rewritten old new (commit sql tx s)
  commit-Rewritten old new tx s kept written =
      tried_cases (Rewritten old new) (sql.commit tx s)
        (λ e s1 h. table.commit_fails tx s s1 e h ∙ kept)
        (λ s1 h. table.commit_publishes tx s s1 h ∙ written)

  insert_version-Rewritten :
      (old : List Row) (tx : Tx) (v : ℤ) (d : Bool) (s : S)
      → table.storable v
      → table.rows s ≡ old
      → table.working tx s ≡ []
      → Rewritten old ((v, d) ∷ []) (insert_version sql tx insert v d s)
  insert_version-Rewritten old tx v d s fits kept cleared =
      tried_cases (Rewritten old ((v, d) ∷ [])) (sql.tx_exec tx insert (int v ∷ bool d ∷ []) s)
        (λ e s1 h. undo-Keeps insert tx old ((v, d) ∷ []) e s1 (rows_of (unchanged) h))
        (λ s1 h.
          commit-Rewritten old ((v, d) ∷ []) tx s1 (rows_of unchanged h)
            (table.insert_appends tx v d s s1 fits h ∙ ap (λ rows. rows ++ (v, d) ∷ []) cleared))
    where
      unchanged : table.rows (sql.tx_exec tx insert (int v ∷ bool d ∷ []) s).1 ≡ old
      unchanged =
          table.tx_exec_keeps tx insert (int v ∷ bool d ∷ []) s table.insert_contained ∙ kept

  write_version-Rewritten :
      (old : List Row) (kept : Bool) (tx : Tx) (v : ℤ) (d : Bool) (s : S)
      → table.storable v
      → table.rows s ≡ old
      → table.working tx s ≡ []
      → Rewritten old (if kept then (v, d) ∷ [] else []) (write_version sql kept tx insert v d s)
  write_version-Rewritten old true tx v d s fits = insert_version-Rewritten old tx v d s fits
  write_version-Rewritten old false tx v d s fits = commit-Rewritten old [] tx s

  pub rewrite_row-Rewritten :
      (clear_failed : Bytes → Tx → Error → S → Option Error × S)
      → ((tx : Tx) → Keeps (clear_failed clear tx))
      → (v : ℤ) (d : Bool) (s : S) → table.storable v
      → Rewritten
          (table.rows s)
          (version_rows v d)
          (rewrite_row sql clear_failed clear insert v d s)
  unfolding rewrite_row
  rewrite_row-Rewritten clear_failed keeps v d s fits =
      opened_cases (Rewritten (table.rows s) (version_rows v d)) (sql.begin s)
        (λ e s1 h. rows_of (table.begin_keeps s) h)
        (λ tx s1 h.
          tried_cases (Rewritten (table.rows s) (version_rows v d)) (sql.tx_exec tx clear [] s1)
            (λ e s2 h2.
              keeps tx (table.rows s) (version_rows v d) e s2 (rows_of (cleared tx s1 h) h2))
            (λ s2 h2.
              subst
                (λ new.
                  Rewritten (table.rows s) new (write_version sql (is_kept v d) tx insert v d s2))
                (kept_rows v d)
                (write_version-Rewritten (table.rows s) (is_kept v d) tx v d s2 fits
                  (rows_of (cleared tx s1 h) h2) (table.clear_empties tx s1 s2 h2))))
    where
      cleared :
          (tx : Tx) (s1 : S)
          → sql.begin s ≡ (ok tx, s1)
          → table.rows (sql.tx_exec tx clear [] s1).1 ≡ table.rows s
      cleared tx s1 h =
          table.tx_exec_keeps tx clear [] s1 table.clear_contained ∙ rows_of (table.begin_keeps s) h

  Kept : List Row → Option Error × S → Type 0
  Kept old r = table.rows r.1 ≡ old

  Kept-undo :
      (old : List Row) (query : Bytes) (tx : Tx) (e : Error) (s : S)
      → table.rows s ≡ old
      → Kept old (undo sql query tx e s)
  unfolding Kept
  Kept-undo old query tx e s kept =
      tried_cases (Kept old) (sql.rollback tx s)
        (λ f s1 h. rows_of (table.rollback_keeps tx s ∙ kept) h)
        (λ s1 h. rows_of (table.rollback_keeps tx s ∙ kept) h)

  Kept-commit :
      (old : List Row) (tx : Tx) (s : S)
      → table.rows s ≡ old
      → table.working tx s ≡ old
      → Kept old (commit sql tx s)
  unfolding Kept
  Kept-commit old tx s kept same =
      tried_cases (Kept old) (sql.commit tx s) (λ e s1 h. table.commit_fails tx s s1 e h ∙ kept)
        (λ s1 h. table.commit_publishes tx s s1 h ∙ same)

  pub execute_query-rows :
      (query : Bytes) (s : S)
      → table.apart query
      → table.rows (execute_query sql query s).1 ≡ table.rows s
  unfolding execute_query Kept
  execute_query-rows query s apart =
      opened_cases (Kept (table.rows s)) (sql.begin s) (λ e s1 h. rows_of (table.begin_keeps s) h)
        (λ tx s1 h.
          tried_cases (Kept (table.rows s)) (sql.tx_exec tx query [] s1)
            (λ e s2 h2. Kept-undo (table.rows s) query tx e s2 (rows_of (run tx s1 h) h2))
            (λ s2 h2.
              Kept-commit (table.rows s) tx s2 (rows_of (run tx s1 h) h2)
                (table.apart_keeps tx query s1 s2 apart h2 ∙ table.begin_sees tx s s1 h)))
    where
      run :
          (tx : Tx) (s1 : S)
          → sql.begin s ≡ (ok tx, s1)
          → table.rows (sql.tx_exec tx query [] s1).1 ≡ table.rows s
      run tx s1 h =
          table.tx_exec_keeps tx query [] s1 (table.apart_contained query apart)
          ∙ rows_of (table.begin_keeps s) h
