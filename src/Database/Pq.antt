-- ===== src/Database/Pq.antt =====
-- database/postgres/postgres.go: `runStatement`, and where in a statement PostgreSQL saw an error.
use migrate.Prelude.{
  ℕ, suc, ◌+◌, ◌-◌, ℤ, Bool, true, false, ◌&&◌, ◌||◌, Bytes, Option, none, some, List, [], ◌∷◌,
  ◌++◌, leb, ltb, ◌==◌, length, take, codes, is_empty, if◌then◌else◌,
}
use migrate.Prelude.Decimal.{decimal}
use migrate.Errors.{Error, failed_query, failed_at}
use migrate.Database.Sql.{Sql, tried}

-- `*pq.Error`: the position is the number in its text, if that is one.
pub record PgError : Type 0 where
  pub position : Option ℕ
  pub message : Bytes
  pub detail : Bytes

-- What the driver takes of package lib/pq, and the runes of a text.
pub record Pq : Type 0 where
  pub quote_identifier : Bytes → Bytes
  pub pg_error : Error → Option PgError
  pub is_undefined_table : Error → Bool
  pub runes : Bytes → List ℕ

abbrev carriage_return : ℕ
carriage_return = 13

abbrev new_line : ℕ
new_line = 10

abbrev starts_with : ℕ → List ℕ → Bool
starts_with c [] = false
starts_with c (d ∷ s) = c == d

-- `strings.Replace(s, "\r\n", "\n", -1)`.
unfoldable pub unix_lines : List ℕ → List ℕ
unix_lines [] = []
unix_lines (c ∷ s) =
    let rest = unix_lines s in
    if c == carriage_return && starts_with new_line s then rest else c ∷ rest

unfoldable pub runes_count : List ℕ → ℕ → ℕ
runes_count [] target = 0
runes_count (r ∷ input) target =
    let count = runes_count input target in if r == target then suc count else count

abbrev index_before : Bool → Option ℕ → Option ℕ
index_before here (some i) = some (suc i)
index_before true none = some 0
index_before false none = none

-- `none` stands for -1.
unfoldable pub runes_last_index : List ℕ → ℕ → Option ℕ
runes_last_index [] target = none
runes_last_index (r ∷ input) target = index_before (r == target) (runes_last_index input target)

-- `pos - 1 - last`, where a missing index is -1.
abbrev column : ℕ → Option ℕ → ℕ
column position none = position
column position (some last) = position - 1 - last

-- `computeLineFromPos`, with the line and the column if the position lies in the text.
unfoldable pub compute_line_from_pos : List ℕ → ℕ → Option (ℕ × ℕ)
unfolding unix_lines runes_count runes_last_index
compute_line_from_pos s position =
    let runes = unix_lines s in
    let sel = take position runes in
    if ltb (length runes) position
    then none
    else some (runes_count sel new_line + 1, column position (runes_last_index sel new_line))

abbrev is_space : ℕ → Bool
is_space c = c == b' ' || (leb 9 c && leb c 13)

-- `strings.TrimSpace(query) == ""`, where a space is one of ASCII.
abbrev pub is_blank : Bytes → Bool
is_blank [] = true
is_blank (c ∷ s) = is_space c && is_blank s

module _ (pq : Pq) where
  abbrev located : Bytes → Option ℕ → Option (ℕ × ℕ)
  located query none = none
  located query (some position) = compute_line_from_pos (pq.runes query) position

  abbrev with_column : Bytes → Option (ℕ × ℕ) → Bytes
  with_column message none = message
  with_column message (some (line, col)) =
      message ++ (codes " (column " ++ (decimal col ++ codes ")"))

  abbrev with_detail : Bytes → Bytes → Bytes
  with_detail message detail =
      if is_empty detail then message else message ++ (codes ", " ++ detail)

  abbrev line_of : Option (ℕ × ℕ) → ℕ
  line_of none = 0
  line_of (some (line, col)) = line

  -- The error of `runStatement` for an error of the database.
  abbrev pub statement_error : Bytes → Error → Option PgError → Error
  statement_error query e none = failed_query e (codes "migration failed") query
  statement_error query e (some pg) =
      let place = located query pg.position in
      failed_at (line_of place) e
        (with_detail (with_column (codes "migration failed: " ++ pg.message) place) pg.detail) query

  module _ {S Tx : Type 0} (sql : Sql S Tx) (statement_timeout : ℤ) where
    unfoldable pub run_statement : Bytes → S → Option Error × S
    run_statement query s =
        if is_blank query
        then (none, s)
        else tried (sql.exec_within statement_timeout query s)
            (λ e s1. (some (statement_error query e (pq.pg_error e)), s1)) λ s1. (none, s1)
