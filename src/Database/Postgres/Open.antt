-- ===== src/Database/Postgres/Open.antt =====
-- database/postgres/postgres.go: how a driver comes about, from a connection, a `*sql.DB` or a URL.
use migrate.Prelude.{
  ℕ, true, false, Bytes, Option, none, some, List, [], ◌∷◌, ◌++◌, codes, ◌==◌, is_empty,
  if◌then◌else◌,
}
use migrate.Errors.{
  Error, no_config, no_database_name, no_schema, failed_query, too_many_dots, Result, ok, err,
}
use migrate.Database.Sql.{Sql, text, tried, opened, failing, add_deferred}
use migrate.Database.Postgres.{Config, Postgres, Outside, with_conn, lock, unlock, table}

-- A constructor returns a driver or an error, or it panics.
pub data Opening (A : Type 0) : Type 0 where
  made : A → Opening A
  refused : Error → Opening A
  panicked : Opening A

abbrev pub quote_mark : ℕ
quote_mark = b'"'

-- The submatches of `"(.*?)"`: the texts between two quotes of a line. `inside` is what was read since the last
-- quote that may open a pair.
abbrev quoted_after : Option Bytes → Bytes → List Bytes
quoted_after inside [] = []
quoted_after none (c ∷ s) =
    if c == quote_mark then quoted_after (some []) s else quoted_after none s
quoted_after (some inside) (c ∷ s) =
    if c == quote_mark
    then inside ∷ quoted_after none s
    else if c == 10
    then quoted_after none s
    else quoted_after (some (inside ++ c ∷ [])) s

-- `result[len(result)-1][1]` and `result[0][1]`, as the names of the table and of the schema.
abbrev split_name : Config → List Bytes → Opening Config
split_name config [] = panicked
split_name config (name ∷ []) =
    made
      (record config { migrations_schema_name = config.schema_name; migrations_table_name = name })
split_name config (schema ∷ (name ∷ [])) =
    made (record config { migrations_schema_name = schema; migrations_table_name = name })
split_name config (schema ∷ (name ∷ (more ∷ names))) = refused too_many_dots

unfoldable pub name_table : Config → Opening Config
name_table config =
    if config.migrations_table_quoted
    then split_name config (quoted_after none config.migrations_table)
    else made (record config {
      migrations_schema_name = config.schema_name;
      migrations_table_name = config.migrations_table;
    })

abbrev pub default_migrations_table : Bytes
default_migrations_table = codes "schema_migrations"

abbrev with_default_table : Config → Config
with_default_table config = record config {
  migrations_table =
      if is_empty config.migrations_table
      then default_migrations_table
      else config.migrations_table;
}

abbrev proceed : {A B : Type 0} → Opening A → (A → Opening B) → Opening B
proceed (made a) next = next a
proceed (refused e) next = refused e
proceed panicked next = panicked

-- `if config.X == "" { ... }`: the value that the database answers, unless it is empty.
module _ {S Tx : Type 0} (sql : Sql S Tx) where
  abbrev unless_empty : Error → Bytes × S → Result Bytes × S
  unless_empty e (value, s) = if is_empty value then (err e, s) else (ok value, s)

  unfoldable pub or_query : Bytes → Bytes → Error → S → Result Bytes × S
  or_query value query none_given s =
      if is_empty value
      then (opened (sql.query_text query [] s) (λ e s1. (err (failed_query e [] query), s1))
          λ answer s1. unless_empty none_given (answer, s1))
      else (ok value, s)

module _ {S Tx : Type 0} (out : Outside) (sql : Sql S Tx) where
  abbrev count_tables : Bytes
  count_tables =
      codes
        "SELECT COUNT(1) FROM information_schema.tables WHERE table_schema = $1 AND table_name = $2 LIMIT 1"

  abbrev create_table : Config → Bytes
  create_table config =
      codes "CREATE TABLE IF NOT EXISTS "
      ++ (table out sql config
          ++ codes " (version bigint not null primary key, dirty boolean not null)")

  abbrev create_unless : Config → ℕ → S → Option Error × S
  create_unless config count s =
      if count == 1
      then (none, s)
      else tried (sql.exec (create_table config) [] s) (failing [] (create_table config))
          λ s1. (none, s1)

  abbrev unlock_deferred : Option Error × Postgres S → Option Error × Postgres S
  unlock_deferred (e, p) =
      tried (unlock out sql p) (λ unlock_error p1. (some (add_deferred e unlock_error), p1))
        λ p1. (e, p1)

  unfoldable pub ensure_version_table : Postgres S → Option Error × Postgres S
  unfolding lock unlock
  ensure_version_table p =
      tried (lock out sql p) (λ e p1. (some e, p1))
        λ p1. unlock_deferred (
          with_conn p1 (
            opened
              (sql.query_count count_tables
                (text p1.config.migrations_schema_name ∷ text p1.config.migrations_table_name ∷ [])
                p1.conn)
              (failing [] count_tables) (create_unless p1.config)))

  abbrev with_table : Option Error × Postgres S → Opening (Postgres S)
  with_table (some e, p) = refused e
  with_table (none, p) = made p

  abbrev named : Config → S → Opening (Postgres S)
  named config s = proceed (name_table (with_default_table config)) λ config. with_table (
      ensure_version_table
        (record { conn = s; has_db = false; is_locked = false; config = config }))

  unfoldable pub with_connection : S → Option Config → Opening (Postgres S)
  unfolding or_query name_table ensure_version_table
  with_connection s none = refused no_config
  with_connection s (some config) =
      tried (sql.ping s) (λ e s1. refused e)
        λ s1.
          opened
            (or_query sql config.database_name (codes "SELECT CURRENT_DATABASE()") no_database_name
              s1)
            (λ e s2. refused e)
            λ database_name s2.
              opened
                (or_query sql config.schema_name (codes "SELECT CURRENT_SCHEMA()") no_schema s2)
                (λ e s3. refused e)
                λ schema_name s3.
                  named (record config { database_name = database_name; schema_name = schema_name })
                    s3

  abbrev with_db : Postgres S → Opening (Postgres S)
  with_db p = made (record p { has_db = true })

  unfoldable pub with_instance : S → Option Config → Opening (Postgres S)
  unfolding with_connection
  with_instance s config =
      tried (sql.ping s) (λ e s1. refused e)
        λ s1.
          tried (sql.connect s1) (λ e s2. refused e)
            λ s2. proceed (with_connection s2 config) with_db
