-- ===== src/Database/Postgres/Panics.antt =====
-- database/postgres/postgres.go: `WithConnection` with quoted names and the default table.
use migrate.Prelude.{◌≡◌, true, false, none, some, is_empty}
use migrate.Database.Sql.{Sql}
use migrate.Database.Postgres.{Config, Outside}
use migrate.Database.Postgres.Open.{with_connection, or_query, name_table, panicked}

module _ {S Tx : Type 0} (out : Outside) (sql : Sql S Tx) where
  -- With the names of the database and the schema given, on a connection that answers: WithConnection panics if
  -- MigrationsTableQuoted is set and no MigrationsTable is given, since the default name that it fills in has no
  -- quotes.
  pub with_connection-panicked :
      (config : Config) (s s1 : S)
      → sql.ping s ≡ (none, s1)
      → config.migrations_table_quoted ≡ true
      → is_empty config.migrations_table ≡ true
      → is_empty config.database_name ≡ false
      → is_empty config.schema_name ≡ false
      → with_connection out sql s (some config) ≡ panicked
  unfolding with_connection or_query name_table
  with_connection-panicked config s s1 pinged quoted no_table database schema =
      rw (pinged, database, schema, quoted, no_table)
