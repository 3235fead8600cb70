-- ===== src/Examples/Postgres.antt =====
-- The PostgreSQL driver on the server in memory: a version is set, and quoted names without a table.
use migrate.Prelude.{ℕ, ◌≡◌, refl, pos, Bool, false, true, Bytes, none, some, [], ◌∷◌, ◌++◌, codes}
use migrate.Database.Recorder.{recorded, Atomic}
use migrate.Database.Multistmt.{eof}
use migrate.Database.Sql.{Sql}
use migrate.Database.Sql.Table.{Table}
use migrate.Database.Postgres.{
  Config, Postgres, Outside, truncate_rows, insert_row, select_row, postgres_driver, set_version,
  version,
}
use migrate.Database.Postgres.Open.{with_connection, panicked}
use migrate.Database.Postgres.Version.{postgres-Atomic}
use migrate.Database.Postgres.Panics.{with_connection-panicked}
use migrate.Examples.Server.{Server, server, memory, memory_table}

abbrev out : Outside
out = record {
  pq = record {
    quote_identifier = λ name. codes "\"" ++ (name ++ codes "\"");
    pg_error = λ e. none;
    is_undefined_table = λ e. false;
    runes = λ s. s;
  };
  checksum = λ name. 7;
  chunks = λ migration. eof;
}

abbrev config : Bool → Bytes → Config
config quoted table = record {
  migrations_table = table;
  migrations_table_quoted = quoted;
  multi_statement_enabled = false;
  database_name = codes "app";
  schema_name = codes "public";
  migrations_schema_name = codes "public";
  migrations_table_name = table;
  statement_timeout = pos 0;
  multi_statement_max_size = 1;
}

abbrev plain : Config
plain = config false (codes "versions")

-- The statements do not depend on a connection; this one only names them.
abbrev names : Sql Server ℕ
names = memory [] []

abbrev clear : Bytes
clear = truncate_rows out names plain

abbrev insert : Bytes
insert = insert_row out names plain

abbrev sql : Sql Server ℕ
sql = memory clear insert

abbrev table : Table sql clear insert (select_row out names plain)
table = memory_table clear insert refl refl refl (select_row out names plain)

abbrev postgres : Postgres Server
postgres = record {
  conn = server ((pos 1, false) ∷ []);
  has_db = false;
  is_locked = false;
  config = plain;
}

postgres-Atomic_example :
    Atomic
      (postgres_driver out sql)
      (version out sql postgres)
      (recorded (pos 3) true)
      (set_version out sql (pos 3) true postgres)
postgres-Atomic_example =
    postgres-Atomic out plain table refl (refl, refl) (refl, refl) (pos 3) true postgres refl refl

with_connection-panicked_example :
    with_connection out sql (server []) (some (config true [])) ≡ panicked
with_connection-panicked_example =
    with_connection-panicked out sql (config true []) (server []) (server []) refl refl refl refl
      refl
