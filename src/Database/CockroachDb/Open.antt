-- ===== src/Database/CockroachDb/Open.antt =====
-- database/cockroachdb/cockroachdb.go: how a driver comes about, from a `*sql.DB` or a URL.
use migrate.Prelude.{
  Bool, false, Bytes, Option, none, some, [], ◌∷◌, ◌++◌, codes, ◌==◌, is_empty, is_prefix,
  remove_first, if◌then◌else◌,
}
use migrate.Errors.{Error, no_config, no_database_name, failed_query, Result, ok, err, ◌>>=◌}
use migrate.Database.Sql.{Sql, text, tried, opened, failing, add_deferred}
use migrate.Database.Url.{ParsedUrl, Opener, get_option, filter_custom_query, url_text, parse_bool}
use migrate.Database.CockroachDb.{Config, CockroachDb, Crdb, with_db, quoted, lock, unlock}

abbrev default_migrations_table : Bytes
default_migrations_table = codes "schema_migrations"

abbrev default_lock_table : Bytes
default_lock_table = codes "schema_lock"

abbrev or_default : Bytes → Bytes → Bytes
or_default default table = if is_empty table then default else table

abbrev count_tables : Bytes
count_tables =
    codes
      "SELECT COUNT(1) FROM information_schema.tables WHERE table_name = $1 AND table_schema = (SELECT current_schema()) LIMIT 1"

abbrev create_version_table : Bytes → Bytes
create_version_table table =
    codes "CREATE TABLE "
    ++ (quoted table ++ codes " (version INT NOT NULL PRIMARY KEY, dirty BOOL NOT NULL)")

abbrev create_lock_table : Bytes → Bytes
create_lock_table table =
    codes "CREATE TABLE " ++ (quoted table ++ codes " (lock_id INT NOT NULL PRIMARY KEY)")

module _ {S Tx : Type 0} (crdb : Crdb S Tx) (sql : Sql S Tx) where
  -- Creates a table unless there is one of its name.
  unfoldable ensure_table : Bytes → Bytes → S → Option Error × S
  ensure_table table create s =
      opened (sql.query_count count_tables (text table ∷ []) s) (failing [] count_tables)
        λ count s1.
          if count == 1
          then (none, s1)
          else tried (sql.exec create [] s1) (failing [] create) λ s2. (none, s2)

  unfoldable pub ensure_lock_table : CockroachDb S → Option Error × CockroachDb S
  unfolding ensure_table
  ensure_lock_table c =
      with_db c (ensure_table c.config.lock_table (create_lock_table c.config.lock_table) c.db)

  abbrev unlock_deferred : Option Error × CockroachDb S → Option Error × CockroachDb S
  unlock_deferred (e, c) =
      tried (unlock crdb sql c) (λ unlock_error c1. (some (add_deferred e unlock_error), c1))
        λ c1. (e, c1)

  unfoldable pub ensure_version_table : CockroachDb S → Option Error × CockroachDb S
  unfolding ensure_table lock unlock
  ensure_version_table c =
      tried (lock crdb sql c) (λ e c1. (some e, c1))
        λ c1. unlock_deferred (
          with_db c1 (
            ensure_table c1.config.migrations_table
              (create_version_table c1.config.migrations_table) c1.db))

  abbrev with_version_table : CockroachDb S → Result (CockroachDb S) × S
  with_version_table c =
      tried (ensure_version_table c) (λ e c1. (err e, c1.db)) λ c1. (ok c1, c1.db)

  abbrev with_tables : CockroachDb S → Result (CockroachDb S) × S
  with_tables c = tried (ensure_lock_table c) (λ e c1. (err e, c1.db)) with_version_table

  abbrev with_config : Config → S → Result (CockroachDb S) × S
  with_config config s = with_tables (record {
    db = s;
    is_locked = false;
    config = record config {
      migrations_table = or_default default_migrations_table config.migrations_table;
      lock_table = or_default default_lock_table config.lock_table;
    };
  })

  abbrev select_database : Bytes
  select_database = codes "SELECT current_database()"

  abbrev with_name : Config → Bytes → S → Result (CockroachDb S) × S
  with_name config name s =
      if is_empty name
      then (err no_database_name, s)
      else with_config (record config { database_name = name }) s

  abbrev named : Config → S → Result (CockroachDb S) × S
  named config s =
      if is_empty config.database_name
      then opened (sql.query_text select_database [] s)
          (λ e s1. (err (failed_query e [] select_database), s1)) (with_name config)
      else with_config config s

  unfoldable pub with_instance : Option Config → S → Result (CockroachDb S) × S
  unfolding ensure_lock_table ensure_version_table
  with_instance none s = (err no_config, s)
  with_instance (some config) s = tried (sql.ping s) (λ e s1. (err e, s1)) (named config)

  module _ (from : Opener S) where
    -- `^(cockroach(db)?|crdb-postgres)` replaced by `postgres`.
    abbrev connect_string : Bytes → Bytes
    connect_string url =
        if is_prefix (codes "cockroachdb") url
        then codes "postgres" ++ remove_first (codes "cockroachdb") url
        else if is_prefix (codes "cockroach") url
        then codes "postgres" ++ remove_first (codes "cockroach") url
        else if is_prefix (codes "crdb-postgres") url
        then codes "postgres" ++ remove_first (codes "crdb-postgres") url
        else url

    abbrev or_false : Option Bool → Bool
    or_false none = false
    or_false (some b) = b

    abbrev url_config : ParsedUrl → Config
    url_config purl = record {
      database_name = purl.path;
      migrations_table =
          or_default default_migrations_table (get_option purl (codes "x-migrations-table"));
      lock_table = or_default default_lock_table (get_option purl (codes "x-lock-table"));
      force_lock = or_false (parse_bool (get_option purl (codes "x-force-lock")));
    }

    unfoldable pub open_url : Bytes → Result (CockroachDb S)
    unfolding with_instance
    open_url url = do
      purl ← from.parse url
      s ← from.sql_open (codes "postgres") (connect_string (url_text (filter_custom_query purl)))
      (with_instance (some (url_config purl)) s).0
