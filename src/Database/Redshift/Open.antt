-- ===== src/Database/Redshift/Open.antt =====
-- database/redshift/redshift.go: how a driver comes about, from a `*sql.DB` or a URL.
use migrate.Prelude.{
  false, Bytes, Option, none, some, [], ◌∷◌, ◌++◌, codes, ◌==◌, is_empty, if◌then◌else◌,
}
use migrate.Errors.{Error, no_config, no_database_name, failed_query, Result, ok, err, ◌>>=◌}
use migrate.Database.Sql.{Sql, text, tried, opened, failing, add_deferred}
use migrate.Database.Url.{ParsedUrl, Opener, get_option, filter_custom_query, url_text}
use migrate.Database.Redshift.{Config, Redshift, with_conn, quoted, lock, unlock}

abbrev default_migrations_table : Bytes
default_migrations_table = codes "schema_migrations"

abbrev default_table : Bytes → Bytes
default_table table = if is_empty table then default_migrations_table else table

abbrev count_tables : Bytes
count_tables =
    codes
      "SELECT COUNT(1) FROM information_schema.tables WHERE table_name = $1 AND table_schema = (SELECT current_schema()) LIMIT 1"

abbrev create_table : Bytes → Bytes
create_table table =
    codes "CREATE TABLE "
    ++ (quoted table ++ codes " (version bigint not null primary key, dirty boolean not null)")

module _ {S Tx : Type 0} (sql : Sql S Tx) where
  abbrev unlock_deferred : Option Error × Redshift S → Option Error × Redshift S
  unlock_deferred (e, p) =
      tried (unlock p) (λ unlock_error p1. (some (add_deferred e unlock_error), p1)) λ p1. (e, p1)

  abbrev create_unless : Bytes → S → Option Error × S
  create_unless table s =
      opened (sql.query_count count_tables (text table ∷ []) s) (failing [] count_tables)
        λ count s1.
          if count == 1
          then (none, s1)
          else tried (sql.exec (create_table table) [] s1) (failing [] (create_table table))
              λ s2. (none, s2)

  unfoldable pub ensure_version_table : Redshift S → Option Error × Redshift S
  unfolding lock unlock
  ensure_version_table p =
      tried (lock p) (λ e p1. (some e, p1))
        λ p1. unlock_deferred (with_conn p1 (create_unless p1.config.migrations_table p1.conn))

  abbrev with_table : Config → S → Result (Redshift S) × S
  with_table config s =
      tried (ensure_version_table (record { is_locked = false; conn = s; config = config }))
        (λ e p. (err e, p.conn)) λ p. (ok p, p.conn)

  abbrev with_config : Config → S → Result (Redshift S) × S
  with_config config s =
      tried (sql.connect s) (λ e s1. (err e, s1))
        (with_table (record config { migrations_table = default_table config.migrations_table }))

  abbrev select_database : Bytes
  select_database = codes "SELECT CURRENT_DATABASE()"

  abbrev with_name : Config → Bytes → S → Result (Redshift S) × S
  with_name config name s =
      if is_empty name
      then (err no_database_name, s)
      else with_config (record config { database_name = name }) s

  abbrev named : Config → S → Result (Redshift S) × S
  named config s =
      if is_empty config.database_name
      then opened (sql.query_text select_database [] s)
          (λ e s1. (err (failed_query e [] select_database), s1)) (with_name config)
      else with_config config s

  unfoldable pub with_instance : Option Config → S → Result (Redshift S) × S
  unfolding ensure_version_table
  with_instance none s = (err no_config, s)
  with_instance (some config) s = tried (sql.ping s) (λ e s1. (err e, s1)) (named config)

  abbrev url_config : ParsedUrl → Config
  url_config purl = record {
    database_name = purl.path;
    migrations_table = get_option purl (codes "x-migrations-table");
  }

  -- `with_scheme` sets the scheme of a URL.
  module _ (from : Opener S) (with_scheme : Bytes → ParsedUrl → ParsedUrl) where
    abbrev open_parsed : ParsedUrl → Result (Redshift S)
    open_parsed purl = do
      s ← from.sql_open (codes "postgres") (url_text (filter_custom_query purl))
      (with_instance (some (url_config purl)) s).0

    unfoldable pub open_url : Bytes → Result (Redshift S)
    unfolding with_instance
    open_url url = do purl ← from.parse url; open_parsed (with_scheme (codes "postgres") purl)
