-- ===== src/Database/Mysql/Open.antt =====
-- database/mysql/mysql.go: how a driver comes about, from a connection, a `*sql.DB` or a URL.
use migrate.Prelude.{
  Bool, true, false, Bytes, Option, none, some, [], ◌∷◌, codes, is_empty, is_prefix, if◌then◌else◌,
}
use migrate.Prelude.Map.{Map, get}
use migrate.Errors.{
  Error, no_config, no_database_name, no_rows, failed_query, bad_option, external, Result, ok, err,
  ◌>>=◌,
}
use migrate.Registry.{bytes_eq}
use migrate.Database.Url.{parse_bool}
use migrate.Database.Sql.{Sql, tried, opened, failing, add_deferred}
use migrate.Database.Mysql.{
  Config, Mysql, Dsn, Outside, default_migrations_table, with_conn, lock, unlock, create_table,
  show_table,
}

module _ {S Tx : Type 0} (out : Outside) (sql : Sql S Tx) where
  abbrev unlock_deferred : Option Error × Mysql S → Option Error × Mysql S
  unlock_deferred (e, m) =
      tried (unlock out sql m) (λ unlock_error m1. (some (add_deferred e unlock_error), m1))
        λ m1. (e, m1)

  -- The table is created if the search for it finds no row.
  abbrev create_unless : Bytes → Result Bytes × S → Option Error × S
  create_unless table (ok found, s) = (none, s)
  create_unless table (err no_rows, s) =
      tried (sql.exec (create_table table) [] s) (failing [] (create_table table)) λ s1. (none, s1)
  create_unless table (err e, s) = failing [] (show_table table) e s

  unfoldable pub ensure_version_table : Mysql S → Option Error × Mysql S
  unfolding lock unlock
  ensure_version_table m =
      tried (lock out sql m) (λ e m1. (some e, m1))
        λ m1. unlock_deferred (
          with_conn m1 (
            create_unless m1.config.migrations_table
              (sql.query_text (show_table m1.config.migrations_table) [] m1.conn)))

  abbrev with_table : Option Error × Mysql S → Result (Mysql S)
  with_table (some e, m) = err e
  with_table (none, m) = ok m

  abbrev default_table : Bytes → Bytes
  default_table table = if is_empty table then default_migrations_table else table

  abbrev named : Config → S → Bytes → Result (Mysql S)
  named config s name =
      if is_empty name
      then err no_database_name
      else with_table (
          ensure_version_table (record {
            conn = s;
            has_db = false;
            is_locked = false;
            config = record config {
              database_name = name;
              migrations_table = default_table config.migrations_table;
            };
          }))

  unfoldable pub with_connection : S → Option Config → Result (Mysql S)
  unfolding ensure_version_table
  with_connection s none = err no_config
  with_connection s (some config) =
      tried (sql.ping s) (λ e s1. err e)
        λ s1.
          if is_empty config.database_name
          then (opened (sql.query_text (codes "SELECT DATABASE()") [] s1)
              (λ e s2. err (failed_query e [] (codes "SELECT DATABASE()")))
              λ name s2. named config s2 name)
          else named config s1 config.database_name

  abbrev with_db : Mysql S → Mysql S
  with_db m = record m { has_db = true }

  unfoldable pub with_instance : S → Option Config → Result (Mysql S)
  unfolding with_connection
  with_instance s config =
      tried (sql.ping s) (λ e s1. err e)
        λ s1.
          tried (sql.connect s1) (λ e s2. err e)
            λ s2. with_connection s2 config >>= (λ m. ok (with_db m))

-- `extractCustomQueryParams`: the parameters that start with "x-", and the others.
unfoldable pub extract_custom_query_params : Map Bytes Bytes → Map Bytes Bytes × Map Bytes Bytes
extract_custom_query_params [] = ([], [])
extract_custom_query_params ((k, v) ∷ params) =
    let (custom, others) = extract_custom_query_params params in
    if is_prefix (codes "x-") k then ((k, v) ∷ custom, others) else (custom, (k, v) ∷ others)

abbrev or_empty : Option Bytes → Bytes
or_empty none = []
or_empty (some v) = v

abbrev bool_or_error : Option Bool → Result Bool
bool_or_error none = err (bad_option (codes "x-no-lock") (external 0))
bool_or_error (some b) = ok b

abbrev read_no_lock : Bytes → Result Bool
read_no_lock v = if is_empty v then ok false else bool_or_error (parse_bool v)

abbrev url_config : Dsn → Map Bytes Bytes → Bool → Config
url_config dsn custom no_lock = record {
  database_name = dsn.db_name;
  migrations_table = or_empty (get (codes "x-migrations-table") custom);
  no_lock = no_lock;
}

module _ {S Tx : Type 0} (out : Outside) (sql : Sql S Tx)
    (sql_open : Bytes → Bytes → Result S) where
  abbrev open_dsn : Dsn → Map Bytes Bytes × Map Bytes Bytes → Result (Mysql S)
  open_dsn dsn (custom, others) = do
    no_lock ← read_no_lock (or_empty (get (codes "x-no-lock") custom))
    s ← sql_open (codes "mysql") (dsn.print others)
    with_instance out sql s (some (url_config dsn custom no_lock))

  unfoldable pub open_url : Bytes → Result (Mysql S)
  unfolding with_instance extract_custom_query_params
  open_url url = do
    dsn ← out.url_to_mysql_config url
    open_dsn dsn (extract_custom_query_params dsn.params)
