-- ===== src/Database/Postgres/OpenUrl.antt =====
-- database/postgres/postgres.go: `Open`, which takes the options of the driver from a URL.
use migrate.Prelude.{
  ℕ, zero, suc, ℤ, pos, negsuc, ◌*◌, Bool, false, not, ◌&&◌, ◌||◌, Bytes, Option, none, some, [],
  ◌∷◌, codes, ◌==◌, is_empty, if◌then◌else◌,
}
use migrate.Errors.{not_quoted, bad_option, external, Result, ok, err, ◌>>=◌}
use migrate.Database.Sql.{Sql}
use migrate.Database.Url.{
  ParsedUrl, Opener, get_option, filter_custom_query, url_text, parse_bool, atoi,
}
use migrate.Database.Postgres.{Config, Postgres, Outside}
use migrate.Database.Postgres.Open.{Opening, refused, with_instance, quote_mark}

-- `DefaultMultiStatementMaxSize`: 10 MB.
abbrev pub default_multi_statement_max_size : ℕ
default_multi_statement_max_size = 10 * 1048576

abbrev bool_or_error : Bytes → Option Bool → Result Bool
bool_or_error name none = err (bad_option name (external 0))
bool_or_error name (some b) = ok b

-- An option of the URL that is on or off; it is off if it is not given.
abbrev bool_option : ParsedUrl → Bytes → Result Bool
bool_option purl name =
    if is_empty (get_option purl name)
    then ok false
    else bool_or_error name (parse_bool (get_option purl name))

abbrev int_option : ℤ → Bytes → Result ℤ
int_option missing value = if is_empty value then ok missing else atoi value

abbrev starts_quoted : Bytes → Bool
starts_quoted [] = false
starts_quoted (c ∷ s) = c == quote_mark

abbrev ends_quoted : Bytes → Bool
ends_quoted [] = false
ends_quoted (c ∷ []) = c == quote_mark
ends_quoted (c ∷ (d ∷ s)) = ends_quoted (d ∷ s)

-- A name that is given is to be quoted, if names are.
abbrev check_quoted : Bytes → Bool → Result Bytes
check_quoted name quoted =
    if not (is_empty name) && quoted && (not (starts_quoted name) || not (ends_quoted name))
    then err not_quoted
    else ok name

abbrev positive_size : ℤ → ℕ
positive_size (pos zero) = default_multi_statement_max_size
positive_size (pos (suc n)) = suc n
positive_size (negsuc n) = default_multi_statement_max_size

-- The options, in the order in which the code reads them.
unfoldable pub url_config : ParsedUrl → Result Config
url_config purl = do
  quoted ← bool_option purl (codes "x-migrations-table-quoted")
  name ← check_quoted (get_option purl (codes "x-migrations-table")) quoted
  timeout ← int_option (pos 0) (get_option purl (codes "x-statement-timeout"))
  size ←
      int_option (pos default_multi_statement_max_size)
        (get_option purl (codes "x-multi-statement-max-size"))
  multi ← bool_option purl (codes "x-multi-statement")
  ok (record {
    migrations_table = name;
    migrations_table_quoted = quoted;
    multi_statement_enabled = multi;
    database_name = purl.path;
    schema_name = [];
    migrations_schema_name = [];
    migrations_table_name = [];
    statement_timeout = timeout;
    multi_statement_max_size = positive_size size;
  })

abbrev or_refused : {A B : Type 0} → Result A → (A → Opening B) → Opening B
or_refused (err e) next = refused e
or_refused (ok a) next = next a

module _ {S Tx : Type 0} (out : Outside) (sql : Sql S Tx) (from : Opener S) where
  unfoldable pub open_url : Bytes → Opening (Postgres S)
  unfolding url_config with_instance
  open_url url = or_refused (from.parse url) λ purl.
      or_refused (from.sql_open (codes "postgres") (url_text (filter_custom_query purl)))
        λ s. or_refused (url_config purl) λ config. with_instance out sql s (some config)
