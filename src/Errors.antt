-- ===== src/Errors.antt =====
-- The error values of migrate.go, database/driver.go and source/parse.go, and the results that
-- carry them.
use migrate.Prelude.{ℕ, ℤ, Bool, true, false, Bytes, Option, none, some}

-- `empty_url` and `no_scheme` are the errors of internal/url, `unknown_driver` that of the registries of
-- drivers, `no_match` is `source.ErrParse`, `out_of_range` the error of `strconv.ParseUint` on a number that is
-- too large, `path_error` is `&os.PathError{Op, Path, Err}` with its text left out, and `external` any error
-- of a driver that wraps none of the others. `no_config` is `ErrNilConfig` of a database driver and `no_rows` is
-- `sql.ErrNoRows`. `failed_query e text query` is `&database.Error{OrigErr: e, Err: text, Query: query}`, which
-- unwraps to nothing. `bad_option` names an option of a URL that did not parse. `lone` and `also` are the
-- errors of `multierror.Append`: of one error, and of an error with one more;
-- `failed_at` is a `failed_query` with a line. `bad_number`, `bad_width`, `bad_name`, `too_large` and
-- `bad_arguments` are errors of the command line;
-- only a database driver builds a multierror, and `errors.Is` is asked of the errors of a source alone.
pub data Error : Type 0 where
  no_change nil_version invalid_version locked lock_timeout : Error
  database_locked not_locked : Error
  no_match out_of_range : Error
  empty_url no_scheme unknown_driver : Error
  not_exist exist : Error
  short_limit : ℕ → Error
  dirty : ℤ → Error
  path_error : Error → Error
  no_migration : ℕ → Error → Error
  external : ℕ → Error
  bad_number bad_width bad_name bad_arguments : Error
  too_large : Bytes → Error
  no_config no_rows not_closed too_long no_progress no_database_name no_schema too_many_dots
        not_quoted :
      Error
  failed_at : ℕ → Error → Bytes → Bytes → Error
  failed_query : Error → Bytes → Bytes → Error
  bad_option : Bytes → Error → Error
  lone : Error → Error
  also : Error → Error → Error

-- `errors.Is(err, os.ErrNotExist)`: the chain of wrapped errors is searched.
abbrev pub is_not_exist : Error → Bool
is_not_exist not_exist = true
is_not_exist (path_error e) = is_not_exist e
is_not_exist (no_migration v e) = is_not_exist e
is_not_exist _ = false

-- `errors.Is(err, os.ErrExist)`.
abbrev pub is_exist : Error → Bool
is_exist exist = true
is_exist (path_error e) = is_exist e
is_exist (no_migration v e) = is_exist e
is_exist _ = false

-- `multierror.Append(err, e)`.
abbrev pub append_error : Option Error → Error → Error
append_error none e = lone e
append_error (some err) e = also err e

-- `(value, error)` of a Go function, where the value counts only if the error is nil.
pub data Result {ℓ} (A : Type ℓ) : Type ℓ where
  ok : A → Result A
  err : Error → Result A

infixl 5 ◌>>=◌
abbrev pub ◌>>=◌ {ℓ κ} : {A : Type ℓ} {B : Type κ} → Result A → (A → Result B) → Result B
ok a >>= f = f a
err e >>= f = err e
