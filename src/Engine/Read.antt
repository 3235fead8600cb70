-- ===== src/Engine/Read.antt =====
-- migrate.go: the functions that read migrations from the source into the channel.
use migrate.Prelude.{
  ℕ, zero, suc, ℤ, pos, negsuc, minus_one, to_int, ltb_ℤ, eqb_ℤ, Bool, not, ◌&&◌, Bytes, Option,
  none, some, [], if◌then◌else◌,
}
use migrate.Errors.{Error, no_change, no_migration, is_not_exist, is_exist, Result, ok, err}
use migrate.Source.Driver.{Body}
use migrate.Source.Driver
use migrate.Engine.Migration.{Migration}
use migrate.Engine.Migration
use migrate.Engine.Feed.{
  Feed, finish, fail, out_of_fuel, send, ◌>>=◌, unless_error, with_suint, stopped, Signals, later,
}

-- The source of a Migrate, and `multierror.Append` of github.com/hashicorp/go-multierror.
pub record Env : Type 0 where
  pub source_drv : Driver.Driver
  pub append_error : Option Error → Error → Error

-- The deferred Close of a body that was opened.
unfoldable pub closing : Env → Body → Option Error → Option Error
closing env body result = elim body.close_error [
  | none ↦ result
  | some err_close ↦ some (env.append_error result err_close)
]

-- The look at the down migration.
unfoldable pub check_down : Env → ℕ → Result (Body × Bytes) → Option Error
check_down env version (ok (down, identifier)) = closing env down none
check_down env version (err e) =
    if is_exist e
    then none
    else if not (is_not_exist e)
    then some e
    else some (no_migration version e)

-- The look at the up migration, which is tried first.
unfoldable pub check_up : Env → ℕ → Result (Body × Bytes) → Option Error
check_up env version (ok (up, identifier)) = closing env up none
check_up env version (err e) =
    if is_exist e
    then none
    else if not (is_not_exist e)
    then some e
    else check_down env version (env.source_drv.read_down version)

-- `versionExists`; `none` is a nil error.
unfoldable pub version_exists : Env → ℕ → Option Error
version_exists env version = check_up env version (env.source_drv.read_up version)

-- A body that is missing makes an empty migration.
unfoldable pub from_source : Result (Body × Bytes) → ℕ → ℤ → Result Migration
from_source (ok (r, identifier)) version target =
    ok (Migration.new_migration (some r) identifier version target)
from_source (err e) version target =
    if is_not_exist e then ok (Migration.new_migration none [] version target) else err e

-- The method `newMigration`: up if the target is not below the version, else down.
unfoldable pub new_migration : Env → ℕ → ℤ → Result Migration
new_migration env version target =
    if not (ltb_ℤ target (to_int version))
    then from_source (env.source_drv.read_up version) version target
    else from_source (env.source_drv.read_down version) version target

-- `if from >= 0 { if err := m.versionExists(suint(from)); ... }`.
unfoldable pub check_version : Env → ℤ → Feed → Feed
check_version env (pos v) k = unless_error (version_exists env v) k
check_version env (negsuc n) k = k

-- One round of the loop up to a target.
unfoldable pub forward_step : Env → ℤ → (ℤ → Feed) → Bool → ℤ → Feed
forward_step env to again stop from =
    if ltb_ℤ from to
    then if stop
      then finish
      else (with_suint from λ v. do
        next ← env.source_drv.next v
        migr ← new_migration env next (to_int next)
        send migr (again (to_int next)))
    else finish

unfoldable pub forward : Env → ℤ → ℕ → Signals → ℤ → Feed
forward env to zero signals from = out_of_fuel
forward env to (suc fuel) signals from =
    forward_step env to (forward env to fuel (later signals)) (stopped (signals 0)) from

-- The first migration is applied without a look at the stop signal.
unfoldable pub read_forward : Env → ℤ → ℕ → Signals → ℤ → Feed
read_forward env to fuel signals from =
    if eqb_ℤ from minus_one
    then (do
      first_version ← env.source_drv.first
      migr ← new_migration env first_version (to_int first_version)
      send migr (forward env to fuel signals (to_int first_version)))
    else forward env to fuel signals from

unfoldable pub backward_from : Env → ℤ → (ℤ → Feed) → ℕ → Result ℕ → Feed
backward_from env to again v (ok prev) = do
  migr ← new_migration env v (to_int prev)
  send migr (again (to_int prev))
backward_from env to again v (err e) =
    if is_not_exist e && eqb_ℤ to minus_one
    then (do migr ← new_migration env v minus_one; send migr finish)
    else fail e

-- One round of the loop down to a target.
unfoldable pub backward_step : Env → ℤ → (ℤ → Feed) → Bool → ℤ → Feed
unfolding backward_from
backward_step env to again stop from =
    if ltb_ℤ to from && not (ltb_ℤ from (pos 0))
    then if stop
      then finish
      else (with_suint from λ v. backward_from env to again v (env.source_drv.prev v))
    else finish

unfoldable pub backward : Env → ℤ → ℕ → Signals → ℤ → Feed
backward env to zero signals from = out_of_fuel
backward env to (suc fuel) signals from =
    backward_step env to (backward env to fuel (later signals)) (stopped (signals 0)) from

-- `read`.
unfoldable pub read : Env → ℤ → ℤ → ℕ → Signals → Feed
read env from to fuel signals = check_version env from (
    check_version env to (
      if eqb_ℤ from to
      then fail no_change
      else if ltb_ℤ from to
      then read_forward env to fuel signals from
      else backward env to fuel signals from))
