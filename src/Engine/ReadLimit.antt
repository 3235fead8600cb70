-- ===== src/Engine/ReadLimit.antt =====
-- migrate.go: `readUp` and `readDown`, which read up to a limit of migrations.
use migrate.Prelude.{
  ℕ, zero, suc, ◌+◌, ℤ, pos, minus_one, to_int, ltb_ℤ, eqb_ℤ, ◌-ℤ◌, Bool, ◌&&◌, ◌||◌, ◌==◌,
  if◌then◌else◌,
}
use migrate.Errors.{Error, no_change, not_exist, short_limit, is_not_exist, Result, ok, err}
use migrate.Engine.Feed.{
  Feed, finish, fail, out_of_fuel, send, ◌>>=◌, with_suint, stopped, Signals, later,
}
use migrate.Engine.Read.{Env, new_migration, check_version}

-- `count < limit || limit == -1`.
abbrev pub within : ℕ → ℤ → Bool
within count limit = ltb_ℤ (pos count) limit || eqb_ℤ limit minus_one

-- The end of the source: what it means depends on the limit and on what was read.
unfoldable pub reached_end : ℤ → ℕ → Error → Feed
reached_end limit count e =
    if eqb_ℤ limit minus_one && count == 0
    then fail no_change
    else if eqb_ℤ limit minus_one
    then finish
    else if ltb_ℤ (pos 0) limit && count == 0
    then fail not_exist
    else if ltb_ℤ (pos count) limit
    then (with_suint (limit -ℤ pos count) λ short. fail (short_limit short))
    else fail e

unfoldable pub up_first : Env → (ℤ → ℕ → Feed) → ℕ → Feed
up_first env again count = do
  first_version ← env.source_drv.first
  migr ← new_migration env first_version (to_int first_version)
  send migr (again (to_int first_version) (count + 1))

unfoldable pub up_next : Env → ℤ → (ℤ → ℕ → Feed) → ℕ → Result ℕ → Feed
up_next env limit again count (ok next) = do
  migr ← new_migration env next (to_int next)
  send migr (again (to_int next) (count + 1))
up_next env limit again count (err e) = if is_not_exist e then reached_end limit count e else fail e

-- One round of the loop of `readUp`.
unfoldable pub up_step : Env → ℤ → (ℤ → ℕ → Feed) → Bool → ℤ → ℕ → Feed
up_step env limit again stop from count =
    if within count limit
    then if stop
      then finish
      else if eqb_ℤ from minus_one
      then up_first env again count
      else (with_suint from λ v. up_next env limit again count (env.source_drv.next v))
    else finish

-- `count` is a Go `int` that is raised once for each migration that is sent.
unfoldable pub up_loop : Env → ℤ → ℕ → Signals → ℤ → ℕ → Feed
up_loop env limit zero signals from count = out_of_fuel
up_loop env limit (suc fuel) signals from count =
    up_step env limit (up_loop env limit fuel (later signals)) (stopped (signals 0)) from count

-- `readUp`.
unfoldable pub read_up : Env → ℤ → ℤ → ℕ → Signals → Feed
read_up env from limit fuel signals =
    check_version env from
      (if eqb_ℤ limit (pos 0) then fail no_change else up_loop env limit fuel signals from 0)

-- What follows the last migration of `readDown`, with `count` raised for it.
unfoldable pub down_short : ℤ → ℕ → Feed
down_short limit count =
    if ltb_ℤ (pos count) limit
    then (with_suint (limit -ℤ pos count) λ short. fail (short_limit short))
    else finish

-- No version is left below: the first migration goes down to the nil version.
unfoldable pub down_first : Env → ℤ → ℕ → Feed
down_first env limit count =
    if eqb_ℤ limit minus_one || ltb_ℤ (pos 0) (limit -ℤ pos count)
    then (do
      first_version ← env.source_drv.first
      migr ← new_migration env first_version minus_one
      send migr (down_short limit (count + 1)))
    else down_short limit count

unfoldable pub down_prev : Env → ℤ → (ℤ → ℕ → Feed) → ℕ → ℕ → Result ℕ → Feed
down_prev env limit again count v (ok prev) = do
  migr ← new_migration env v (to_int prev)
  send migr (again (to_int prev) (count + 1))
down_prev env limit again count v (err e) =
    if is_not_exist e then down_first env limit count else fail e

-- One round of the loop of `readDown`.
unfoldable pub down_step : Env → ℤ → (ℤ → ℕ → Feed) → Bool → ℤ → ℕ → Feed
down_step env limit again stop from count =
    if within count limit
    then if stop
      then finish
      else (with_suint from λ v. down_prev env limit again count v (env.source_drv.prev v))
    else finish

unfoldable pub down_loop : Env → ℤ → ℕ → Signals → ℤ → ℕ → Feed
down_loop env limit zero signals from count = out_of_fuel
down_loop env limit (suc fuel) signals from count =
    down_step env limit (down_loop env limit fuel (later signals)) (stopped (signals 0)) from count

-- `readDown`.
unfoldable pub read_down : Env → ℤ → ℤ → ℕ → Signals → Feed
read_down env from limit fuel signals = check_version env from (
    if eqb_ℤ limit (pos 0)
    then fail no_change
    else if eqb_ℤ from minus_one && eqb_ℤ limit minus_one
    then fail no_change
    else if eqb_ℤ from minus_one && ltb_ℤ (pos 0) limit
    then fail not_exist
    else down_loop env limit fuel signals from 0)
