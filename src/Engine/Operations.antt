-- ===== src/Engine/Operations.antt =====
-- migrate.go: the lock, and the operations of a Migrate.
use migrate.Prelude.{
  ℕ, ℤ, pos, minus_one, to_int, neg_int, ltb_ℤ, eqb_ℤ, Bool, true, false, Option, none, some, List,
  [], ◌∷◌, map, if◌then◌else◌,
}
use migrate.Errors.{
  Error, no_change, nil_version, invalid_version, locked, lock_timeout, dirty, Result, ok, err,
}
use migrate.Database.Driver.{Driver}
use migrate.Engine.Util.{suint}
use migrate.Engine.Migration.{Migration}
use migrate.Engine.Feed.{Feed, migration, Signals, closed}
use migrate.Engine.Read.{Env, read}
use migrate.Engine.ReadLimit.{read_up, read_down}
use migrate.Engine.Run.{Outcome, returned, run_migrations}

-- The fields of the struct that its methods change; the state of the database driver is one.
pub record Migrate (D : Type 0) : Type 0 where
  pub database : D
  pub is_locked : Bool

-- The race between the driver's Lock and the timeout: `timed_out true` when Lock returns after the
-- timeout, and `timed_out false` when it never does.
pub data Race : Type 0 where
  answered : Race
  timed_out : Bool → Race

-- What one call meets: the race for the lock, the stop signals of the reading goroutine and of
-- `runMigrations`, and the fuel of the reading loops.
pub record Schedule : Type 0 where
  pub race : Race
  pub reading : Signals
  pub running : Signals
  pub fuel : ℕ

unfoldable pub checked_version : ℤ → Bool → Option (Result (ℕ × Bool))
checked_version v is_dirty =
    if eqb_ℤ v minus_one
    then some (err nil_version)
    else elim (suint v) [ none ↦ none | some n ↦ some (ok (n, is_dirty)) ]

module _ {D : Type 0} where
  unfoldable pub settle : Race → Option Error × D → Migrate D → Option Error × Migrate D
  settle answered (none, d) m = (none, record { database = d; is_locked = true })
  settle answered (some e, d) m = (some e, record m { database = d })
  settle (timed_out true) (r, d) m = (some lock_timeout, record m { database = d })
  settle (timed_out false) r m = (some lock_timeout, m)

  -- `lock`.
  unfoldable pub lock : Driver D → Race → Migrate D → Option Error × Migrate D
  unfolding settle
  lock db race m = if m.is_locked then (some locked, m) else settle race (db.lock m.database) m

  unfoldable pub after_unlock : Option Error × D → Migrate D → Option Error × Migrate D
  after_unlock (some e, d) m = (some e, record m { database = d })
  after_unlock (none, d) m = (none, record { database = d; is_locked = false })

  -- `unlock`.
  unfoldable pub unlock : Driver D → Migrate D → Option Error × Migrate D
  unfolding after_unlock
  unlock db m = after_unlock (db.unlock m.database) m

  -- `unlockErr`.
  unfoldable pub unlock_err : Env → Driver D → Option Error → Migrate D → Outcome × Migrate D
  unfolding unlock
  unlock_err env db prev_err m =
      let (e, m') = unlock db m in
      (
        returned (elim e [
          | none ↦ prev_err
          | some unlock_error ↦ some (env.append_error prev_err unlock_error)
        ]),
        m',
      )

  -- `m.unlockErr(m.runMigrations(ret))`: a call that does not return does not unlock.
  unfoldable pub conclude : Env → Driver D → Outcome × D → Migrate D → Outcome × Migrate D
  unfolding unlock_err
  conclude env db (returned e, d) m = unlock_err env db e (record m { database = d })
  conclude env db (o, d) m = (o, record m { database = d })

  unfoldable pub run_feed : Env → Driver D → Schedule → Feed → Migrate D → Outcome × Migrate D
  unfolding conclude
  run_feed env db schedule feed m =
      conclude env db (run_migrations db schedule.running feed.items feed.ending m.database) m

  unfoldable pub when_clean :
      Env → Driver D → Schedule → (ℤ → Feed) → Migrate D → Result (ℤ × Bool) → Outcome × Migrate D
  unfolding run_feed
  when_clean env db schedule feed m (err e) = unlock_err env db (some e) m
  when_clean env db schedule feed m (ok (cur_version, is_dirty)) =
      if is_dirty
      then unlock_err env db (some (dirty cur_version)) m
      else run_feed env db schedule (feed cur_version) m

  abbrev pub when_locked :
      Option Error × Migrate D → (Migrate D → Outcome × Migrate D) → Outcome × Migrate D
  when_locked (some e, m) k = (returned (some e), m)
  when_locked (none, m) k = k m

  -- What Migrate, Steps, Up, Down and Run have in common: lock, refuse a dirty database, run what
  -- is read from the current version on, unlock.
  unfoldable pub locked_run :
      Env → Driver D → Schedule → (ℤ → Feed) → Migrate D → Outcome × Migrate D
  unfolding when_clean
  locked_run env db schedule feed m =
      when_locked (lock db schedule.race m)
        λ m'. when_clean env db schedule feed m' (db.version m'.database)

  -- The method `Migrate`.
  unfoldable pub migrate_to : Env → Driver D → Schedule → ℕ → Migrate D → Outcome × Migrate D
  unfolding locked_run
  migrate_to env db schedule version =
      locked_run env db schedule
        λ cur_version. read env cur_version (to_int version) schedule.fuel schedule.reading

  unfoldable pub steps : Env → Driver D → Schedule → ℤ → Migrate D → Outcome × Migrate D
  unfolding locked_run
  steps env db schedule n m =
      if eqb_ℤ n (pos 0)
      then (returned (some no_change), m)
      else locked_run env db schedule
          (λ cur_version.
            if ltb_ℤ (pos 0) n
            then read_up env cur_version n schedule.fuel schedule.reading
            else read_down env cur_version (neg_int n) schedule.fuel schedule.reading)
          m

  unfoldable pub up : Env → Driver D → Schedule → Migrate D → Outcome × Migrate D
  unfolding locked_run
  up env db schedule =
      locked_run env db schedule
        λ cur_version. read_up env cur_version minus_one schedule.fuel schedule.reading

  unfoldable pub down : Env → Driver D → Schedule → Migrate D → Outcome × Migrate D
  unfolding locked_run
  down env db schedule =
      locked_run env db schedule
        λ cur_version. read_down env cur_version minus_one schedule.fuel schedule.reading

  -- `m.unlock()` at the end of Drop and Force.
  unfoldable pub unlock_last : Driver D → Migrate D → Outcome × Migrate D
  unfolding unlock
  unlock_last db m = let (e, m') = unlock db m in (returned e, m')

  unfoldable pub after_change : Env → Driver D → Option Error × D → Migrate D → Outcome × Migrate D
  unfolding unlock_last unlock_err
  after_change env db (some e, d) m = unlock_err env db (some e) (record m { database = d })
  after_change env db (none, d) m = unlock_last db (record m { database = d })

  unfoldable pub drop : Env → Driver D → Race → Migrate D → Outcome × Migrate D
  unfolding after_change
  drop env db race m =
      when_locked (lock db race m) λ m'. after_change env db (db.drop m'.database) m'

  -- The method `Run`, on migrations that the caller made.
  unfoldable pub run : Env → Driver D → Schedule → List Migration → Migrate D → Outcome × Migrate D
  unfolding locked_run
  run env db schedule [] m = (returned (some no_change), m)
  run env db schedule (migr ∷ more) m =
      locked_run env db schedule
        (λ cur_version. record { items = map migration (migr ∷ more); ending = closed }) m

  unfoldable pub force : Env → Driver D → Race → ℤ → Migrate D → Outcome × Migrate D
  unfolding after_change
  force env db race version m =
      if ltb_ℤ version minus_one
      then (returned (some invalid_version), m)
      else when_locked (lock db race m)
          λ m'. after_change env db (db.set_version version false m'.database) m'

  -- The method `Version`; `none` is a panic of `suint`.
  unfoldable pub version : Driver D → Migrate D → Option (Result (ℕ × Bool))
  unfolding checked_version
  version db m = elim (db.version m.database) [
    | err e ↦ some (err e)
    | ok (v, is_dirty) ↦ checked_version v is_dirty
  ]

  -- `Close` closes both sides, whatever the other returns.
  unfoldable pub close : Env → Driver D → Migrate D → (Option Error × Option Error) × Migrate D
  close env db m =
      let (e, d) = db.close m.database in ((env.source_drv.close, e), record m { database = d })
