-- ===== src/Engine/Lock.antt =====
-- The lock of migrate.go under any database driver: what the operations of a Migrate do with it.
use migrate.Prelude.{
  ℕ, ◌≡◌, refl, inl, inr, ℤ, pos, minus_one, eqb_ℤ, ltb_ℤ, Bool, true, false, Option, none, some,
  List, [], ◌∷◌, Bool-cases,
}
use migrate.Errors.{Error, dirty, locked, Result, ok, err}
use migrate.Database.Driver.{Driver}
use migrate.Engine.Migration.{Migration}
use migrate.Engine.Feed.{Feed}
use migrate.Engine.Read.{Env}
use migrate.Engine.Run.{Outcome, returned, blocked, crashed, out_of_fuel}
use migrate.Engine.Operations.{
  Migrate, Schedule, Race, lock, after_unlock, unlock_err, unlock_last, conclude, run_feed,
  when_clean, when_locked, locked_run, migrate_to, steps, up, down, after_change, force,
}
use migrate.Engine.Operations

-- A call that returned nil has left the lock, the flag of the Migrate and the lock of the database: `IsFree` is
-- what holds of a database that nobody has locked.
abbrev pub Released : {D : Type 0} → (D → Type 0) → Outcome × Migrate D → Type 0
Released IsFree (o, m) = o ≡ returned none → (m.is_locked ≡ false) × IsFree m.database

module _ {D : Type 0} (env : Env) (db : Driver D) (IsFree : D → Type 0)
    (frees : (d d' : D) → db.unlock d ≡ (none, d') → IsFree d') where
  unlock_err-after :
      (prev_err : Option Error) (m : Migrate D) (r : Option Error × D)
      → db.unlock m.database ≡ r
      → Released IsFree (
        returned (elim (after_unlock r m).0 [
          | none ↦ prev_err
          | some unlock_error ↦ some (env.append_error prev_err unlock_error)
        ]),
        (after_unlock r m).1,
      )
  unfolding after_unlock
  unlock_err-after prev_err m (none, d) e h = (refl, frees m.database d e)
  unlock_err-after prev_err m (some x, d) e h = cc

  unlock_err-Released :
      (prev_err : Option Error) (m : Migrate D) → Released IsFree (unlock_err env db prev_err m)
  unfolding unlock_err
  unlock_err-Released prev_err m = unlock_err-after prev_err m (db.unlock m.database) refl

  unlock_last-after :
      (m : Migrate D) (r : Option Error × D)
      → db.unlock m.database ≡ r
      → Released IsFree (returned (after_unlock r m).0, (after_unlock r m).1)
  unfolding after_unlock
  unlock_last-after m (none, d) e h = (refl, frees m.database d e)
  unlock_last-after m (some x, d) e h = cc

  conclude-Released : (r : Outcome × D) (m : Migrate D) → Released IsFree (conclude env db r m)
  unfolding conclude
  conclude-Released (returned e, d) m h = unlock_err-Released e (record m { database = d }) h
  conclude-Released (blocked, d) m h = cc
  conclude-Released (crashed, d) m h = cc
  conclude-Released (out_of_fuel, d) m h = cc

  after_change-Released :
      (r : Option Error × D) (m : Migrate D) → Released IsFree (after_change env db r m)
  unfolding after_change
  after_change-Released (some e, d) m = unlock_err-Released (some e) (record m { database = d })
  after_change-Released (none, d) m =
      unlock_last-after (record m { database = d }) (db.unlock d) refl

  when_locked-Released :
      (r : Option Error × Migrate D) (k : Migrate D → Outcome × Migrate D)
      → ((m : Migrate D) → Released IsFree (k m))
      → Released IsFree (when_locked r k)
  when_locked-Released (some e, m) k next h = cc
  when_locked-Released (none, m) k next h = next m h

  module _ (schedule : Schedule) where
    when_clean-Released :
        (feed : ℤ → Feed) (m : Migrate D) (r : Result (ℤ × Bool))
        → Released IsFree (when_clean env db schedule feed m r)
    unfolding when_clean
    when_clean-Released feed m (err e) = unlock_err-Released (some e) m
    when_clean-Released feed m (ok (cur_version, true)) =
        unlock_err-Released (some (dirty cur_version)) m
    when_clean-Released feed m (ok (cur_version, false)) = conclude-Released _ m

    locked_run-Released :
        (feed : ℤ → Feed) (m : Migrate D) → Released IsFree (locked_run env db schedule feed m)
    unfolding locked_run
    locked_run-Released feed m =
        when_locked-Released (lock db schedule.race m) _
          (λ m'. when_clean-Released feed m' (db.version m'.database))

    steps-Released : (n : ℤ) (m : Migrate D) → Released IsFree (steps env db schedule n m)
    unfolding steps
    steps-Released n m = elim (Bool-cases (eqb_ℤ n (pos 0))) [
      | inl h ↦ rw h (λ e. cc)
      | inr h ↦ rw h (locked_run-Released _ m)
    ]

    run-Released :
        (ms : List Migration) (m : Migrate D)
        → Released IsFree (Operations.run env db schedule ms m)
    unfolding Operations.run
    run-Released [] m h = cc
    run-Released (migr ∷ more) m h = locked_run-Released _ m h

    force-Released :
        (version : ℤ) (m : Migrate D) → Released IsFree (force env db schedule.race version m)
    unfolding force
    force-Released version m = elim (Bool-cases (ltb_ℤ version minus_one)) [
      | inl h ↦ rw h (λ e. cc)
      | inr h ↦ rw h (
          when_locked-Released (lock db schedule.race m) _
            (λ m'. after_change-Released (db.set_version version false m'.database) m'))
    ]

    -- Whatever the drivers answer, a Migrate, Steps, Up, Down, Run, Drop or Force that returns nil holds no lock
    -- any more: its own flag is cleared, and the database is as free as an Unlock of the driver that returned
    -- nil leaves it (IsFree).
    pub operations-Released :
        (m : Migrate D)
        → ((version : ℕ) → Released IsFree (migrate_to env db schedule version m))
          × ((n : ℤ) → Released IsFree (steps env db schedule n m))
          × Released IsFree (up env db schedule m)
          × Released IsFree (down env db schedule m)
          × ((ms : List Migration) → Released IsFree (Operations.run env db schedule ms m))
          × Released IsFree (Operations.drop env db schedule.race m)
          × ((version : ℤ) → Released IsFree (force env db schedule.race version m))
    unfolding migrate_to up down Operations.drop
    operations-Released m = (
      λ version. locked_run-Released _ m,
      λ n. steps-Released n m,
      locked_run-Released _ m,
      locked_run-Released _ m,
      λ ms. run-Released ms m,
      when_locked-Released (lock db schedule.race m) _
          (λ m'. after_change-Released (db.drop m'.database) m'),
      λ version. force-Released version m,
    )

module _ {D : Type 0} (env : Env) (db : Driver D) (schedule : Schedule) where
  locked_run-locked :
      (feed : ℤ → Feed) (m : Migrate D)
      → m.is_locked ≡ true
      → locked_run env db schedule feed m ≡ (returned (some locked), m)
  unfolding locked_run lock
  locked_run-locked feed m h = rw h refl

  -- A Migrate that holds the lock refuses every operation that would change the database, and
  -- leaves the database as it is: Steps with n ≠ 0, Run with a migration, Force with a version of
  -- at least -1, and Migrate, Up, Down and Drop.
  pub operations-locked :
      (m : Migrate D)
      → m.is_locked ≡ true
      → ((version : ℕ) → migrate_to env db schedule version m ≡ (returned (some locked), m))
        × ((n : ℤ)
            → eqb_ℤ n (pos 0) ≡ false
            → steps env db schedule n m ≡ (returned (some locked), m))
        × (up env db schedule m ≡ (returned (some locked), m))
        × (down env db schedule m ≡ (returned (some locked), m))
        × ((migr : Migration) (more : List Migration)
            → Operations.run env db schedule (migr ∷ more) m ≡ (returned (some locked), m))
        × (Operations.drop env db schedule.race m ≡ (returned (some locked), m))
        × ((version : ℤ)
            → ltb_ℤ version minus_one ≡ false
            → force env db schedule.race version m ≡ (returned (some locked), m))
  unfolding migrate_to steps up down Operations.run Operations.drop force lock
  operations-locked m h = (
    λ version. locked_run-locked _ m h,
    λ n ne. rw ne (locked_run-locked _ m h),
    locked_run-locked _ m h,
    locked_run-locked _ m h,
    λ migr more. locked_run-locked _ m h,
    rw h refl,
    λ version ge. rw (ge, h) refl,
  )
