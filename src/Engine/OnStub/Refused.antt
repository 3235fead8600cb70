-- ===== src/Engine/OnStub/Refused.antt =====
-- A dirty in-memory database and the operations of migrate.go.
use migrate.Prelude.{ℕ, ◌≡◌, ℤ, pos, eqb_ℤ, true, false, some, List, ◌∷◌}
use migrate.Errors.{dirty}
use migrate.Database.Stub.{Stub, stub_driver}
use migrate.Engine.Migration.{Migration}
use migrate.Engine.Read.{Env}
use migrate.Engine.Run.{returned}
use migrate.Engine.Operations.{Schedule, answered, migrate_to, steps, up, down}
use migrate.Engine.Operations
use migrate.Engine.OnStub.Locked.{idle, locked_run_dirty}

module _ (env : Env) (schedule : Schedule) (st : Stub) (free : st.is_locked ≡ false) where
  -- On an unlocked database that is dirty, where Lock answers in time, Migrate, Steps with n ≠ 0,
  -- Up, Down and Run with a migration all return ErrDirty with the version, run nothing and leave
  -- the database as it is, unlocked.
  pub operations-dirty :
      st.is_dirty ≡ true
      → schedule.race ≡ answered
      → ((version : ℕ)
          → migrate_to env stub_driver schedule version (idle st)
            ≡ (returned (some (dirty st.current_version)), idle st))
        × ((n : ℤ)
            → eqb_ℤ n (pos 0) ≡ false
            → steps env stub_driver schedule n (idle st)
              ≡ (returned (some (dirty st.current_version)), idle st))
        × (up env stub_driver schedule (idle st)
            ≡ (returned (some (dirty st.current_version)), idle st))
        × (down env stub_driver schedule (idle st)
            ≡ (returned (some (dirty st.current_version)), idle st))
        × ((migr : Migration) (more : List Migration)
            → Operations.run env stub_driver schedule (migr ∷ more) (idle st)
              ≡ (returned (some (dirty st.current_version)), idle st))
  unfolding migrate_to steps up down Operations.run
  operations-dirty d race = (
    λ version. locked_run_dirty env schedule st free _ d race,
    λ n ne. rw ne (locked_run_dirty env schedule st free _ d race),
    locked_run_dirty env schedule st free _ d race,
    locked_run_dirty env schedule st free _ d race,
    λ migr more. locked_run_dirty env schedule st free _ d race,
  )
