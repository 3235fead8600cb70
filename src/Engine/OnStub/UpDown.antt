-- ===== src/Engine/OnStub/UpDown.antt =====
-- `Up` and `Down` of migrate.go on the in-memory database, from a clean state to the end.
use migrate.Engine.Plan.{down_plans, until_stop, up_plans}
use migrate.Prelude.{
  ℕ, ◌<◌, ◌≡◌, ◌≢◌, refl, ◌∙◌, ℤ, pos, minus_one, false, none, some, List, [], ◌∷◌, arith, length,
}
use migrate.Errors.{no_change}
use migrate.Source.Sort.{In}
use migrate.Database.Stub.{Stub, stub_driver}
use migrate.Engine.Read.{Env, check_version}
use migrate.Engine.ReadLimit.{read_down}
use migrate.Engine.Feed.{failure}
use migrate.Engine.Run.{returned}
use migrate.Engine.Operations.{answered, Schedule, up, down}
use migrate.Engine.Plan.{Serves, up_plan, down_plan, above, descent}
use migrate.Engine.Plan.Up.{IsCurrent, read_up-up_rounds}
use migrate.Engine.Plan.Down.{read_down-down_rounds}
use migrate.Engine.Plan.Descent.{length-descent}
use migrate.Engine.OnStub.{IsReadable, ran_all, Quiet}
use migrate.Engine.OnStub.Runs.{run_migrations-until_stop, run_migrations-failure}
use migrate.Engine.OnStub.Locked.{idle, locked_run_clean}
use migrate.Engine.OnStub.Plans.{
  up_spec_all, up_spec_none, down_spec_all, up_plans-IsReadable, down_plans-IsReadable,
  All-until_stop,
}

-- A call that meets a source with the versions `vs`, a database that is free and clean at the
-- version `cur`, no timeout of the lock, and fuel for every version.
pub record IsReady (env : Env) (vs : List ℕ) (schedule : Schedule) (st : Stub) (cur : ℤ)
    : Type 0 where
  pub serves : Serves env.source_drv vs
  pub race : schedule.race ≡ answered
  pub fuel : length vs < schedule.fuel
  pub free : st.is_locked ≡ false
  pub clean : st.is_dirty ≡ false
  pub at : st.current_version ≡ cur
  pub up_readable : (v : ℕ) → IsReadable (up_plan env.source_drv v)
  pub down_readable : (v : ℕ) (target : ℤ) → IsReadable (down_plan env.source_drv v target)

module _ (env : Env) (vs : List ℕ) (schedule : Schedule) (st : Stub) (cur : ℤ)
    (r : IsReady env vs schedule st cur) where
  -- On a ready call (IsReady) with versions above the current one, which is a version of the source
  -- or the nil version, Up runs the up migration of each of them, in ascending order, returns nil
  -- and leaves the database clean and unlocked. A stop signal cuts the list between two migrations.
  pub up_lem :
      IsCurrent cur vs
      → above cur vs ≢ []
      → up env stub_driver schedule (idle st) ≡ (
        returned none,
        idle (
            ran_all
              (until_stop schedule.running
                (until_stop schedule.reading (up_plans env.source_drv (above cur vs))))
              st),
      )
  unfolding up
  up_lem c n =
      let ms = until_stop schedule.reading (up_plans env.source_drv (above cur vs)) in
      locked_run_clean env schedule st r.free cur _ _ none (until_stop schedule.running ms) r.clean
        r.at r.race
        (read_up-up_rounds env vs r.serves minus_one cur schedule.fuel schedule.reading c refl
            r.fuel
          ∙ up_spec_all env.source_drv (above cur vs) schedule.reading n)
        (λ s. run_migrations-until_stop ms schedule.running s (
          All-until_stop _ schedule.reading
            (up_plans-IsReadable env.source_drv (above cur vs) (λ v i. r.up_readable v))))

  -- On a ready call (IsReady) with no version above the current one and no stop signal, Up changes
  -- nothing and returns ErrNoChange.
  pub up_at_latest :
      IsCurrent cur vs
      → above cur vs ≡ []
      → Quiet schedule.reading
      → Quiet schedule.running
      → up env stub_driver schedule (idle st) ≡ (returned (some no_change), idle st)
  unfolding up ran_all
  up_at_latest c n q p =
      locked_run_clean env schedule st r.free cur _ (failure no_change ∷ []) (some no_change) []
        r.clean r.at r.race
        (read_up-up_rounds env vs r.serves minus_one cur schedule.fuel schedule.reading c refl
            r.fuel
          ∙ up_spec_none env.source_drv (above cur vs) schedule.reading n (q 0))
        (λ s. run_migrations-failure [] no_change schedule.running s tt p)

  -- On a ready call (IsReady) at a version of the source, Down runs the down migrations of that
  -- version and of every one below, in descending order, returns nil and leaves the database clean
  -- and unlocked. A stop signal cuts the list between two migrations.
  pub down_lem :
      (v : ℕ)
      → cur ≡ pos v
      → In v vs
      → down env stub_driver schedule (idle st) ≡ (
        returned none,
        idle (
            ran_all
              (until_stop schedule.running
                (until_stop schedule.reading (down_plans env.source_drv (descent v vs))))
              st),
      )
  unfolding down
  down_lem v e i =
      let ms = until_stop schedule.reading (down_plans env.source_drv (descent v vs)) in
      locked_run_clean env schedule st r.free (pos v) _ _ none (until_stop schedule.running ms)
        r.clean (r.at ∙ e) r.race
        (read_down-down_rounds env vs r.serves minus_one v schedule.fuel schedule.reading i refl
            (omega (arith, length-descent v vs, r.fuel))
          ∙ down_spec_all env.source_drv (descent v vs) schedule.reading 0)
        (λ s. run_migrations-until_stop ms schedule.running s (
          All-until_stop _ schedule.reading
            (down_plans-IsReadable env.source_drv (descent v vs) r.down_readable)))

  -- On a ready call (IsReady) at the nil version, with no stop signal for runMigrations, Down
  -- changes nothing and returns ErrNoChange.
  pub down_at_nil :
      cur ≡ minus_one
      → Quiet schedule.running
      → down env stub_driver schedule (idle st) ≡ (returned (some no_change), idle st)
  unfolding down ran_all read_down check_version
  down_at_nil e p =
      locked_run_clean env schedule st r.free minus_one _ (failure no_change ∷ []) (some no_change)
        [] r.clean (r.at ∙ e) r.race refl
        (λ s. run_migrations-failure [] no_change schedule.running s tt p)
