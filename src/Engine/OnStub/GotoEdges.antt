-- ===== src/Engine/OnStub/GotoEdges.antt =====
-- The method `Migrate` of migrate.go at its edges: no change, a missing version, the greatest uint.
use migrate.Prelude.{
  ℕ, ◌≤◌, ◌≡◌, refl, sym, ap, ◌∙◌, ℤ, pos, minus_one, max_int, max_uint, to_int, to_int_small, some,
  none, List, [], ◌∷◌, ==_refl,
}
use migrate.Errors.{Error, no_change, no_migration}
use migrate.Source.Sort.{In}
use migrate.Database.Stub.{Stub, stub_driver}
use migrate.Engine.Read.{Env, read, check_version}
use migrate.Engine.Feed.{failure}
use migrate.Engine.Run.{returned}
use migrate.Engine.Operations.{Schedule, migrate_to, down}
use migrate.Engine.Plan.{descent, down_plans, until_stop}
use migrate.Engine.Plan.Source.{version_exists_held, version_exists_absent}
use migrate.Engine.Plan.GotoDown.{down_to}
use migrate.Engine.OnStub.{ran_all, Quiet}
use migrate.Engine.OnStub.Runs.{run_migrations-failure}
use migrate.Engine.OnStub.Locked.{idle, locked_run_clean}
use migrate.Engine.OnStub.UpDown.{IsReady, down_lem}
use migrate.Engine.OnStub.Goto.{goto_down_run}

down_to_nil : (ps : List (ℕ × ℤ)) → down_to minus_one ps ≡ ps
down_to_nil [] = refl
down_to_nil ((v, target) ∷ ps) = ap (λ qs. (v, target) ∷ qs) (down_to_nil ps)

module _ (env : Env) (vs : List ℕ) (schedule : Schedule) (st : Stub) (v : ℕ)
    (r : IsReady env vs schedule st (pos v)) (i : In v vs) where
  -- On a ready call (IsReady) at a version of the source and with no stop signal for runMigrations,
  -- Migrate to the current version changes nothing and returns ErrNoChange, and Migrate to a
  -- version that the source does not have, and that fits into an int, changes nothing and returns
  -- an error with that version.
  pub goto_refused :
      Quiet schedule.running
      → (migrate_to env stub_driver schedule v (idle st) ≡ (returned (some no_change), idle st))
        × ((t : ℕ)
            → (¬ In t vs)
            → t ≤ max_int
            → (e : Error) × (migrate_to env stub_driver schedule t (idle st)
                ≡ (returned (some (no_migration t e)), idle st)))
  unfolding migrate_to read check_version ran_all
  goto_refused p = (
    locked_run_clean env schedule st r.free (pos v) _ (failure no_change ∷ []) (some no_change) []
        r.clean r.at r.race
        (rw (to_int_small v (r.serves.small v i), version_exists_held env vs r.serves v i, ==_refl))
        (λ s. run_migrations-failure [] no_change schedule.running s tt p),
    λ t n le.
        let (e, h) = version_exists_absent env vs r.serves t n in
        (
          e,
          locked_run_clean env schedule st r.free (pos v) _ (failure (no_migration t e) ∷ [])
              (some (no_migration t e)) [] r.clean r.at r.race
              (rw (to_int_small t le, version_exists_held env vs r.serves v i, h))
              (λ s. run_migrations-failure [] (no_migration t e) schedule.running s tt p),
        ),
  )

  -- On a ready call (IsReady) at a version of the source, Migrate to the greatest uint,
  -- 18446744073709551615, does the same as Down: the version becomes the int -1, so that every down
  -- migration runs.
  pub goto_max_uint :
      migrate_to env stub_driver schedule max_uint (idle st)
      ≡ down env stub_driver schedule (idle st)
  unfolding to_int
  goto_max_uint =
      goto_down_run env vs schedule st v r i max_uint refl refl
      ∙ ap
          (λ ps. (
            returned none,
            idle (
                ran_all
                  (until_stop schedule.running
                    (until_stop schedule.reading (down_plans env.source_drv ps)))
                  st),
          ))
          (down_to_nil (descent v vs))
      ∙ sym (down_lem env vs schedule st (pos v) r v refl i)
