-- ===== src/Engine/OnStub/Goto.antt =====
-- The method `Migrate` of migrate.go on the in-memory database.
use migrate.Prelude.{
  ℕ, suc, ◌<◌, ◌≡◌, ap, ◌∙◌, ℤ, pos, to_int, to_int_small, ltb_ℤ, true, none, List, arith, length,
  lt→ltb,
}
use migrate.Source.Sort.{In}
use migrate.Database.Stub.{Stub, stub_driver}
use migrate.Engine.Read.{Env, read}
use migrate.Engine.Migration.{Migration}
use migrate.Engine.Run.{returned}
use migrate.Engine.Operations.{Schedule, migrate_to}
use migrate.Engine.Plan.{descent, suffix_after, up_plans, down_plans, until_stop}
use migrate.Engine.Plan.Up.{suffix_after-Ascending}
use migrate.Engine.Plan.GotoUp.{up_to, read-up_to, In-above}
use migrate.Engine.Plan.GotoDown.{down_to, IsTarget, read-down_to}
use migrate.Engine.OnStub.{ran_all, Quiet}
use migrate.Engine.OnStub.Runs.{run_migrations-until_stop, until_stop-Quiet}
use migrate.Engine.OnStub.Locked.{idle, locked_run_clean}
use migrate.Engine.OnStub.Plans.{up_plans-IsReadable, down_plans-IsReadable, All-until_stop}
use migrate.Engine.OnStub.UpDown.{IsReady}
use migrate.Engine.OnStub.Reached.{up_to-version, down_to-version}

module _ (env : Env) (vs : List ℕ) (schedule : Schedule) (st : Stub) (v : ℕ)
    (r : IsReady env vs schedule st (pos v)) (i : In v vs) where
  goto_up_run :
      (t : ℕ)
      → In t vs
      → v < t
      → migrate_to env stub_driver schedule t (idle st) ≡ (
        returned none,
        idle (
            ran_all
              (until_stop schedule.running (
                until_stop schedule.reading
                  (up_plans env.source_drv (up_to t (suffix_after v vs)))))
              st),
      )
  unfolding migrate_to
  goto_up_run t j lt =
      let ms =
        until_stop schedule.reading (up_plans env.source_drv (up_to t (suffix_after v vs))) in
      locked_run_clean env schedule st r.free (pos v) _ _ none (until_stop schedule.running ms)
        r.clean r.at r.race
        (ap (λ to. read env (pos v) to schedule.fuel schedule.reading)
            (to_int_small t (r.serves.small t j))
          ∙ read-up_to env vs r.serves t j v schedule.fuel schedule.reading i lt r.fuel)
        (λ s. run_migrations-until_stop ms schedule.running s (
          All-until_stop _ schedule.reading (
            up_plans-IsReadable env.source_drv (up_to t (suffix_after v vs))
              (λ w k. r.up_readable w))))

  pub goto_down_run :
      (version : ℕ)
      → IsTarget (to_int version) vs
      → ltb_ℤ (to_int version) (pos v) ≡ true
      → migrate_to env stub_driver schedule version (idle st) ≡ (
        returned none,
        idle (
            ran_all
              (until_stop schedule.running (
                until_stop schedule.reading
                  (down_plans env.source_drv (down_to (to_int version) (descent v vs)))))
              st),
      )
  unfolding migrate_to
  goto_down_run version j lt =
      let to : ℤ = to_int version in
      let ms =
        until_stop schedule.reading (down_plans env.source_drv (down_to to (descent v vs))) in
      locked_run_clean env schedule st r.free (pos v) _ _ none (until_stop schedule.running ms)
        r.clean r.at r.race
        (read-down_to env vs r.serves to j v schedule.fuel schedule.reading i lt r.fuel)
        (λ s. run_migrations-until_stop ms schedule.running s (
          All-until_stop _ schedule.reading
            (down_plans-IsReadable env.source_drv (down_to to (descent v vs)) r.down_readable)))

  pub Quiet-until :
      (ms : List Migration)
      → Quiet schedule.reading
      → Quiet schedule.running
      → until_stop schedule.running (until_stop schedule.reading ms) ≡ ms
  Quiet-until ms q p =
      ap (until_stop schedule.running) (until_stop-Quiet ms schedule.reading q)
      ∙ until_stop-Quiet ms schedule.running p

  -- On a ready call (IsReady) at a version of the source, Migrate to a higher version of the source
  -- runs the up migrations of the versions above, in order, up to the target, cut short by a stop
  -- signal only, and returns nil; with no signal the database ends at the target.
  pub goto_up :
      (t : ℕ)
      → In t vs
      → v < t
      → (migrate_to env stub_driver schedule t (idle st) ≡ (
        returned none,
        idle (
            ran_all
              (until_stop schedule.running (
                until_stop schedule.reading
                  (up_plans env.source_drv (up_to t (suffix_after v vs)))))
              st),
      ))
        × (Quiet schedule.reading
            → Quiet schedule.running
            → (migrate_to env stub_driver schedule t (idle st)).1.database.current_version ≡ pos t)
  goto_up t j lt = (
    goto_up_run t j lt,
    λ q p.
        ap (λ x. x.1.database.current_version) (goto_up_run t j lt)
        ∙ ap (λ ms. (ran_all ms st).current_version) (Quiet-until _ q p)
        ∙ up_to-version env.source_drv t (suffix_after v vs) st
            (suffix_after-Ascending v vs r.serves.ascending)
            (In-above v t vs r.serves.ascending i j lt),
  )

  -- On a ready call (IsReady) at a version of the source, Migrate to a lower version of the source
  -- runs the down migrations from the current version as far as the target, in order, cut short by
  -- a stop signal only, and returns nil; with no signal the database ends at the target.
  pub goto_down :
      (t : ℕ)
      → In t vs
      → t < v
      → (migrate_to env stub_driver schedule t (idle st) ≡ (
        returned none,
        idle (
            ran_all
              (until_stop schedule.running (
                until_stop schedule.reading
                  (down_plans env.source_drv (down_to (pos t) (descent v vs)))))
              st),
      ))
        × (Quiet schedule.reading
            → Quiet schedule.running
            → (migrate_to env stub_driver schedule t (idle st)).1.database.current_version ≡ pos t)
  goto_down t j lt =
      let e : to_int t ≡ pos t = to_int_small t (r.serves.small t j) in
      let run = goto_down_run t (rw e j) (rw e (lt→ltb t v lt)) in
      let run' = rw e at run in
      (
        run',
        λ q p.
            ap (λ x. x.1.database.current_version) run'
            ∙ ap (λ ms. (ran_all ms st).current_version) (Quiet-until _ q p)
            ∙ down_to-version env.source_drv vs r.serves.ascending (pos t) j
                (suc (length (descent v vs))) v st (omega arith) i (lt→ltb t v lt),
      )
