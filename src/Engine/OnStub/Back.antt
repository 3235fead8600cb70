-- ===== src/Engine/OnStub/Back.antt =====
-- `Migrate` of migrate.go up to a version and back again, on the in-memory database.
use migrate.Prelude.{ℕ, ◌<◌, ◌≡◌, refl, sym, ap, ◌∙◌, pos, false, none, List, [], ◌∷◌}
use migrate.Source.Sort.{In}
use migrate.Database.Stub.{Stub, stub_driver}
use migrate.Engine.Migration.{Migration}
use migrate.Engine.Read.{Env}
use migrate.Engine.Run.{returned}
use migrate.Engine.Operations.{Schedule, migrate_to}
use migrate.Engine.Plan.{suffix_after, descent, up_plans, down_plans}
use migrate.Engine.Plan.GotoUp.{up_to}
use migrate.Engine.Plan.GotoDown.{down_to}
use migrate.Engine.Plan.Undo.{versions, undo}
use mathlib.Core.List.{reverse}
use migrate.Engine.OnStub.{Quiet, ran, ran_all}
use migrate.Engine.OnStub.Locked.{idle, ran_all-keeps_lock}
use migrate.Engine.OnStub.UpDown.{IsReady}
use migrate.Engine.OnStub.Goto.{goto_up, goto_down, Quiet-until}

ran_all-clean :
    (ms : List Migration) (st : Stub) → st.is_dirty ≡ false → (ran_all ms st).is_dirty ≡ false
unfolding ran_all ran
ran_all-clean [] st h = h
ran_all-clean (m ∷ ms) st h = ran_all-clean ms (ran m st) refl

module _ (env : Env) (vs : List ℕ) (schedule : Schedule) (st : Stub) (v : ℕ)
    (r : IsReady env vs schedule st (pos v)) (i : In v vs) where
  -- A database that some migrations left at a version is ready for the next call.
  ran_all-IsReady :
      (ms : List Migration) (t : ℕ)
      → (ran_all ms st).current_version ≡ pos t
      → IsReady env vs schedule (ran_all ms st) (pos t)
  ran_all-IsReady ms t e = record {
    serves = r.serves;
    race = r.race;
    fuel = r.fuel;
    free = ran_all-keeps_lock ms st ∙ r.free;
    clean = ran_all-clean ms st r.clean;
    at = e;
    up_readable = r.up_readable;
    down_readable = r.down_readable;
  }

  -- With no stop signal, on a ready call (IsReady) at a version of the source, Migrate to a higher
  -- version of the source and then Migrate back return nil and leave the database at the first
  -- version, having run the up migrations and then the down migrations between the two; the way
  -- down goes through the versions of the way up, in the opposite order.
  pub goto_back :
      (t : ℕ)
      → In t vs
      → v < t
      → Quiet schedule.reading
      → Quiet schedule.running
      → (migrate_to env stub_driver schedule v (migrate_to env stub_driver schedule t (idle st)).1
          ≡ (
            returned none,
            idle (
                ran_all
                  (down_plans env.source_drv (down_to (pos v) (descent t vs)))
                  (ran_all (up_plans env.source_drv (up_to t (suffix_after v vs))) st)),
          ))
        × ((migrate_to env stub_driver schedule v
              (migrate_to env stub_driver schedule t (idle st)).1).1.database.current_version
            ≡ pos v)
        × (versions (down_to (pos v) (descent t vs)) ≡ reverse (up_to t (suffix_after v vs)))
  goto_back t j lt q p =
      let ups = up_plans env.source_drv (up_to t (suffix_after v vs)) in
      let (up_run, up_version) = goto_up env vs schedule st v r i t j lt in
      let up_quiet : migrate_to env stub_driver schedule t (idle st)
          ≡ (returned none, idle (ran_all ups st)) =
        up_run
        ∙ ap (λ ms. (returned none, idle (ran_all ms st)))
            (Quiet-until env vs schedule st v r i ups q p) in
      let at : (ran_all ups st).current_version ≡ pos t =
        sym (ap (λ x. x.1.database.current_version) up_quiet) ∙ up_version q p in
      let r' = ran_all-IsReady ups t at in
      let (down_run, down_version) = goto_down env vs schedule (ran_all ups st) t r' j v i lt in
      let downs = down_plans env.source_drv (down_to (pos v) (descent t vs)) in
      (
        ap (λ x. migrate_to env stub_driver schedule v x.1) up_quiet
            ∙ down_run
            ∙ ap (λ ms. (returned none, idle (ran_all ms (ran_all ups st))))
                (Quiet-until env vs schedule (ran_all ups st) t r' j downs q p),
        ap (λ x. (migrate_to env stub_driver schedule v x.1).1.database.current_version) up_quiet
            ∙ down_version q p,
        undo v t vs r.serves.ascending i j lt,
      )
