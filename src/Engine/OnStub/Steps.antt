-- ===== src/Engine/OnStub/Steps.antt =====
-- `Steps` of migrate.go on the in-memory database.
use migrate.Prelude.{
  ℕ, suc, ◌+◌, ◌-◌, ◌<◌, ◌≡◌, refl, ◌∙◌, ℤ, pos, negsuc, max_int, neg_int, none, some, List, ◌++◌,
  map, arith, length, take, Option, All, ◌==◌, false,
}
use mathlib.Core.List.{append-nil}
use migrate.Errors.{Error}
use migrate.Source.Sort.{In}
use migrate.Database.Stub.{Stub, stub_driver}
use migrate.Engine.Read.{Env}
use migrate.Engine.Feed.{migration, closed, Signals}
use migrate.Engine.Migration.{Migration}
use migrate.Engine.Run.{returned, run_migrations}
use migrate.Engine.Operations.{Schedule, steps}
use migrate.Engine.Plan.{down_rounds, descent, down_plans}
use migrate.Engine.Plan.Down.{read_down-down_rounds}
use migrate.Engine.Plan.Descent.{length-descent, descent-cons}
use migrate.Engine.OnStub.{IsReadable, ran_all, Quiet}
use migrate.Engine.OnStub.Runs.{run_migrations-until_stop, run_migrations-failure, until_stop-Quiet}
use migrate.Engine.OnStub.Locked.{idle, locked_run_clean}
use migrate.Engine.OnStub.Plans.{down_plans-IsReadable}
use migrate.Engine.OnStub.UpDown.{IsReady}
use migrate.Engine.Plan.{ended_by, down_error, failures}
use migrate.Engine.OnStub.Short.{down_rounds-Quiet}

run_ended_by :
    (ms : List Migration) (e : Option Error) (signals : Signals) (s : Stub)
    → All IsReadable ms
    → Quiet signals
    → run_migrations stub_driver signals (map migration ms ++ failures e) closed s
      ≡ (returned e, ran_all ms s)
run_ended_by ms none signals s r q =
    rw
      (
        append-nil (map migration ms),
        run_migrations-until_stop ms signals s r,
        until_stop-Quiet ms signals q,
      )
      refl
run_ended_by ms (some e) signals s r q = run_migrations-failure ms e signals s r q

module _ (env : Env) (vs : List ℕ) (schedule : Schedule) (st : Stub) (cur : ℤ)
    (r : IsReady env vs schedule st cur) where
  descent-Quiet :
      (v n : ℕ)
      → In v vs
      → Quiet schedule.reading
      → down_rounds env.source_drv (pos n) schedule.reading (descent v vs) 0
        ≡ ended_by
            (map migration (down_plans env.source_drv (take n (descent v vs))))
            (down_error n (length (descent v vs)))
  descent-Quiet v n i q =
      let (target, rest, e) = descent-cons v vs r.serves.ascending i in
      let y : n - 0 ≡ n = omega arith in
      let z : 0 + suc (length rest) ≡ suc (length rest) = omega arith in
      rw e
        (rw (y, z) at ((down_rounds-Quiet env.source_drv n (v, target) rest schedule.reading 0 q)))

  -- With no stop signal, Steps of -n < 0 on a ready call at a version of the source runs the first
  -- n down migrations from that version on, with the nil version as the last target, and leaves the
  -- database clean and unlocked. It returns how many are missing if there are fewer. The least int
  -- is left out, since its negation overflows.
  pub steps_down :
      (v k : ℕ)
      → cur ≡ pos v
      → In v vs
      → k < max_int
      → Quiet schedule.reading
      → Quiet schedule.running
      → steps env stub_driver schedule (negsuc k) (idle st) ≡ (
        returned (down_error (suc k) (length (descent v vs))),
        idle (ran_all (down_plans env.source_drv (take (suc k) (descent v vs))) st),
      )
  unfolding steps neg_int
  steps_down v k e i lt q p =
      let ne : (k == max_int) ≡ false = ground arith in
      let ps = take (suc k) (descent v vs) in
      rw ne (
        locked_run_clean env schedule st r.free (pos v) _ _
          (down_error (suc k) (length (descent v vs))) (down_plans env.source_drv ps) r.clean
          (r.at ∙ e) r.race
          (read_down-down_rounds env vs r.serves (pos (suc k)) v schedule.fuel schedule.reading i
              (ground arith) (omega (arith, length-descent v vs, r.fuel))
            ∙ descent-Quiet v (suc k) i q)
          (λ s.
            run_ended_by (down_plans env.source_drv ps) (down_error (suc k) (length (descent v vs)))
              schedule.running s (down_plans-IsReadable env.source_drv ps r.down_readable) p))
