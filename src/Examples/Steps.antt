-- ===== src/Examples/Steps.antt =====
-- `Steps` of migrate.go on the small source and the in-memory database.
use migrate.Prelude.{◌-ℤ◌, ◌≡◌, refl, pos, negsuc, arith, some, length, take}
use migrate.Errors.{short_limit}
use migrate.Database.Stub.{stub_driver}
use migrate.Engine.Run.{returned}
use migrate.Engine.Operations.{steps}
use migrate.Engine.Plan.{descent, down_plans}
use migrate.Engine.OnStub.{ran_all}
use migrate.Engine.OnStub.Locked.{idle}
use migrate.Engine.Plan.{down_error}
use migrate.Engine.OnStub.Steps.{steps_down}
use migrate.Examples.{three, env, schedule, stub_at}
use migrate.Examples.Engine.{In-seven, ready, no_signal-Quiet, run}

-- One more migration is there, and five are asked for.
five_from_three :
    (steps env stub_driver schedule (pos 5) (idle (stub_at (pos 3)))).0
    ≡ returned (some (short_limit 4))
unfolding run ◌-ℤ◌
five_from_three = refl

steps_down_example : steps env stub_driver schedule (negsuc 1) (idle (stub_at (pos 7))) ≡ (
  returned (down_error 2 (length (descent 7 three.index))),
  idle (ran_all (down_plans env.source_drv (take 2 (descent 7 three.index))) (stub_at (pos 7))),
)
steps_down_example =
    steps_down env three.index schedule (stub_at (pos 7)) (pos 7) (ready (pos 7)) 7 1 refl In-seven
      (omega arith) no_signal-Quiet no_signal-Quiet
