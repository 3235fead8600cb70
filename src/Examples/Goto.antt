-- ===== src/Examples/Goto.antt =====
-- The method `Migrate` of migrate.go on the small source and the in-memory database, and a
-- database that an earlier failure left dirty.
use migrate.Prelude.{
  ℤ, ◌∷◌, eqb_ℤ, false, List, ℕ, ◌≤◌, ◌≡◌, refl, pos, arith, none, some, max_int, max_uint, true,
}
use migrate.Errors.{Error, no_change, dirty, no_migration}
use migrate.Source.Sort.{In}
use migrate.Database.Stub.{Stub, stub_driver}
use migrate.Engine.Run.{returned}
use migrate.Engine.Operations.{migrate_to, steps, up, down}
use migrate.Engine.Plan.{up_plans, down_plans, suffix_after, descent, until_stop}
use migrate.Engine.Plan.GotoUp.{up_to}
use migrate.Engine.Plan.GotoDown.{down_to}
use migrate.Engine.OnStub.{Quiet, ran_all}
use migrate.Engine.Plan.Undo.{versions}
use mathlib.Core.List.{reverse}
use migrate.Engine.OnStub.Back.{goto_back}
use migrate.Engine.OnStub.Locked.{idle}
use migrate.Engine.OnStub.Refused.{operations-dirty}
use migrate.Engine.Migration.{Migration}
use migrate.Engine.Operations
use migrate.Engine.OnStub.Goto.{goto_up, goto_down}
use migrate.Engine.OnStub.GotoEdges.{goto_refused, goto_max_uint}
use migrate.Examples.{three, env, schedule, stub_at}
use migrate.Examples.Engine.{In-three, In-seven, ready, no_signal-Quiet}

goto_up_example :
    (migrate_to env stub_driver schedule 7 (idle (stub_at (pos 3))) ≡ (
      returned none,
      idle (
          ran_all
            (until_stop schedule.running (
              until_stop schedule.reading
                (up_plans env.source_drv (up_to 7 (suffix_after 3 three.index)))))
            (stub_at (pos 3))),
    ))
    × (Quiet schedule.reading
        → Quiet schedule.running
        → (migrate_to env stub_driver schedule 7
            (idle (stub_at (pos 3)))).1.database.current_version
          ≡ pos 7)
goto_up_example =
    goto_up env three.index schedule (stub_at (pos 3)) 3 (ready (pos 3)) In-three 7 In-seven
      (omega arith)

goto_down_example :
    (migrate_to env stub_driver schedule 3 (idle (stub_at (pos 7))) ≡ (
      returned none,
      idle (
          ran_all
            (until_stop schedule.running (
              until_stop schedule.reading
                (down_plans env.source_drv (down_to (pos 3) (descent 7 three.index)))))
            (stub_at (pos 7))),
    ))
    × (Quiet schedule.reading
        → Quiet schedule.running
        → (migrate_to env stub_driver schedule 3
            (idle (stub_at (pos 7)))).1.database.current_version
          ≡ pos 3)
goto_down_example =
    goto_down env three.index schedule (stub_at (pos 7)) 7 (ready (pos 7)) In-seven 3 In-three
      (omega arith)

goto_refused_example :
    (migrate_to env stub_driver schedule 3 (idle (stub_at (pos 3)))
      ≡ (returned (some no_change), idle (stub_at (pos 3))))
    × ((t : ℕ)
        → (¬ In t three.index)
        → t ≤ max_int
        → (e : Error) × (migrate_to env stub_driver schedule t (idle (stub_at (pos 3)))
            ≡ (returned (some (no_migration t e)), idle (stub_at (pos 3)))))
goto_refused_example =
    goto_refused env three.index schedule (stub_at (pos 3)) 3 (ready (pos 3)) In-three
      no_signal-Quiet

goto_max_uint_example :
    migrate_to env stub_driver schedule max_uint (idle (stub_at (pos 3)))
    ≡ down env stub_driver schedule (idle (stub_at (pos 3)))
goto_max_uint_example =
    goto_max_uint env three.index schedule (stub_at (pos 3)) 3 (ready (pos 3)) In-three

abbrev broken : Stub
broken = record (stub_at (pos 3)) { is_dirty = true }

operations-dirty_example :
    ((version : ℕ)
      → migrate_to env stub_driver schedule version (idle broken)
        ≡ (returned (some (dirty (pos 3))), idle broken))
    × ((n : ℤ)
        → eqb_ℤ n (pos 0) ≡ false
        → steps env stub_driver schedule n (idle broken)
          ≡ (returned (some (dirty (pos 3))), idle broken))
    × (up env stub_driver schedule (idle broken) ≡ (returned (some (dirty (pos 3))), idle broken))
    × (down env stub_driver schedule (idle broken) ≡ (returned (some (dirty (pos 3))), idle broken))
    × ((migr : Migration) (more : List Migration)
        → Operations.run env stub_driver schedule (migr ∷ more) (idle broken)
          ≡ (returned (some (dirty (pos 3))), idle broken))
operations-dirty_example = operations-dirty env schedule broken refl refl refl

goto_back_example :
    (migrate_to env stub_driver schedule 3
        (migrate_to env stub_driver schedule 7 (idle (stub_at (pos 3)))).1
      ≡ (
        returned none,
        idle (
            ran_all (down_plans env.source_drv (down_to (pos 3) (descent 7 three.index))) (
              ran_all
                (up_plans env.source_drv (up_to 7 (suffix_after 3 three.index)))
                (stub_at (pos 3)))),
      ))
    × ((migrate_to env stub_driver schedule 3
          (migrate_to env stub_driver schedule 7
            (idle (stub_at (pos 3)))).1).1.database.current_version
        ≡ pos 3)
    × (versions (down_to (pos 3) (descent 7 three.index))
        ≡ reverse (up_to 7 (suffix_after 3 three.index)))
goto_back_example =
    goto_back env three.index schedule (stub_at (pos 3)) 3 (ready (pos 3)) In-three 7 In-seven
      (omega arith) no_signal-Quiet no_signal-Quiet
