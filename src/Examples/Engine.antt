-- ===== src/Examples/Engine.antt =====
-- The operations of migrate.go on the small source and the in-memory database.
use migrate.Engine.Plan.{down_plans, until_stop, up_plans}
use migrate.Prelude.{
  ℕ, ◌≡◌, ◌≢◌, refl, inl, inr, ℤ, pos, minus_one, to_int, Bytes, Option, none, some, [], ◌∷◌, arith,
  max_int, ◌≤◌, length,
}
use migrate.Prelude.Decimal.{decimal}
use migrate.Source.Sort.{In}
use migrate.Source.Stub.{stub_source, read_found}
use migrate.Source.Stub.{read_up as source_read_up, read_down as source_read_down}
use migrate.Source.Migration.{Migration}
use migrate.Source.Migrations.{up, down}
use migrate.Database.Stub.{stub_driver}
use migrate.Engine.Util.{suint}
use migrate.Engine.Migration.{new_migration, buffer}
use migrate.Engine.Feed.{stop}
use migrate.Engine.Read
use migrate.Engine.Read.{version_exists, closing, check_up, check_down, from_source, check_version}
use migrate.Engine.ReadLimit.{
  read_up, up_loop, up_step, up_first, up_next, reached_end, read_down, down_loop, down_step,
  down_prev, down_first, down_short,
}
use migrate.Engine.Run.{returned, run_migrations, handle, apply, run_body}
use migrate.Engine.Operations
use migrate.Engine.Operations.{locked_run, Migrate}
use migrate.Engine.Plan.{Serves, planned, above, descent}
use migrate.Engine.Plan.Backed.{backed-Serves, stub_source-IsBacked}
use migrate.Engine.OnStub.{IsReadable, Quiet, ran_all}
use migrate.Engine.OnStub.Locked.{idle}
use migrate.Engine.OnStub.UpDown.{IsReady, up_lem, down_lem}
use migrate.Examples.{three, source, env, schedule, no_signal, stub_at}
use migrate.Examples.Index.{program, three-IsValid}

unfoldable pub run : Unit {0}
unfolding program stub_source up down stub_driver suint new_migration buffer stop Read.new_migration
    version_exists closing check_up check_down from_source check_version read_up up_loop up_step
    up_first up_next reached_end read_down down_loop down_step down_prev down_first down_short
    run_migrations handle apply run_body locked_run Operations.up Operations.down Operations.steps
    Operations.lock Operations.settle to_int decimal
run = tt

up_from_nil :
    (Operations.up env stub_driver schedule
      (idle (stub_at minus_one))).1.database.migration_sequence
    ≡ (b'1' ∷ []) ∷ (b'3' ∷ []) ∷ (b'7' ∷ []) ∷ []
unfolding run
up_from_nil = refl

three_small : (v : ℕ) → In v three.index → v ≤ max_int
unfolding program
three_small v i = omega arith

backed-Serves_example : Serves env.source_drv three.index
backed-Serves_example =
    backed-Serves env.source_drv three (stub_source-IsBacked source) three-IsValid three_small

pub three-Serves : Serves env.source_drv three.index
three-Serves =
    backed-Serves env.source_drv three (stub_source-IsBacked source) three-IsValid three_small

pub three_fuel : length three.index ≤ 3
unfolding program
three_fuel = omega arith

pub In-three : In 3 three.index
unfolding program
In-three = inr (inl refl)

above_three : above (pos 3) three.index ≢ []
unfolding program
above_three e = cc

read_found-IsReadable :
    (id : Bytes) (o : Option Migration) (v : ℕ) (target : ℤ)
    → IsReadable (planned (read_found id o) v target)
unfolding new_migration
read_found-IsReadable id none v target = tt
read_found-IsReadable id (some m) v target = refl

pub ready : (v : ℤ) → IsReady env three.index schedule (stub_at v) v
unfolding stub_source source_read_up source_read_down
ready v = record {
  serves = three-Serves;
  race = refl;
  fuel = omega (arith, three_fuel);
  free = refl;
  clean = refl;
  at = refl;
  up_readable = λ w. read_found-IsReadable _ (up three w) w (pos w);
  down_readable = λ w target. read_found-IsReadable _ (down three w) w target;
}

up_lem_example : Operations.up env stub_driver schedule (idle (stub_at (pos 3))) ≡ (
  returned none,
  idle (
      ran_all
        (until_stop schedule.running
          (until_stop schedule.reading (up_plans env.source_drv (above (pos 3) three.index))))
        (stub_at (pos 3))),
)
up_lem_example =
    up_lem env three.index schedule (stub_at (pos 3)) (pos 3) (ready (pos 3)) In-three above_three

pub no_signal-Quiet : Quiet no_signal
unfolding stop
no_signal-Quiet k = refl

pub In-seven : In 7 three.index
unfolding program
In-seven = inr (inr (inl refl))

above_seven : above (pos 7) three.index ≡ []
unfolding program
above_seven = refl

down_lem_example : Operations.down env stub_driver schedule (idle (stub_at (pos 3))) ≡ (
  returned none,
  idle (
      ran_all
        (until_stop schedule.running
          (until_stop schedule.reading (down_plans env.source_drv (descent 3 three.index))))
        (stub_at (pos 3))),
)
down_lem_example =
    down_lem env three.index schedule (stub_at (pos 3)) (pos 3) (ready (pos 3)) 3 refl In-three
