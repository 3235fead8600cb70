-- ===== src/Examples/Channel.antt =====
-- The reader and `runMigrations` over a channel for one item: reading fails at the first of three items.
use migrate.Prelude.{
  ◌+◌, ◌*◌, ◌≤◌, ◌≡◌, ◌≢◌, none, ◌⊎◌, refl, minus_one, false, some, List, [], ◌∷◌, length, arith,
}
use migrate.Errors.{no_change}
use migrate.Database.Driver.{Reader}
use migrate.Database.Stub.{Stub, stub_driver}
use migrate.Engine.Feed.{Item, failure, closed, stop}
use migrate.Engine.Run.{Outcome, returned, blocked, run_migrations, handle}
use migrate.Engine.Channel.{
  System, at, hanging, finished, ends, Step, put, hand, done, more, start, runner_of,
}
use migrate.Engine.Channel.Refines.{Steps-run_migrations}
use migrate.Engine.Channel.Ends.{Steps-end}
use migrate.Engine.Channel.Leak.{IsSending, Steps-IsSending}
use migrate.Examples.{no_signal, stub_at}

abbrev item : Item
item = failure no_change

abbrev items : List Item
items = item ∷ item ∷ item ∷ []

abbrev database : Stub
database = stub_at minus_one

abbrev over : System Stub
over = at (item ∷ item ∷ []) [] false (finished (returned (some no_change)) database)

abbrev filled : System Stub
filled = at (item ∷ []) (item ∷ []) false (finished (returned (some no_change)) database)

handed : Step stub_driver 1 (start no_signal items database) over
unfolding handle stop
handed = hand (ends (returned (some no_change)) database refl (λ h. cc) (λ k. refl))

stored : Step stub_driver 1 over filled
stored = put (omega arith)

Steps-run_migrations_example :
    (returned (some no_change), database)
    ≡ run_migrations stub_driver no_signal items closed database
Steps-run_migrations_example =
    Steps-run_migrations stub_driver 1 2 no_signal items database database
      (returned (some no_change)) filled (more handed (more stored done)) refl

Steps-end_example :
    (2 ≤ 2 * length items + 2)
    × (((s' : System Stub) × Step stub_driver 1 filled s')
        ⊎ (((o : Outcome) × ((d' : Stub) × ((runner_of filled ≡ finished o d') × (o ≢ blocked))))
            ⊎ ((reader : Reader) × ((d' : Stub) × ((runner_of filled ≡ hanging reader d')
                    × (stub_driver.run reader d' ≡ none))))))
Steps-end_example =
    Steps-end stub_driver 1 2 no_signal items database filled (more handed (more stored done))

Steps-IsSending_example : IsSending stub_driver 1 filled
Steps-IsSending_example =
    Steps-IsSending stub_driver 1 1 over filled
      (omega arith, (omega arith, (returned (some no_change), (database, refl)))) (more stored done)
