-- ===== src/Engine/Run.antt =====
-- migrate.go: `runMigrations`, which takes what was read and runs it against the database.
use migrate.Prelude.{true, false, Option, none, some, List, [], ◌∷◌, if◌then◌else◌}
use migrate.Errors.{Error}
use migrate.Source.Driver.{Body}
use migrate.Database.Driver.{Driver, Reader}
use migrate.Engine.Migration.{Migration, buffer}
use migrate.Engine.Feed.{
  Item, failure, migration, Ending, closed, panicked, unfinished, stopped, Signals, later,
}

-- How a call ends: it returns an error or nil; it waits forever; a goroutine's panic ends the
-- process; or the model ran out of fuel.
pub data Outcome : Type 0 where
  returned : Option Error → Outcome
  blocked crashed out_of_fuel : Outcome

abbrev pub at_end : Ending → Outcome
at_end closed = returned none
at_end panicked = crashed
at_end unfinished = out_of_fuel

module _ {D : Type 0} where
  -- `if err := ...; err != nil { return err }`.
  abbrev pub perform : Option Error × D → (D → Outcome × D) → Outcome × D
  perform (none, d) k = k d
  perform (some e, d) k = (returned (some e), d)

  abbrev pub await : D → Option (Option Error × D) → (D → Outcome × D) → Outcome × D
  await d none k = (blocked, d)
  await d (some r) k = perform r k

  -- A migration with no body is not run.
  unfoldable pub run_opened : Driver D → Reader → Option Body → D → (D → Outcome × D) → Outcome × D
  run_opened db reader none d k = k d
  run_opened db reader (some body) d k = await d (db.run reader d) k

  unfoldable pub run_body : Driver D → Migration → D → (D → Outcome × D) → Outcome × D
  unfolding run_opened
  run_body db m d k = run_opened db (buffer m).reader m.body d k

  -- One migration: dirty, run, clean.
  unfoldable pub apply : Driver D → Migration → D → (D → Outcome × D) → Outcome × D
  unfolding run_body
  apply db m d k =
      perform (db.set_version m.target_version true d)
        λ d1. run_body db m d1 λ d2. perform (db.set_version m.target_version false d2) k

  unfoldable pub handle : Driver D → Item → D → (D → Outcome × D) → Outcome × D
  handle db (failure e) d k = (returned (some e), d)
  handle db (migration m) d k = apply db m d k

  -- `runMigrations` over the items of the channel and how the channel ends. The reading goroutine
  -- touches the source alone and this one the database alone, so the items do not depend on how the
  -- two interleave, but for the stop signal, which each meets at its own calls of `stop`.
  unfoldable pub run_migrations : Driver D → Signals → List Item → Ending → D → Outcome × D
  run_migrations db signals [] ending d = (at_end ending, d)
  run_migrations db signals (item ∷ items) ending d =
      let rest = run_migrations db (later signals) items ending in
      if stopped (signals 0) then (returned none, d) else handle db item d rest
