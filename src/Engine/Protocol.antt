-- ===== src/Engine/Protocol.antt =====
-- The calls that `runMigrations` of migrate.go makes on a database driver, as a log that a wrapped
-- driver keeps, and the order that they are to have.
pub mod Order
pub mod Same
use migrate.Prelude.{◌≡◌, ℤ, Bool, true, false, Option, none, some, List, [], ◌∷◌, ◌++◌}
use migrate.Errors.{Error}
use migrate.Source.Driver.{Body}
use migrate.Database.Driver.{Driver, Reader}
use migrate.Engine.Migration.{Migration, buffer}
use migrate.Engine.Feed
use migrate.Engine.Feed.{Item, failure, migration, Ending, Signals, later}
use migrate.Engine.Run.{Outcome, returned, at_end}

-- A call of SetVersion or of Run that returned, with what it returned.
pub data Call : Type 0 where
  set_version : ℤ → Bool → Option Error → Call
  run : Reader → Option Error → Call

module _ {D : Type 0} where
  abbrev pub logged :
      List Call → (Option Error → Call) → Option Error × D → Option Error × (D × List Call)
  logged log call (e, d) = (e, (d, log ++ call e ∷ []))

  abbrev pub logged_run :
      List Call
      → (Option Error → Call)
      → Option (Option Error × D)
      → Option (Option Error × (D × List Call))
  logged_run log call none = none
  logged_run log call (some r) = some (logged log call r)

  abbrev unlogged : List Call → Option Error × D → Option Error × (D × List Call)
  unlogged log (e, d) = (e, (d, log))

  -- The driver that keeps a log beside the state.
  unfoldable pub traced : Driver D → Driver (D × List Call)
  traced db = record {
    lock = λ s. unlogged s.1 (db.lock s.0);
    unlock = λ s. unlogged s.1 (db.unlock s.0);
    run = λ reader s. logged_run s.1 (run reader) (db.run reader s.0);
    set_version =
        λ v is_dirty s. logged s.1 (set_version v is_dirty) (db.set_version v is_dirty s.0);
    version = λ s. db.version s.0;
    drop = λ s. unlogged s.1 (db.drop s.0);
    close = λ s. unlogged s.1 (db.close s.0);
  }

-- A migration with no body is not run; a body that was run returned nil.
abbrev pub body_calls : Migration → List Call
body_calls m = elim m.body [ none ↦ [] | some body ↦ run (buffer m).reader none ∷ [] ]

-- The calls for the items of a channel with what they returned, and how the loop ends with them, under the
-- signals that it meets: a migration is marked dirty, run and marked clean before the next one is looked at, each
-- call after the one before it returned nil. The first call that returned an error is the last one, and its error is what the loop
-- returns.
pub data Rounds (ending : Ending) : Signals → List Item → List Call → Outcome → Type 0 where
  finished : {signals : Signals} → Rounds ending signals [] [] (at_end ending)
  stopped :
      {signals : Signals} {item : Item} {items : List Item}
      → Feed.stopped (signals 0) ≡ true
      → Rounds ending signals (item ∷ items) [] (returned none)
  failed :
      {signals : Signals} {e : Error} {items : List Item}
      → Feed.stopped (signals 0) ≡ false
      → Rounds ending signals (failure e ∷ items) [] (returned (some e))
  not_marked :
      {signals : Signals} {m : Migration} {items : List Item} {e : Error}
      → Feed.stopped (signals 0) ≡ false
      → Rounds ending signals
          (migration m ∷ items)
          (set_version m.target_version true (some e) ∷ [])
          (returned (some e))
  not_run :
      {signals : Signals} {m : Migration} {items : List Item} {body : Body} {e : Error}
      → Feed.stopped (signals 0) ≡ false
      → m.body ≡ some body
      → Rounds ending signals
          (migration m ∷ items)
          (set_version m.target_version true none ∷ run (buffer m).reader (some e) ∷ [])
          (returned (some e))
  hung :
      {signals : Signals} {m : Migration} {items : List Item} {body : Body}
      → Feed.stopped (signals 0) ≡ false
      → m.body ≡ some body
      → Rounds ending signals
          (migration m ∷ items)
          (set_version m.target_version true none ∷ [])
          Outcome.blocked
  not_cleaned :
      {signals : Signals} {m : Migration} {items : List Item} {e : Error}
      → Feed.stopped (signals 0) ≡ false
      → Rounds ending signals
          (migration m ∷ items)
          (set_version m.target_version true none ∷ body_calls m
            ++ set_version m.target_version false (some e) ∷ [])
          (returned (some e))
  round :
      {signals : Signals} {m : Migration} {items : List Item} {calls : List Call} {o : Outcome}
      → Feed.stopped (signals 0) ≡ false
      → Rounds ending (later signals) items calls o
      → Rounds ending signals
          (migration m ∷ items)
          (set_version m.target_version true none ∷ body_calls m
            ++ set_version m.target_version false none ∷ calls)
          o
