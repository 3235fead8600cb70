-- ===== src/Engine/Protocol/Same.antt =====
-- A log beside a database driver changes nothing for `runMigrations` of migrate.go.
use migrate.Prelude.{
  ◌≡◌, refl, inl, inr, true, false, Option, none, some, List, [], ◌∷◌, ◌++◌, Bool-cases,
}
use migrate.Errors.{Error}
use migrate.Source.Driver.{Body}
use migrate.Database.Driver.{Driver}
use migrate.Engine.Migration.{Migration, buffer}
use migrate.Engine.Feed.{Item, failure, migration, Ending, Signals, later, stopped}
use migrate.Engine.Run.{Outcome, perform, await, run_opened, apply, handle, run_migrations}
use migrate.Engine.Protocol.{Call, traced, logged, logged_run}

module _ {D : Type 0} where
  abbrev forget : Outcome × (D × List Call) → Outcome × D
  forget (o, s) = (o, s.0)

  module _ (k : D × List Call → Outcome × (D × List Call)) (k' : D → Outcome × D)
      (same : (d : D) (l : List Call) → forget (k (d, l)) ≡ k' d) where
    perform-logged :
        (log : List Call) (c : Option Error → Call) (r : Option Error × D)
        → forget (perform (logged log c r) k) ≡ perform r k'
    perform-logged log c (none, d) = same d (log ++ c none ∷ [])
    perform-logged log c (some e, d) = refl

    await-logged :
        (log : List Call) (c : Option Error → Call) (d : D) (r : Option (Option Error × D))
        → forget (await (d, log) (logged_run log c r) k) ≡ await d r k'
    await-logged log c d none = refl
    await-logged log c d (some (none, d')) = same d' (log ++ c none ∷ [])
    await-logged log c d (some (some e, d')) = refl

    opened-logged :
        (db : Driver D) (m : Migration) (body : Option Body) (d : D) (log : List Call)
        → forget (run_opened (traced db) (buffer m).reader body (d, log) k)
          ≡ run_opened db (buffer m).reader body d k'
    unfolding run_opened traced
    opened-logged db m none d log = same d log
    opened-logged db m (some body) d log =
        await-logged log (Call.run (buffer m).reader) d (db.run (buffer m).reader d)

  apply-traced :
      (db : Driver D) (m : Migration) (d : D) (log : List Call)
      (k : D × List Call → Outcome × (D × List Call)) (k' : D → Outcome × D)
      → ((d : D) (l : List Call) → forget (k (d, l)) ≡ k' d)
      → forget (apply (traced db) m (d, log) k) ≡ apply db m d k'
  unfolding apply traced
  apply-traced db m d log k k' same =
      perform-logged _ _
        (λ d1 l1.
          opened-logged _ _
            (λ d2 l2.
              perform-logged k k' same l2 (Call.set_version m.target_version false)
                (db.set_version m.target_version false d2))
            db m m.body d1 l1)
        log (Call.set_version m.target_version true) (db.set_version m.target_version true d)

  handle-traced :
      (db : Driver D) (item : Item) (d : D) (log : List Call)
      (k : D × List Call → Outcome × (D × List Call)) (k' : D → Outcome × D)
      → ((d : D) (l : List Call) → forget (k (d, l)) ≡ k' d)
      → forget (handle (traced db) item (d, log) k) ≡ handle db item d k'
  unfolding handle
  handle-traced db (failure e) d log k k' same = refl
  handle-traced db (migration m) d log k k' same = apply-traced db m d log k k' same

  -- A database driver that keeps a log behaves as it does without: runMigrations ends the same way,
  -- and the database is the same.
  pub run_migrations-traced :
      (db : Driver D) (signals : Signals) (items : List Item) (ending : Ending) (d : D)
      (log : List Call)
      → forget (run_migrations (traced db) signals items ending (d, log))
        ≡ run_migrations db signals items ending d
  unfolding run_migrations
  run_migrations-traced db signals [] ending d log = refl
  run_migrations-traced db signals (item ∷ items) ending d log =
      elim (Bool-cases (stopped (signals 0))) [
        | inl h ↦ rw h refl
        | inr h ↦ rw h (
            handle-traced db item d log _ _
              (λ d' l. run_migrations-traced db (later signals) items ending d' l))
      ]
