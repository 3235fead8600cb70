-- ===== src/Engine/Recorded.antt =====
-- What the database has recorded as its version after `runMigrations`, over every driver whose `SetVersion` is
-- atomic and whose `Run` leaves the record alone.
use migrate.Prelude.{
  ◌≡◌, ◌≢◌, refl, minus_one, ltb_ℤ, sym, ◌∙◌, subst, inl, inr, ℤ, Bool, true, false, Option, none,
  some, List, [], ◌∷◌, All, Bool-cases,
}
use migrate.Errors.{Error, Result, ok}
use migrate.Source.Driver.{Body}
use migrate.Database.Driver.{Driver}
use migrate.Database.Recorder.{recorded, Recorder}
use migrate.Engine.Migration.{Migration, buffer}
use migrate.Engine.Feed.{Item, failure, migration, Ending, stopped, Signals, later}
use migrate.Engine.Run.{
  Outcome, returned, blocked, at_end, perform, await, run_opened, run_body, apply, handle,
  run_migrations,
}

-- How a run of the items ends, from what was recorded before it to what is recorded after it, where `mark` is
-- the row that `SetVersion` leaves.
pub data Runs (mark : ℤ → Bool → ℤ × Bool)
    : Signals → List Item → Outcome → Result (ℤ × Bool) → Result (ℤ × Bool) → Type 0 where
  -- There was nothing left to run.
  ended :
      {signals : Signals} {o : Outcome} {row : Result (ℤ × Bool)} (ending : Ending)
      → o ≡ at_end ending
      → Runs mark signals [] o row row
  -- The stop signal came before the next item.
  halted :
      {signals : Signals} {item : Item} {items : List Item} {row : Result (ℤ × Bool)}
      → stopped (signals 0) ≡ true
      → Runs mark signals (item ∷ items) (returned none) row row
  -- The next migration could not be read.
  unread :
      {signals : Signals} {items : List Item} {e : Error} {row : Result (ℤ × Bool)}
      → Runs mark signals (failure e ∷ items) (returned (some e)) row row
  -- The next migration could not be marked as begun.
  unmarked :
      {signals : Signals} {m : Migration} {items : List Item} {e : Error} {row : Result (ℤ × Bool)}
      → Runs mark signals (migration m ∷ items) (returned (some e)) row row
  -- The next migration was marked as begun and not as done.
  broken :
      {signals : Signals} {m : Migration} {items : List Item} {o : Outcome}
      {row : Result (ℤ × Bool)}
      → o ≢ returned none
      → Runs mark signals (migration m ∷ items) o row (ok (mark m.target_version true))
  -- The next migration was marked as done.
  done :
      {signals : Signals} {m : Migration} {items : List Item} {o : Outcome}
      {before after : Result (ℤ × Bool)}
      → Runs mark (later signals) items o (ok (mark m.target_version false)) after
      → Runs mark signals (migration m ∷ items) o before after

-- A target is a version or the nil version.
abbrev pub HasTarget : Item → Type 0
HasTarget (failure e) = true ≡ true
HasTarget (migration m) = ltb_ℤ m.target_version minus_one ≡ false

abbrev pub exactly : ℤ → Bool → ℤ × Bool
exactly version is_dirty = (version, is_dirty)

module _ {D : Type 0} {db : Driver D} (rec : Recorder db) where
  -- The migration of an item fits the database and leaves the record alone.
  abbrev pub Suits : Item → Type 0
  Suits (failure e) = true ≡ true
  Suits (migration m) = rec.Fits m.target_version × rec.Apart (buffer m).reader

  perform_cases :
      (P : Outcome × D → Type 0) (r : Option Error × D) {k : D → Outcome × D}
      → ((e : Error) (d : D) → r ≡ (some e, d) → P (returned (some e), d))
      → ((d : D) → r ≡ (none, d) → P (k d))
      → P (perform r k)
  perform_cases P (some e, d) failed passed = failed e d refl
  perform_cases P (none, d) failed passed = passed d refl

  await_cases :
      (P : Outcome × D → Type 0) (d : D) (r : Option (Option Error × D)) {k : D → Outcome × D}
      → P (blocked, d)
      → ((e : Error) (d : D) → r ≡ some (some e, d) → P (returned (some e), d))
      → ((d : D) → r ≡ some (none, d) → P (k d))
      → P (await d r k)
  await_cases P d none waits failed passed = waits
  await_cases P d (some (some e, d')) waits failed passed = failed e d' refl
  await_cases P d (some (none, d')) waits failed passed = passed d' refl

  -- `d` is ready and has recorded `row`.
  HasRecorded : Result (ℤ × Bool) → D → Type 0
  HasRecorded row d = rec.IsReady d × (db.version d ≡ row)

  -- After `items` the database is ready, and the record has gone from `before` to what it is now.
  Leads : Signals → List Item → Result (ℤ × Bool) → Outcome × D → Type 0
  Leads signals items before (o, d) =
      rec.IsReady d × Runs recorded signals items o before (db.version d)

  -- The last step of a migration: it is marked as done.
  mark-Leads :
      (signals : Signals) (m : Migration) (items : List Item) (before : Result (ℤ × Bool))
      (k : D → Outcome × D)
      → rec.Fits m.target_version
      → ((d : D)
          → HasRecorded (ok (recorded m.target_version false)) d
          → Leads (later signals) items (ok (recorded m.target_version false)) (k d))
      → (d : D) → HasRecorded (ok (recorded m.target_version true)) d
      → Leads signals
          (migration m ∷ items)
          before
          (perform (db.set_version m.target_version false d) k)
  unfolding Leads HasRecorded
  mark-Leads signals m items before k fits next d (ready, marked) =
      perform_cases (Leads signals (migration m ∷ items) before)
        (db.set_version m.target_version false d)
        (λ e d1 h. (
          ready_after (some e) d1 h,
          subst (λ row. Runs recorded signals (migration m ∷ items) (returned (some e)) before row)
              (sym (rec.set_fails m.target_version false d d1 e ready fits h ∙ marked)) (broken cc),
        ))
        (λ d1 h.
          let led =
            next d1
              (ready_after none d1 h, rec.set_sets m.target_version false d d1 ready fits h) in
          (led.0, done led.1))
    where
      ready_after :
          (o : Option Error) (d1 : D)
          → db.set_version m.target_version false d ≡ (o, d1)
          → rec.IsReady d1
      ready_after o d1 h =
          subst (λ r. rec.IsReady r.1) h (rec.set_keeps m.target_version false d ready)

  run-Leads :
      (signals : Signals) (m : Migration) (items : List Item) (before : Result (ℤ × Bool))
      (k : D → Outcome × D)
      → Suits (migration m)
      → ((d : D)
          → HasRecorded (ok (recorded m.target_version true)) d
          → Leads signals (migration m ∷ items) before (k d))
      → (d : D) → HasRecorded (ok (recorded m.target_version true)) d
      → Leads signals (migration m ∷ items) before (run_body db m d k)
  unfolding Leads HasRecorded run_body run_opened
  run-Leads signals m items before k suits next d (ready, marked) = opened m.body
    where
      is_marked :
          (o : Option Error) (d1 : D)
          → db.run (buffer m).reader d ≡ some (o, d1)
          → HasRecorded (ok (recorded m.target_version true)) d1
      is_marked o d1 h = (
        (rec.run_keeps (buffer m).reader o d d1 ready suits.1 h).0,
        (rec.run_keeps (buffer m).reader o d d1 ready suits.1 h).1 ∙ marked,
      )

      stuck :
          {o : Outcome}
          → o ≢ returned none
          → (d1 : D) → HasRecorded (ok (recorded m.target_version true)) d1
          → Leads signals (migration m ∷ items) before (o, d1)
      stuck {o} failed d1 (ready1, h) = (
        ready1,
        subst (λ row. Runs recorded signals (migration m ∷ items) o before row) (sym h)
            (broken failed),
      )

      opened :
          (body : Option Body)
          → Leads signals (migration m ∷ items) before (run_opened db (buffer m).reader body d k)
      opened none = next d (ready, marked)
      opened (some body) =
          await_cases (Leads signals (migration m ∷ items) before) d (db.run (buffer m).reader d)
            (stuck (cc) d (ready, marked)) (λ e d1 h. stuck (cc) d1 (is_marked (some e) d1 h))
            (λ d1 h. next d1 (is_marked none d1 h))

  apply-Leads :
      (signals : Signals) (m : Migration) (items : List Item) (k : D → Outcome × D)
      → Suits (migration m)
      → ((d : D)
          → HasRecorded (ok (recorded m.target_version false)) d
          → Leads (later signals) items (ok (recorded m.target_version false)) (k d))
      → (d : D) → rec.IsReady d
      → Leads signals (migration m ∷ items) (db.version d) (apply db m d k)
  unfolding Leads HasRecorded apply
  apply-Leads signals m items k suits next d ready =
      perform_cases (Leads signals (migration m ∷ items) (db.version d))
        (db.set_version m.target_version true d)
        (λ e d1 h. (
          ready_after (some e) d1 h,
          subst
              (λ row.
                Runs recorded signals (migration m ∷ items) (returned (some e)) (db.version d) row)
              (sym (rec.set_fails m.target_version true d d1 e ready suits.0 h)) unmarked,
        ))
        (λ d1 h.
          run-Leads signals m items (db.version d)
            (λ d2. perform (db.set_version m.target_version false d2) k) suits
            (mark-Leads signals m items (db.version d) k suits.0 next) d1
            (ready_after none d1 h, rec.set_sets m.target_version true d d1 ready suits.0 h))
    where
      ready_after :
          (o : Option Error) (d1 : D)
          → db.set_version m.target_version true d ≡ (o, d1)
          → rec.IsReady d1
      ready_after o d1 h =
          subst (λ r. rec.IsReady r.1) h (rec.set_keeps m.target_version true d ready)

  run_migrations-Leads :
      (signals : Signals) (items : List Item) (ending : Ending) (d : D)
      → All Suits items
      → rec.IsReady d
      → Leads signals items (db.version d) (run_migrations db signals items ending d)
  unfolding run_migrations handle Leads HasRecorded
  run_migrations-Leads signals [] ending d suits ready = (ready, ended ending refl)
  run_migrations-Leads signals (failure e ∷ items) ending d suits ready =
      elim (Bool-cases (stopped (signals 0))) [
        | inl h ↦ rw h (ready, halted h)
        | inr h ↦ rw h (ready, unread)
      ]
  run_migrations-Leads signals (migration m ∷ items) ending d (suits, rest) ready =
      elim (Bool-cases (stopped (signals 0))) [
        | inl h ↦ rw h (ready, halted h)
        | inr h ↦ rw h (
            apply-Leads signals m items (run_migrations db (later signals) items ending) suits
              (λ d1 (ready1, same).
                subst
                  (λ row.
                    Leads (later signals) items row
                      (run_migrations db (later signals) items ending d1))
                  same (run_migrations-Leads (later signals) items ending d1 rest ready1))
              d ready)
      ]

  -- A database that was ready is ready after the run.
  pub run_migrations-IsReady :
      (signals : Signals) (items : List Item) (ending : Ending) (d : D)
      → All Suits items
      → rec.IsReady d
      → rec.IsReady (run_migrations db signals items ending d).1
  unfolding Leads
  run_migrations-IsReady signals items ending d suits ready =
      (run_migrations-Leads signals items ending d suits ready).0

  -- What `recorded` says of each mark.
  pub run_migrations-recorded :
      (signals : Signals) (items : List Item) (ending : Ending) (d : D)
      → All Suits items
      → rec.IsReady d
      → Runs recorded signals items
          (run_migrations db signals items ending d).0
          (db.version d)
          (db.version (run_migrations db signals items ending d).1)
  unfolding Leads
  run_migrations-recorded signals items ending d suits ready =
      (run_migrations-Leads signals items ending d suits ready).1
