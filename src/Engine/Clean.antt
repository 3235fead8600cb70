-- ===== src/Engine/Clean.antt =====
-- What an operation of migrate.go that returned nil has recorded, over every driver that keeps the contract.
use migrate.Prelude.{
  zero, suc, pos, negsuc, ◌≡◌, refl, sym, ap, subst, ℤ, minus_one, Bool, true, false, Option, none,
  some, List, All, if◌then◌else◌,
}
use migrate.Errors.{Error, dirty, locked, Result, ok, err}
use migrate.Database.Driver.{Driver}
use migrate.Database.Recorder.{recorded, Recorder}
use migrate.Engine.Feed.{Feed, Item, Ending, Signals, later}
use migrate.Engine.Read.{Env}
use migrate.Engine.Run.{Outcome, returned, blocked, crashed, out_of_fuel, run_migrations}
use migrate.Engine.Operations.{
  Migrate, Schedule, Race, answered, timed_out, lock, settle, unlock, after_unlock, unlock_err,
  conclude, run_feed, when_clean, when_locked, locked_run,
}
use migrate.Engine.Recorded.{
  Runs, ended, halted, unread, unmarked, broken, done, Suits, run_migrations-IsReady,
  run_migrations-recorded,
}

-- The answer of `Version` is a version that is not dirty.
abbrev pub IsClean : Result (ℤ × Bool) → Type 0
IsClean row = (v : ℤ) × (row ≡ ok (v, false))

recorded-IsClean : (v : ℤ) → IsClean (ok (recorded v false))
recorded-IsClean (pos n) = (pos n, refl)
recorded-IsClean (negsuc zero) = (minus_one, refl)
recorded-IsClean (negsuc (suc n)) = (minus_one, refl)

-- A run that returned nil goes from a clean version to a clean one.
Runs-IsClean :
    (signals : Signals) (items : List Item) (o : Outcome) (before after : Result (ℤ × Bool))
    → Runs recorded signals items o before after
    → o ≡ returned none
    → IsClean before
    → IsClean after
Runs-IsClean _ _ _ _ _ (ended ending e) nil clean = clean
Runs-IsClean _ _ _ _ _ (halted h) nil clean = clean
Runs-IsClean _ _ _ _ _ unread nil clean = cc
Runs-IsClean _ _ _ _ _ unmarked nil clean = cc
Runs-IsClean _ _ _ _ _ (broken failed) nil clean = absurd (failed nil)
Runs-IsClean _ _ _ _ _ (done {signals} {m} {items} {o} {before} {after} runs) nil clean =
    Runs-IsClean (later signals) items o (ok (recorded m.target_version false)) after runs nil
      (recorded-IsClean m.target_version)

module _ {D : Type 0} {db : Driver D} (rec : Recorder db) (env : Env) where
  -- If the call returned nil, its database has a clean version.
  abbrev LeavesClean : Outcome × Migrate D → Type 0
  LeavesClean (o, m) = o ≡ returned none → IsClean (db.version m.database)

  unlock_err-after :
      (prev : Option Error) (m : Migrate D) (r : Option Error × D)
      → rec.IsReady m.database
      → (prev ≡ none → IsClean (db.version m.database))
      → db.unlock m.database ≡ r
      → LeavesClean (
        returned (elim (after_unlock r m).0 [
          | none ↦ prev
          | some unlock_error ↦ some (env.append_error prev unlock_error)
        ]),
        (after_unlock r m).1,
      )
  unfolding after_unlock
  unlock_err-after none m (none, d) ready clean h nil =
      subst IsClean (sym (rec.unlock_keeps none m.database d ready h).1) (clean refl)
  unlock_err-after (some e) m (none, d) ready clean h nil = cc
  unlock_err-after prev m (some e, d) ready clean h nil = cc

  unlock_err-LeavesClean :
      (prev : Option Error) (m : Migrate D)
      → rec.IsReady m.database
      → (prev ≡ none → IsClean (db.version m.database))
      → LeavesClean (unlock_err env db prev m)
  unfolding unlock_err unlock
  unlock_err-LeavesClean prev m ready clean =
      unlock_err-after prev m (db.unlock m.database) ready clean refl

  conclude-LeavesClean :
      (r : Outcome × D) (m : Migrate D)
      → rec.IsReady r.1
      → (r.0 ≡ returned none → IsClean (db.version r.1))
      → LeavesClean (conclude env db r m)
  unfolding conclude
  conclude-LeavesClean (returned e, d) m ready clean nil =
      unlock_err-LeavesClean e (record m { database = d }) ready (λ h. clean (ap returned h)) nil
  conclude-LeavesClean (blocked, d) m ready clean nil = cc
  conclude-LeavesClean (crashed, d) m ready clean nil = cc
  conclude-LeavesClean (out_of_fuel, d) m ready clean nil = cc

  when_locked-LeavesClean :
      (race : Race) (m : Migrate D) (k : Migrate D → Outcome × Migrate D)
      → rec.IsReady m.database
      → ((m' : Migrate D) → rec.IsReady m'.database → LeavesClean (k m'))
      → LeavesClean (when_locked (lock db race m) k)
  unfolding lock settle
  when_locked-LeavesClean race m k ready next = by_lock m.is_locked
    where
      answer :
          (race : Race) (r : Option Error × D)
          → db.lock m.database ≡ r
          → LeavesClean (when_locked (settle race r m) k)
      answer answered (none, d) h nil =
          next (record { database = d; is_locked = true })
            (rec.lock_keeps none m.database d ready h).0 nil
      answer answered (some e, d) h nil = cc
      answer (timed_out true) (r, d) h nil = cc
      answer (timed_out false) r h nil = cc

      by_lock :
          (held : Bool)
          → LeavesClean (
              when_locked (if held then (some locked, m) else settle race (db.lock m.database) m) k)
      by_lock true = λ nil. cc
      by_lock false = answer race (db.lock m.database) refl

  module _ (schedule : Schedule) (feed : ℤ → Feed)
      (suited : (cur_version : ℤ) → All (Suits rec) (feed cur_version).items) where
    when_clean-LeavesClean :
        (m : Migrate D) (row : Result (ℤ × Bool))
        → rec.IsReady m.database
        → db.version m.database ≡ row
        → LeavesClean (when_clean env db schedule feed m row)
    unfolding when_clean run_feed
    when_clean-LeavesClean m (err e) ready h = unlock_err-LeavesClean (some e) m ready (λ no. cc)
    when_clean-LeavesClean m (ok (cur_version, true)) ready h =
        unlock_err-LeavesClean (some (dirty cur_version)) m ready (λ no. cc)
    when_clean-LeavesClean m (ok (cur_version, false)) ready h =
        conclude-LeavesClean run m
          (run_migrations-IsReady rec signals items ending m.database (suited cur_version) ready)
          (λ nil.
            Runs-IsClean signals items run.0 (db.version m.database) (db.version run.1)
              (run_migrations-recorded rec signals items ending m.database (suited cur_version)
                ready)
              nil (cur_version, h))
      where
        signals : Signals
        signals = schedule.running

        items : List Item
        items = (feed cur_version).items

        ending : Ending
        ending = (feed cur_version).ending

        run : Outcome × D
        run = run_migrations db signals items ending m.database

    -- A Migrate, Steps, Up, Down or Run that returned nil left a version that is not dirty, over every driver
    -- that keeps its contract, if the database was ready and the migrations leave the record alone: whatever
    -- was recorded before, and wherever a stop, a failure or the time limit came in.
    pub locked_run-IsClean :
        (m m' : Migrate D)
        → rec.IsReady m.database
        → locked_run env db schedule feed m ≡ (returned none, m')
        → IsClean (db.version m'.database)
    unfolding locked_run
    locked_run-IsClean m m' ready h =
        subst (λ r. IsClean (db.version r.1.database)) h
          (when_locked-LeavesClean schedule.race m _ ready
            (λ m1 ready1. when_clean-LeavesClean m1 (db.version m1.database) ready1 refl)
            (ap (λ r. r.0) h))
