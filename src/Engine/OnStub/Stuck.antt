-- ===== src/Engine/OnStub/Stuck.antt =====
-- How the in-memory database stays locked: a body that cannot be read, and a lock that comes too
-- late, in migrate.go and migration.go.
use migrate.Prelude.{
  ◌≡◌, refl, ap, ◌∙◌, inl, inr, ℤ, true, false, some, List, ◌∷◌, map, Bool-cases, length, ltb,
}
use migrate.Errors.{Error, lock_timeout, database_locked, ok}
use migrate.Source.Driver.{Body}
use migrate.Database.Stub.{Stub, stub_driver}
use migrate.Engine.Migration.{Migration, buffer, peek_and_write, write_to}
use migrate.Engine.Feed.{Feed, stopped, migration, closed}
use migrate.Engine.Read.{Env}
use migrate.Engine.Run.{
  Outcome, returned, blocked, run_opened, run_body, apply, handle, run_migrations,
}
use migrate.Engine.Operations.{
  Migrate, Schedule, answered, timed_out, settle, lock, locked_run, when_clean, run_feed, conclude,
}
use migrate.Engine.Operations
use migrate.Engine.OnStub.Locked.{idle, held, locked_at, locked_run-when_clean}

buffer-open :
    (m : Migration) (body : Body) (e : Error)
    → m.body ≡ some body
    → body.read_error ≡ some e
    → (buffer m).reader.ended ≡ false
unfolding buffer peek_and_write write_to
buffer-open m body e b r = elim (Bool-cases (ltb (length body.bytes) m.buffer_size)) [
  | inl h ↦ rw (b, r, h) refl
  | inr h ↦ rw (b, r, h) refl
]

abbrev pub dirtied : Migration → Stub → Stub
dirtied m st = record st { current_version = m.target_version; is_dirty = true }

run_body-blocked :
    (m : Migration) (body : Body) (e : Error) (st : Stub) (k : Stub → Outcome × Stub)
    → m.body ≡ some body
    → body.read_error ≡ some e
    → run_body stub_driver m st k ≡ (blocked, st)
unfolding run_body stub_driver
run_body-blocked m body e st k b r =
    ap (λ o. run_opened stub_driver (buffer m).reader o st k) b ∙ rw (buffer-open m body e b r) refl

-- A migration whose body cannot be read waits for ever, its version marked dirty.
pub apply-blocked :
    (m : Migration) (body : Body) (e : Error) (st : Stub) (k : Stub → Outcome × Stub)
    → m.body ≡ some body
    → body.read_error ≡ some e
    → apply stub_driver m st k ≡ (blocked, dirtied m st)
unfolding apply stub_driver
apply-blocked m body e st k b r = run_body-blocked m body e (dirtied m st) _ b r

module _ (env : Env) (schedule : Schedule) (st : Stub) (free : st.is_locked ≡ false) where
  -- Run on an unlocked and clean database, with a first migration whose body gives an error when it
  -- is read and no stop signal before it, never returns: the pipe to the driver is not closed. The
  -- database stays dirty at the migration's target and locked, and so does the Migrate.
  pub run-blocked :
      (m : Migration) (more : List Migration) (body : Body) (e : Error)
      → m.body ≡ some body
      → body.read_error ≡ some e
      → st.is_dirty ≡ false
      → schedule.race ≡ answered
      → stopped (schedule.running 0) ≡ false
      → Operations.run env stub_driver schedule (m ∷ more) (idle st)
        ≡ (blocked, record { database = dirtied m (locked_at st); is_locked = true })
  unfolding Operations.run when_clean run_feed conclude run_migrations handle
  run-blocked m more body e b r clean race quiet =
      let feed : ℤ → Feed = λ cur. record { items = map migration (m ∷ more); ending = closed } in
      locked_run-when_clean env schedule st free feed race
      ∙ ap (λ b. when_clean env stub_driver schedule feed (held st) (ok (st.current_version, b)))
          clean
      ∙ rw quiet (
          ap (λ r. conclude env stub_driver r (held st))
            (apply-blocked m body e (locked_at st) _ b r))

  -- A Lock that the unlocked in-memory database grants only after the timeout leaves it locked: the
  -- operation returns ErrLockTimeout and does not unlock, and the next operation, whose Lock
  -- answers in time, is refused by the database, which it finds locked.
  pub locked_run-late :
      (feed : ℤ → Feed) (again : Schedule) (feed' : ℤ → Feed)
      → schedule.race ≡ timed_out true
      → again.race ≡ answered
      → (locked_run env stub_driver schedule feed (idle st)
          ≡ (returned (some lock_timeout), idle (locked_at st)))
        × (locked_run env stub_driver again feed' (idle (locked_at st))
            ≡ (returned (some database_locked), idle (locked_at st)))
  unfolding locked_run lock settle stub_driver
  locked_run-late feed again feed' race race' = (rw (race, free) refl, rw race' refl)
