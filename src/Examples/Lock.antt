-- ===== src/Examples/Lock.antt =====
-- The lock, the calls of a database driver and the recovery from a failure, on small examples.
use migrate.Prelude.{
  ap, sym, Bool-cases, inl, inr, ℕ, ◌≡◌, refl, ℤ, pos, negsuc, minus_one, suc, true, false, none,
  some, List, [], ◌∷◌, eqb_ℤ, ltb_ℤ,
}
use migrate.Errors.{
  lock_timeout, database_locked, locked, nil_version, invalid_version, external, ok, err,
}
use migrate.Source.Driver.{Body}
use migrate.Database.Stub.{unlock, Stub, stub_driver}
use migrate.Engine.Migration.{Migration, new_migration}
use migrate.Engine.Feed.{Item, migration, closed, finish, stop}
use migrate.Engine.Run.{returned, blocked, run_migrations}
use migrate.Engine.Operations
use migrate.Engine.Operations.{
  Migrate, Schedule, answered, timed_out, locked_run, migrate_to, steps, up, down, force, drop,
  version,
}
use migrate.Engine.Protocol.{Call, Rounds, traced}
use migrate.Engine.Protocol.Order.{run_migrations-Rounds}
use migrate.Engine.Lock.{Released, operations-Released, operations-locked}
use migrate.Engine.OnStub.Locked.{idle, held, locked_at}
use migrate.Engine.OnStub.Recovery.{force_lem, cleaned_at}
use migrate.Engine.OnStub.Stuck.{run-blocked, dirtied, locked_run-late}
use migrate.Examples.{env, schedule, no_signal, stub_at}

abbrev readable : Body
readable = record { bytes = b'c' ∷ []; read_error = none; close_error = none }

abbrev unreadable : Body
unreadable = record { bytes = b'c' ∷ []; read_error = some (external 1); close_error = none }

abbrev good : Migration
good = new_migration (some readable) (b'1' ∷ []) 1 (pos 1)

abbrev bad : Migration
bad = new_migration (some unreadable) (b'2' ∷ []) 2 (pos 2)

abbrev st : Stub
st = stub_at (pos 0)

abbrev items : List Item
items = migration good ∷ migration bad ∷ []

run_migrations-Rounds_example :
    (calls : List Call) × Rounds closed no_signal items calls
      (run_migrations (traced stub_driver) no_signal items closed (st, [])).0
    × ((run_migrations (traced stub_driver) no_signal items closed (st, [])).1.1 ≡ calls)
run_migrations-Rounds_example = run_migrations-Rounds closed stub_driver no_signal items st []

abbrev IsFree : Stub → Type 0
IsFree s = s.is_locked ≡ false

unlock_frees : (s s' : Stub) → stub_driver.unlock s ≡ (none, s') → IsFree s'
unfolding stub_driver unlock
unlock_frees s s' = elim (Bool-cases s.is_locked) [
  | inl h ↦ rw h λ e. ap (λ r. r.1.is_locked) (sym e)
  | inr h ↦ rw h λ e. cc
]

operations-Released_example :
    ((version : ℕ) → Released IsFree (migrate_to env stub_driver schedule version (idle st)))
    × ((n : ℤ) → Released IsFree (steps env stub_driver schedule n (idle st)))
    × Released IsFree (up env stub_driver schedule (idle st))
    × Released IsFree (down env stub_driver schedule (idle st))
    × ((ms : List Migration)
        → Released IsFree (Operations.run env stub_driver schedule ms (idle st)))
    × Released IsFree (drop env stub_driver schedule.race (idle st))
    × ((version : ℤ) → Released IsFree (force env stub_driver schedule.race version (idle st)))
operations-Released_example =
    operations-Released env stub_driver IsFree unlock_frees schedule (idle st)

operations-locked_example :
    ((version : ℕ)
      → migrate_to env stub_driver schedule version (held st) ≡ (returned (some locked), held st))
    × ((n : ℤ)
        → eqb_ℤ n (pos 0) ≡ false
        → steps env stub_driver schedule n (held st) ≡ (returned (some locked), held st))
    × (up env stub_driver schedule (held st) ≡ (returned (some locked), held st))
    × (down env stub_driver schedule (held st) ≡ (returned (some locked), held st))
    × ((migr : Migration) (more : List Migration)
        → Operations.run env stub_driver schedule (migr ∷ more) (held st)
          ≡ (returned (some locked), held st))
    × (drop env stub_driver schedule.race (held st) ≡ (returned (some locked), held st))
    × ((version : ℤ)
        → ltb_ℤ version minus_one ≡ false
        → force env stub_driver schedule.race version (held st) ≡ (returned (some locked), held st))
operations-locked_example = operations-locked env stub_driver schedule (held st) refl

abbrev broken : Stub
broken = record st { is_dirty = true }

force_lem_example :
    ((n : ℕ)
      → (force env stub_driver answered (pos n) (idle broken)
          ≡ (returned none, idle (cleaned_at (pos n) broken)))
        × (version stub_driver (force env stub_driver answered (pos n) (idle broken)).1
            ≡ some (ok (n, false))))
    × (force env stub_driver answered minus_one (idle broken)
        ≡ (returned none, idle (cleaned_at minus_one broken)))
    × (version stub_driver (force env stub_driver answered minus_one (idle broken)).1
        ≡ some (err nil_version))
    × ((n : ℕ)
        → force env stub_driver answered (negsuc (suc n)) (idle broken)
          ≡ (returned (some invalid_version), idle broken))
force_lem_example = force_lem env broken refl

run-blocked_example :
    Operations.run env stub_driver schedule (bad ∷ good ∷ []) (idle st)
    ≡ (blocked, record { database = dirtied bad (locked_at st); is_locked = true })
unfolding new_migration stop
run-blocked_example =
    run-blocked env schedule st refl bad (good ∷ []) unreadable (external 1) refl refl refl refl
      refl

abbrev late : Schedule
late = record { race = timed_out true; reading = no_signal; running = no_signal; fuel = 4 }

locked_run-late_example :
    (locked_run env stub_driver late (λ cur. finish) (idle st)
      ≡ (returned (some lock_timeout), idle (locked_at st)))
    × (locked_run env stub_driver schedule (λ cur. finish) (idle (locked_at st))
        ≡ (returned (some database_locked), idle (locked_at st)))
locked_run-late_example =
    locked_run-late env late st refl (λ cur. finish) schedule (λ cur. finish) refl refl
