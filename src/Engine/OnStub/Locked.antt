-- ===== src/Engine/OnStub/Locked.antt =====
-- What the operations of migrate.go share, on the in-memory database: lock, look at the version,
-- run, unlock.
use migrate.Prelude.{
  ◌≡◌, refl, sym, ap, ◌∙◌, ℤ, Bool, true, false, Option, none, some, List, [], ◌∷◌,
}
use migrate.Errors.{Error, dirty, ok}
use migrate.Database.Stub.{Stub, stub_driver}
use migrate.Engine.Migration.{Migration}
use migrate.Engine.Feed.{Feed, Item, closed}
use migrate.Engine.Read.{Env}
use migrate.Engine.Run.{returned, run_migrations}
use migrate.Engine.Operations.{
  Migrate, answered, Schedule, settle, lock, unlock, unlock_err, conclude, run_feed, when_clean,
  when_locked, locked_run,
}
use migrate.Engine.OnStub.{ran, ran_all}

-- A Migrate that holds no lock.
abbrev pub idle : Stub → Migrate Stub
idle st = record { database = st; is_locked = false }

abbrev pub locked_at : Stub → Stub
locked_at st = record st { is_locked = true }

ran_all-is_locked :
    (ms : List Migration) (st : Stub) (b : Bool)
    → ran_all ms (record st { is_locked = b }) ≡ record (ran_all ms st) { is_locked = b }
unfolding ran_all ran
ran_all-is_locked [] st b = refl
ran_all-is_locked (m ∷ ms) st b = ran_all-is_locked ms (ran m st) b

pub ran_all-keeps_lock :
    (ms : List Migration) (st : Stub) → (ran_all ms st).is_locked ≡ st.is_locked
unfolding ran_all ran
ran_all-keeps_lock [] st = refl
ran_all-keeps_lock (m ∷ ms) st = ran_all-keeps_lock ms (ran m st)

relocked : (st : Stub) (b : Bool) → st.is_locked ≡ b → record st { is_locked = b } ≡ st
relocked st b e = ap (λ c. record st { is_locked = c }) (sym e)

pub lock_stub :
    (st : Stub)
    → st.is_locked ≡ false
    → lock stub_driver answered (idle st)
      ≡ (none, record { database = locked_at st; is_locked = true })
unfolding lock settle stub_driver
lock_stub st e = rw e

abbrev pub held : Stub → Migrate Stub
held st = record { database = locked_at st; is_locked = true }

pub unlock_stub :
    (env : Env) (e : Option Error) (st : Stub)
    → st.is_locked ≡ false
    → unlock_err env stub_driver e (held st) ≡ (returned e, idle st)
unfolding unlock_err unlock stub_driver
unlock_stub env e st f = ap (λ s. (returned e, idle s)) (relocked st false f)

module _ (env : Env) (schedule : Schedule) (st : Stub) (free : st.is_locked ≡ false) where
  conclude_stub :
      (items : List Item) (e : Option Error) (ms : List Migration)
      → ((s : Stub)
          → run_migrations stub_driver schedule.running items closed s ≡ (returned e, ran_all ms s))
      → run_feed env stub_driver schedule (record { items = items; ending = closed }) (held st)
        ≡ (returned e, idle (ran_all ms st))
  unfolding run_feed conclude
  conclude_stub items e ms runs =
      ap (λ r. conclude env stub_driver r (held st))
        (runs (locked_at st) ∙ ap (λ s. (returned e, s)) (ran_all-is_locked ms st true))
      ∙ unlock_stub env e (ran_all ms st) (ran_all-keeps_lock ms st ∙ free)

  pub locked_run-when_clean :
      (feed : ℤ → Feed)
      → schedule.race ≡ answered
      → locked_run env stub_driver schedule feed (idle st)
        ≡ when_clean env stub_driver schedule feed (held st) (ok (st.current_version, st.is_dirty))
  unfolding locked_run stub_driver
  locked_run-when_clean feed r =
      ap
        (λ race.
          when_locked (lock stub_driver race (idle st))
            λ m. when_clean env stub_driver schedule feed m (stub_driver.version m.database))
        r
      ∙ ap
          (λ p.
            when_locked p
              λ m. when_clean env stub_driver schedule feed m (stub_driver.version m.database))
          (lock_stub st free)

  -- What the database holds when its state is clean and no one else has the lock.
  pub locked_run_clean :
      (cur : ℤ) (feed : ℤ → Feed) (items : List Item) (e : Option Error) (ms : List Migration)
      → st.is_dirty ≡ false
      → st.current_version ≡ cur
      → schedule.race ≡ answered
      → feed cur ≡ record { items = items; ending = closed }
      → ((s : Stub)
          → run_migrations stub_driver schedule.running items closed s ≡ (returned e, ran_all ms s))
      → locked_run env stub_driver schedule feed (idle st) ≡ (returned e, idle (ran_all ms st))
  unfolding when_clean
  locked_run_clean cur feed items e ms clean at race f runs =
      locked_run-when_clean feed race
      ∙ ap (λ b. when_clean env stub_driver schedule feed (held st) (ok (st.current_version, b)))
          clean
      ∙ ap (λ v. run_feed env stub_driver schedule (feed v) (held st)) at
      ∙ ap (λ x. run_feed env stub_driver schedule x (held st)) f
      ∙ conclude_stub items e ms runs

  -- A dirty database is refused, whatever is to be read for it.
  pub locked_run_dirty :
      (feed : ℤ → Feed)
      → st.is_dirty ≡ true
      → schedule.race ≡ answered
      → locked_run env stub_driver schedule feed (idle st)
        ≡ (returned (some (dirty st.current_version)), idle st)
  unfolding when_clean
  locked_run_dirty feed d race =
      locked_run-when_clean feed race
      ∙ ap (λ b. when_clean env stub_driver schedule feed (held st) (ok (st.current_version, b))) d
      ∙ unlock_stub env (some (dirty st.current_version)) st free
