-- ===== src/Engine/OnStub/Runs.antt =====
-- `runMigrations` on the in-memory database.
use migrate.Engine.Plan.{until_stop}
use mathlib.Core.List.{append-nil}
use migrate.Prelude.{
  suc, ◌≡◌, refl, ap, ◌∙◌, inl, inr, true, false, none, some, List, [], ◌∷◌, ◌++◌, map, All,
  Bool-cases, Option-cases,
}
use migrate.Errors.{Error}
use migrate.Source.Driver.{Body}
use migrate.Database.Stub.{Stub, stub_driver}
use migrate.Engine.Migration.{Migration, buffer, peek_and_write, write_to}
use migrate.Engine.Feed.{failure, migration, closed, Signals, stopped, later}
use migrate.Engine.Run.{Outcome, returned, run_opened, run_body, apply, handle, run_migrations}
use migrate.Engine.OnStub.{IsReadable, ran, ran_all, Quiet}

-- A body that can be read reaches the database whole, with its end.
pub buffer-readable :
    (m : Migration) (body : Body)
    → m.body ≡ some body
    → body.read_error ≡ none
    → (buffer m).reader ≡ record { bytes = body.bytes; ended = true }
unfolding buffer peek_and_write write_to
buffer-readable m body e r = rw e (rw r)

readable :
    (m : Migration) (body : Body) → m.body ≡ some body → IsReadable m → body.read_error ≡ none
readable m body e r = rw e at r

run_body-none :
    (m : Migration) (st : Stub) (k : Stub → Outcome × Stub)
    → m.body ≡ none
    → run_body stub_driver m st k ≡ k st
unfolding run_body
run_body-none m st k e = ap (λ o. run_opened stub_driver (buffer m).reader o st k) e

run_body-some :
    (m : Migration) (body : Body) (st : Stub) (k : Stub → Outcome × Stub)
    → m.body ≡ some body
    → body.read_error ≡ none
    → run_body stub_driver m st k
      ≡ k (record st {
        last_run_migration = body.bytes;
        migration_sequence = st.migration_sequence ++ body.bytes ∷ [];
      })
unfolding run_body stub_driver
run_body-some m body st k e r =
    ap (λ o. run_opened stub_driver (buffer m).reader o st k) e
    ∙ ap (λ reader. run_opened stub_driver reader (some body) st k) (buffer-readable m body e r)

-- A migration whose body can be read runs and leaves the database clean at its target.
pub apply-ran :
    (m : Migration) (st : Stub) (k : Stub → Outcome × Stub)
    → IsReadable m
    → apply stub_driver m st k ≡ k (ran m st)
unfolding apply ran stub_driver
apply-ran m st k r =
    let dirtied : Stub = record st { current_version = m.target_version; is_dirty = true } in
    let clean : Stub → Outcome × Stub =
      λ d. k (record d { current_version = m.target_version; is_dirty = false }) in
    elim (Option-cases m.body) [
      | inl e ↦ run_body-none m dirtied clean e ∙ simp (e, append-nil)
      | inr (body, e) ↦ run_body-some m body dirtied clean e (readable m body e r) ∙ simp e
    ]

-- On the in-memory database, runMigrations runs every migration before the first stop signal, if
-- their bodies can be read, and then returns nil.
pub run_migrations-until_stop :
    (ms : List Migration) (signals : Signals) (st : Stub)
    → All IsReadable ms
    → run_migrations stub_driver signals (map migration ms) closed st
      ≡ (returned none, ran_all (until_stop signals ms) st)
unfolding run_migrations handle until_stop ran_all
run_migrations-until_stop [] signals st r = refl
run_migrations-until_stop (m ∷ ms) signals st r = elim (Bool-cases (stopped (signals 0))) [
  | inl h ↦ rw h
  | inr h ↦
      rw
        (
          h,
          apply-ran m st (run_migrations stub_driver (later signals) (map migration ms) closed) r.0,
        )
        (run_migrations-until_stop ms (later signals) (ran m st) r.1)
]

-- With no stop signal an error that follows the migrations is returned after all of them ran.
pub run_migrations-failure :
    (ms : List Migration) (e : Error) (signals : Signals) (st : Stub)
    → All IsReadable ms
    → Quiet signals
    → run_migrations stub_driver signals (map migration ms ++ failure e ∷ []) closed st
      ≡ (returned (some e), ran_all ms st)
unfolding run_migrations handle ran_all
run_migrations-failure [] e signals st r q = rw (q 0)
run_migrations-failure (m ∷ ms) e signals st r q =
    rw
      (
        q 0,
        apply-ran m st
            (run_migrations stub_driver (later signals) (map migration ms ++ failure e ∷ []) closed)
            r.0,
      )
      (run_migrations-failure ms e (later signals) (ran m st) r.1 (λ k. q (suc k)))

pub until_stop-Quiet :
    (ms : List Migration) (signals : Signals) → Quiet signals → until_stop signals ms ≡ ms
unfolding until_stop
until_stop-Quiet [] signals q = refl
until_stop-Quiet (m ∷ ms) signals q = rw (q 0, until_stop-Quiet ms (later signals) (λ k. q (suc k)))
