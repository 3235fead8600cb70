-- ===== src/Engine/Protocol/Order.antt =====
-- The order of the calls of `runMigrations` of migrate.go on any database driver.
use migrate.Prelude.{
  ◌≡◌, refl, sym, ◌∙◌, inl, inr, true, false, Option, none, some, List, [], ◌∷◌, ◌++◌, Bool-cases,
}
use mathlib.Core.List.{append_assoc, append-nil}
use migrate.Errors.{Error}
use migrate.Source.Driver.{Body}
use migrate.Database.Driver.{Driver}
use migrate.Engine.Migration.{Migration, buffer}
use migrate.Engine.Feed.{Item, failure, migration, Ending, Signals, later, stopped}
use migrate.Engine.Run.{Outcome, perform, await, run_opened, apply, handle, run_migrations}
use migrate.Engine.Protocol.{
  Call, set_version, run, traced, logged, logged_run, body_calls, Rounds, finished, failed,
  not_marked, not_run, hung, not_cleaned, round,
}

module _ {D : Type 0} (ending : Ending) where
  -- From a log on, the calls were those of some rounds over the items.
  abbrev Ends : Signals → List Item → List Call → Outcome × (D × List Call) → Type 0
  Ends signals items log r =
      (calls : List Call) × (Rounds ending signals items calls r.0) × (r.1.1 ≡ log ++ calls)

  module _ (signals : Signals) (going : stopped (signals 0) ≡ false) (m : Migration)
      (items : List Item) (log : List Call) (k : D × List Call → Outcome × (D × List Call))
      (next : (d : D) (l : List Call) → Ends (later signals) items l (k (d, l))) where
    abbrev marked : List Call
    marked = log ++ set_version m.target_version true none ∷ []

    abbrev whole : Option Error → List Call → List Call
    whole e calls =
        set_version m.target_version true none ∷ body_calls m
        ++ set_version m.target_version false e ∷ calls

    cleaned_eq :
        (x : Option Error) (l calls : List Call)
        → l ≡ marked ++ body_calls m
        → (l ++ set_version m.target_version false x ∷ []) ++ calls ≡ log ++ whole x calls
    cleaned_eq x l calls e = rw e (simp append_assoc)

    clean-Ends :
        (l : List Call) (r : Option Error × D)
        → l ≡ marked ++ body_calls m
        → Ends signals
            (migration m ∷ items)
            log
            (perform (logged l (set_version m.target_version false) r) k)
    clean-Ends l (none, d) e =
        let (calls, rounds, h) = next d (l ++ set_version m.target_version false none ∷ []) in
        (whole none calls, round going rounds, h ∙ cleaned_eq none l calls e)
    clean-Ends l (some x, d) e =
        (whole (some x) [], not_cleaned going, sym (append-nil _) ∙ cleaned_eq (some x) l [] e)

    module _ (db : Driver D) where
      abbrev clean : D × List Call → Outcome × (D × List Call)
      clean (d, l) =
          perform
            (logged l (set_version m.target_version false)
              (db.set_version m.target_version false d))
            k

      awaited-Ends :
          (body : Body) (d : D) (r : Option (Option Error × D))
          → m.body ≡ some body
          → Ends signals
              (migration m ∷ items)
              log
              (await (d, marked) (logged_run marked (run (buffer m).reader) r) clean)
      awaited-Ends body d none e = (_, hung going e, refl)
      awaited-Ends body d (some (none, d')) e =
          clean-Ends (marked ++ run (buffer m).reader none ∷ [])
            (db.set_version m.target_version false d') (rw e refl)
      awaited-Ends body d (some (some x, d')) e = (_, not_run going e, append_assoc log _ _)

      opened-Ends :
          (body : Option Body) (d : D)
          → m.body ≡ body
          → Ends signals
              (migration m ∷ items)
              log
              (run_opened (traced db) (buffer m).reader body (d, marked) clean)
      unfolding run_opened traced
      opened-Ends none d e =
          clean-Ends marked (db.set_version m.target_version false d)
            (rw e (sym (append-nil marked)))
      opened-Ends (some body) d e = awaited-Ends body d (db.run (buffer m).reader d) e

      marked-Ends :
          (r : Option Error × D)
          → Ends signals (migration m ∷ items) log (
              perform
                (logged log (set_version m.target_version true) r)
                λ s. run_opened (traced db) (buffer m).reader m.body s clean)
      marked-Ends (none, d) = opened-Ends m.body d refl
      marked-Ends (some x, d) = (_, not_marked going, refl)

      apply-Ends : (d : D) → Ends signals (migration m ∷ items) log (apply (traced db) m (d, log) k)
      unfolding apply traced
      apply-Ends d = marked-Ends (db.set_version m.target_version true d)

  handle-Ends :
      (signals : Signals) (db : Driver D) (item : Item) (items : List Item) (d : D)
      (log : List Call) (k : D × List Call → Outcome × (D × List Call))
      → stopped (signals 0) ≡ false
      → ((d' : D) (l : List Call) → Ends (later signals) items l (k (d', l)))
      → Ends signals (item ∷ items) log (handle (traced db) item (d, log) k)
  unfolding handle
  handle-Ends signals db (failure e) items d log k going next =
      ([], failed going, sym (append-nil log))
  handle-Ends signals db (migration m) items d log k going next =
      apply-Ends signals going m items log k next db d

  -- Whatever the database answers, runMigrations takes the items of the channel in order until a stop signal
  -- comes before one of them: it marks the version of a migration dirty, runs the body if there is one and marks
  -- the version clean, each after the call before it returned nil, and then takes the next item. A call that
  -- returned an error is the last one, and its error is what runMigrations returns, as is an error that
  -- comes through the channel; a call that does not return is the last one too.
  pub run_migrations-Rounds :
      (db : Driver D) (signals : Signals) (items : List Item) (d : D) (log : List Call)
      → Ends signals items log (run_migrations (traced db) signals items ending (d, log))
  unfolding run_migrations
  run_migrations-Rounds db signals [] d log = ([], finished, sym (append-nil log))
  run_migrations-Rounds db signals (item ∷ items) d log = elim (Bool-cases (stopped (signals 0))) [
    | inl h ↦ rw h ([], Rounds.stopped h, sym (append-nil log))
    | inr h ↦ rw h (
        handle-Ends signals db item items d log
          (run_migrations (traced db) (later signals) items ending) h
          (λ d' l. run_migrations-Rounds db (later signals) items d' l))
  ]
