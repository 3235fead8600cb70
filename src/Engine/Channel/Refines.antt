-- ===== src/Engine/Channel/Refines.antt =====
-- Whatever the capacity and the interleaving, `runMigrations` ends as if it had the items one after another.
use migrate.Prelude.{ℕ, ◌≡◌, refl, sym, some, ◌∙◌, ap, List, [], ◌∷◌, ◌++◌}
use mathlib.Core.List.{append_assoc}
use migrate.Database.Driver.{Driver}
use migrate.Engine.Feed.{Item, closed, Signals, later}
use migrate.Engine.Run.{Outcome, blocked, run_migrations}
use migrate.Engine.Channel.{
  Runner, receiving, hanging, finished, System, at, Handled, stops, ends, hangs, passes, Step, put,
  hand, take, close, end, Steps, done, more, start, runner_of, outcome_of,
}

module _ {D : Type 0} (db : Driver D) where
  -- How the runner ends if it gets the items `rest`.
  abbrev result : Runner D → List Item → Outcome × D
  result (receiving signals d) rest = run_migrations db signals rest closed d
  result (hanging reader d) rest = (blocked, d)
  result (finished o d) rest = (o, d)

  abbrev promised : System D → Outcome × D
  promised (at xs q b r) = result r (q ++ xs)

  Handled-result :
      (item : Item) (rest : List Item) (d : D) (signals : Signals) (r : Runner D)
      → Handled db item d signals r
      → result (receiving signals d) (item ∷ rest) ≡ result r rest
  unfolding run_migrations
  Handled-result item rest d signals (finished _ _) (stops h) = rw h refl
  Handled-result item rest d signals (finished _ _) (ends o d' h n e) =
      rw h (e (run_migrations db (later signals) rest closed))
  Handled-result item rest d signals (hanging _ _) (hangs reader d' h n e) =
      rw h (e (run_migrations db (later signals) rest closed))
  Handled-result item rest d signals (receiving _ _) (passes d' h e) =
      rw h (e (run_migrations db (later signals) rest closed))

  Step-promised :
      (capacity : ℕ) (s s' : System D) → Step db capacity s s' → promised s ≡ promised s'
  unfolding run_migrations
  Step-promised capacity _ _ (put {x} {xs} {q} {r} lt) =
      ap (result r) (sym (append_assoc q (x ∷ []) xs))
  Step-promised capacity _ _ (hand {x} {xs} {signals} {d} {r} h) = Handled-result x xs d signals r h
  Step-promised capacity _ _ (take {x} {xs} {q} {b} {signals} {d} {r} h) =
      Handled-result x (q ++ xs) d signals r h
  Step-promised capacity _ _ close = refl
  Step-promised capacity _ _ end = refl

  Steps-promised :
      (capacity n : ℕ) (s s' : System D) → Steps db capacity n s s' → promised s ≡ promised s'
  Steps-promised capacity _ _ _ done = refl
  Steps-promised capacity _ _ _ (more {n} {s} {s1} {s2} step rest) =
      Step-promised capacity s s1 step ∙ Steps-promised capacity n s1 s2 rest

  -- However the reader and `runMigrations` interleave, and whatever the capacity of the channel: once
  -- `runMigrations` has ended, or waits for a call that does not return, it has got there as on the list of all
  -- items that the reader sends, with the same database, whatever is left in the channel.
  pub Steps-run_migrations :
      (capacity n : ℕ) (signals : Signals) (items : List Item) (d d' : D) (o : Outcome)
      (s : System D)
      → Steps db capacity n (start signals items d) s
      → outcome_of (runner_of s) ≡ some (o, d')
      → (o, d') ≡ run_migrations db signals items closed d
  Steps-run_migrations capacity n signals items d d' o s steps h =
      at_rest s h ∙ sym (Steps-promised capacity n (start signals items d) s steps)
    where
      at_rest : (s : System D) → outcome_of (runner_of s) ≡ some (o, d') → (o, d') ≡ promised s
      at_rest (at xs q b (receiving signals d)) h = cc
      at_rest (at xs q b (hanging reader d)) h = cc h
      at_rest (at xs q b (finished o d)) h = cc h
