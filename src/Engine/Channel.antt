-- ===== src/Engine/Channel.antt =====
-- migrate.go: the reading goroutine and `runMigrations` at work together over the bounded channel between them,
-- as `Migrate`, `Steps`, `Up` and `Down` start them with `make(chan interface{}, m.PrefetchMigrations)`.
pub mod Refines
pub mod Ends
pub mod Leak
use migrate.Prelude.{
  ℕ, suc, ◌<◌, ◌≡◌, ◌≢◌, Bool, true, false, Option, none, some, List, [], ◌∷◌, ◌++◌, length,
}
use migrate.Database.Driver.{Driver, Reader}
use migrate.Engine.Feed.{Item, Signals, stopped, later}
use migrate.Engine.Run.{Outcome, returned, blocked, handle}

-- `runMigrations` waits for an item in the state `d` of the database, or waits there for a call of `Run` with the
-- reader that does not return, or has ended.
pub data Runner (D : Type 0) : Type 0 where
  receiving : Signals → D → Runner D
  hanging : Reader → D → Runner D
  finished : Outcome → D → Runner D

-- How `runMigrations` has come to a stand, if it has.
abbrev pub outcome_of : {D : Type 0} → Runner D → Option (Outcome × D)
outcome_of (receiving signals d) = none
outcome_of (hanging reader d) = some (blocked, d)
outcome_of (finished o d) = some (o, d)

-- What the reader has still to send, what the channel holds, and whether it is closed. What the reader sends is
-- given: it depends on the source and on the stop signals that the reader meets. A reader that panics, which
-- ends the process wherever the runner is, is left out.
pub data System (D : Type 0) : Type 0 where
  at : List Item → List Item → Bool → Runner D → System D

abbrev pub runner_of : {D : Type 0} → System D → Runner D
runner_of (at xs q b r) = r

module _ {D : Type 0} (db : Driver D) where
  -- The loop body of `runMigrations` for an item: where it leaves the runner, whatever the rest `k` of the loop does.
  pub data Handled (item : Item) (d : D) : Signals → Runner D → Type 0 where
    stops :
        {signals : Signals}
        → stopped (signals 0) ≡ true
        → Handled item d signals (finished (returned none) d)
    ends :
        {signals : Signals} (o : Outcome) (d' : D)
        → stopped (signals 0) ≡ false
        → o ≢ blocked
        → ((k : D → Outcome × D) → handle db item d k ≡ (o, d'))
        → Handled item d signals (finished o d')
    hangs :
        {signals : Signals} (reader : Reader) (d' : D)
        → stopped (signals 0) ≡ false
        → db.run reader d' ≡ none
        → ((k : D → Outcome × D) → handle db item d k ≡ (blocked, d'))
        → Handled item d signals (hanging reader d')
    passes :
        {signals : Signals} (d' : D)
        → stopped (signals 0) ≡ false
        → ((k : D → Outcome × D) → handle db item d k ≡ k d')
        → Handled item d signals (receiving (later signals) d')

  -- `capacity` is `PrefetchMigrations`.
  pub data Step (capacity : ℕ) : System D → System D → Type 0 where
    -- The reader puts an item into the channel.
    put :
        {x : Item} {xs q : List Item} {r : Runner D}
        → length q < capacity
        → Step capacity (at (x ∷ xs) q false r) (at xs (q ++ x ∷ []) false r)
    -- The reader hands an item to the waiting runner.
    hand :
        {x : Item} {xs : List Item} {signals : Signals} {d : D} {r : Runner D}
        → Handled x d signals r
        → Step capacity (at (x ∷ xs) [] false (receiving signals d)) (at xs [] false r)
    -- The runner takes the first item of the channel.
    take :
        {x : Item} {xs q : List Item} {b : Bool} {signals : Signals} {d : D} {r : Runner D}
        → Handled x d signals r
        → Step capacity (at xs (x ∷ q) b (receiving signals d)) (at xs q b r)
    -- `defer close(ret)`.
    close : {q : List Item} {r : Runner D} → Step capacity (at [] q false r) (at [] q true r)
    -- The loop of the runner ends with the channel.
    end :
        {signals : Signals} {d : D}
        → Step capacity
            (at [] [] true (receiving signals d))
            (at [] [] true (finished (returned none) d))

  -- `n` steps.
  pub data Steps (capacity : ℕ) : ℕ → System D → System D → Type 0 where
    done : {s : System D} → Steps capacity 0 s s
    more :
        {n : ℕ} {s s1 s2 : System D}
        → Step capacity s s1
        → Steps capacity n s1 s2
        → Steps capacity (suc n) s s2

-- The call of an operation.
abbrev pub start : {D : Type 0} → Signals → List Item → D → System D
start signals items d = at items [] false (receiving signals d)
