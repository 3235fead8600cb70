-- ===== src/Engine/Channel/Leak.antt =====
-- What becomes of the reader when `runMigrations` has ended before it.
use migrate.Prelude.{ℕ, ◌+◌, ◌≤◌, ◌<◌, ◌≡◌, some, [], ◌∷◌, length, length-append, arith}
use migrate.Database.Driver.{Driver}
use migrate.Engine.Run.{Outcome}
use migrate.Engine.Channel.{
  outcome_of, System, at, Step, put, hand, take, close, end, Steps, done, more,
}

module _ {D : Type 0} (db : Driver D) (capacity : ℕ) where
  -- `runMigrations` has ended, or waits for a call that does not return, with more items left than the channel holds.
  abbrev pub Stranded : System D → Type 0
  Stranded (at xs q b r) =
      (capacity < length xs + length q)
      × ((length q ≤ capacity) × ((o : Outcome) × ((d : D) × (outcome_of r ≡ some (o, d)))))

  -- The reader has still something to send.
  abbrev pub IsSending : System D → Type 0
  IsSending (at xs q b r) = 0 < length xs

  Stranded-IsSending : (s : System D) → Stranded s → IsSending s
  Stranded-IsSending (at xs q b r) (more_left, (held, over)) = omega arith

  Step-Stranded : (s s' : System D) → Step db capacity s s' → Stranded s → Stranded s'
  Step-Stranded _ _ (put {x} {xs} {q} {r} lt) (more_left, (held, over)) =
      (omega (arith, length-append q (x ∷ [])), (omega (arith, length-append q (x ∷ [])), over))
  Step-Stranded _ _ (hand {x} {xs} {signals} {d} {r} m) (more_left, (held, (o, (d', h)))) = cc
  Step-Stranded _ _ (take {x} {xs} {q} {b} {signals} {d} {r} m) (more_left, (held, (o, (d', h)))) =
      cc
  Step-Stranded _ _ (close {q} {r}) (more_left, (held, over)) = (more_left, (held, over))
  Step-Stranded _ _ end (more_left, (held, (o, (d', h)))) = cc

  -- When `runMigrations` has ended, or waits for a call that does not return, and the items that are left, in the channel and unsent, are more than the
  -- channel can hold, the reader never gets to its end: whatever steps follow, it has an item to send.
  pub Steps-IsSending :
      (n : ℕ) (s s' : System D) → Stranded s → Steps db capacity n s s' → IsSending s'
  Steps-IsSending _ _ s' stranded done = Stranded-IsSending s' stranded
  Steps-IsSending _ _ s' stranded (more {n} {s} {s1} step rest) =
      Steps-IsSending n s1 s' (Step-Stranded s s1 step stranded) rest
