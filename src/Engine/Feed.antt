-- ===== src/Engine/Feed.antt =====
-- What the reading goroutine of migrate.go writes to its channel, and how it ends.
use migrate.Prelude.{ℕ, suc, ℤ, Bool, true, false, Option, none, some, List, [], ◌∷◌, if◌then◌else◌}
use migrate.Errors.{Error, Result, ok, err}
use migrate.Engine.Util.{suint}
use migrate.Engine.Migration.{Migration}

pub data Item : Type 0 where
  failure : Error → Item
  migration : Migration → Item

-- `closed`: the function returned and the channel was closed; `panicked`: `suint` panicked, which
-- ends the process; `unfinished`: the model ran out of fuel.
pub data Ending : Type 0 where
  closed panicked unfinished : Ending

pub record Feed : Type 0 where
  pub items : List Item
  pub ending : Ending

-- `return`, `ret <- err; return`, and `ret <- migr` before the rest.
abbrev pub finish : Feed
finish = record { items = []; ending = closed }

abbrev pub fail : Error → Feed
fail e = record { items = failure e ∷ []; ending = closed }

abbrev pub out_of_fuel : Feed
out_of_fuel = record { items = []; ending = unfinished }

abbrev pub send : Migration → Feed → Feed
send m rest = record { items = migration m ∷ rest.items; ending = rest.ending }

-- `if err != nil { ret <- err; return }`.
infixl 5 ◌>>=◌
abbrev pub ◌>>=◌ {ℓ} : {A : Type ℓ} → Result A → (A → Feed) → Feed
ok a >>= k = k a
err e >>= k = fail e

abbrev pub unless_error : Option Error → Feed → Feed
unless_error none k = k
unless_error (some e) k = fail e

abbrev checked : Option ℕ → (ℕ → Feed) → Feed
checked none k = record { items = []; ending = panicked }
checked (some n) k = k n

-- `f(suint(n))`.
abbrev pub with_suint : ℤ → (ℕ → Feed) → Feed
with_suint n k = checked (suint n) k

-- The stop signal at one call of `stop`: the flag that an earlier signal left, and whether a signal
-- waits on the GracefulStop channel.
pub record Signal : Type 0 where
  pub is_graceful_stop : Bool
  pub waiting : Bool

-- `stop`: the result, and the flag afterwards.
unfoldable pub stop : Signal → Bool × Bool
stop s =
    if s.is_graceful_stop then (true, true) else if s.waiting then (true, true) else (false, false)

abbrev pub stopped : Signal → Bool
stopped s = (stop s).0

-- The signals that the successive calls of one goroutine meet.
abbrev pub Signals : Type 0
Signals = ℕ → Signal

abbrev pub later : Signals → Signals
later s k = s (suc k)
