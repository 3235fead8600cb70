-- ===== src/Engine/Plan.antt =====
-- What a source with a known list of versions answers, and the migrations that the readers of
-- migrate.go are to send for it, described with no reference to the driver's navigation.
pub mod Source
pub mod Backed
pub mod BackedFiles
pub mod Up
pub mod Descent
pub mod Down
pub mod GotoUp
pub mod GotoDown
pub mod Undo
pub mod Short
pub mod Limits
use migrate.Prelude.{
  ◌-◌, ◌++◌, ◌||◌, take, leb, length, ℕ, zero, suc, ◌+◌, ◌≤◌, ◌≡◌, refl, ◌⊎◌, ℤ, pos, negsuc,
  minus_one, max_int, eqb_ℤ, ltb_ℤ, Bool, true, false, ◌&&◌, Bytes, Option, none, some, List, [],
  ◌∷◌, ◌==◌, if◌then◌else◌, head?, map,
}
use migrate.Errors.{Error, not_exist, no_change, short_limit, is_not_exist, Result, ok, err}
use migrate.Source.Driver
use migrate.Source.Driver.{Body}
use migrate.Source.Sort.{In, Ascending}
use migrate.Source.Migrations.Order.{next_in, prev_in}
use migrate.Engine.Migration.{Migration}
use migrate.Engine.Migration
use migrate.Engine.Feed.{
  Feed, finish, send, Signals, stopped, later, Item, failure, migration, closed,
}
use migrate.Engine.ReadLimit.{within, reached_end, down_short}

-- An answer with the version, or with an error that is os.ErrNotExist.
abbrev pub Answers : Result ℕ → Option ℕ → Type 0
Answers (ok v) (some w) = v ≡ w
Answers (ok v) none = ⊥
Answers (err e) (some w) = ⊥
Answers (err e) none = is_not_exist e ≡ true

abbrev pub IsMissing : Result (Body × Bytes) → Type 0
IsMissing (ok r) = ⊥
IsMissing (err e) = is_not_exist e ≡ true

-- A body that closes without an error.
abbrev pub IsFound : Result (Body × Bytes) → Type 0
IsFound (ok (body, identifier)) = body.close_error ≡ none
IsFound (err e) = ⊥

-- The contract of source/driver.go for a source whose versions are `vs`: First, Next and Prev give
-- the neighbours in ascending order, or os.ErrNotExist; every version has an up or a down
-- migration; and what is missing is reported as os.ErrNotExist.
pub record Serves (drv : Driver.Driver) (vs : List ℕ) : Type 0 where
  pub ascending : Ascending vs
  pub small : (v : ℕ) → In v vs → v ≤ max_int
  pub first_is : Answers drv.first (head? vs)
  pub next_is : (v : ℕ) → Answers (drv.next v) (next_in v vs)
  pub prev_is : (v : ℕ) → Answers (drv.prev v) (prev_in v vs)
  pub up_is : (v : ℕ) → IsFound (drv.read_up v) ⊎ IsMissing (drv.read_up v)
  pub down_is : (v : ℕ) → IsFound (drv.read_down v) ⊎ IsMissing (drv.read_down v)
  pub held : (v : ℕ) → In v vs → IsFound (drv.read_up v) ⊎ IsFound (drv.read_down v)
  pub absent : (v : ℕ) → (¬ In v vs) → IsMissing (drv.read_up v) × IsMissing (drv.read_down v)

-- The migration made from what a read returns: empty if there is nothing to read.
abbrev pub planned : Result (Body × Bytes) → ℕ → ℤ → Migration
planned (ok (body, identifier)) v target = Migration.new_migration (some body) identifier v target
planned (err e) v target = Migration.new_migration none [] v target

abbrev pub up_plan : Driver.Driver → ℕ → Migration
up_plan drv v = planned (drv.read_up v) v (pos v)

abbrev pub down_plan : Driver.Driver → ℕ → ℤ → Migration
down_plan drv v target = planned (drv.read_down v) v target

-- The versions above the current one.
abbrev pub suffix_after : ℕ → List ℕ → List ℕ
suffix_after v [] = []
suffix_after v (x ∷ xs) = if x == v then xs else suffix_after v xs

abbrev pub above : ℤ → List ℕ → List ℕ
above (pos v) vs = suffix_after v vs
above (negsuc n) vs = vs

-- The rounds of readUp over the versions above the current one: one migration for each, until the
-- limit or a stop signal, and what the end of the source means if it comes first.
unfoldable pub up_rounds : Driver.Driver → ℤ → Signals → List ℕ → ℕ → Feed
up_rounds drv limit signals [] count =
    if within count limit
    then if stopped (signals 0) then finish else reached_end limit count not_exist
    else finish
up_rounds drv limit signals (w ∷ ws) count =
    if within count limit
    then if stopped (signals 0)
      then finish
      else send (up_plan drv w) (up_rounds drv limit (later signals) ws (count + 1))
    else finish

-- The way down from `v`: each version with the one that it goes down to, the nil version last.
abbrev pub descend : List (ℕ × ℤ) → ℤ → ℕ → List ℕ → List (ℕ × ℤ)
descend below target v [] = []
descend below target v (x ∷ xs) =
    if x == v then (x, target) ∷ below else descend ((x, target) ∷ below) (pos x) v xs

abbrev pub descent : ℕ → List ℕ → List (ℕ × ℤ)
descent v vs = descend [] minus_one v vs

-- The rounds of readDown over the way down.
unfoldable pub down_rounds : Driver.Driver → ℤ → Signals → List (ℕ × ℤ) → ℕ → Feed
down_rounds drv limit signals [] count = finish
down_rounds drv limit signals ((v, target) ∷ []) count =
    if within count limit
    then if stopped (signals 0)
      then finish
      else send (down_plan drv v target) (down_short limit (count + 1))
    else finish
down_rounds drv limit signals ((v, target) ∷ w ∷ ws) count =
    if within count limit
    then if stopped (signals 0)
      then finish
      else send (down_plan drv v target)
          (down_rounds drv limit (later signals) (w ∷ ws) (count + 1))
    else finish

abbrev pub up_plans : Driver.Driver → List ℕ → List Migration
up_plans drv [] = []
up_plans drv (v ∷ vs) = up_plan drv v ∷ up_plans drv vs

abbrev pub down_plans : Driver.Driver → List (ℕ × ℤ) → List Migration
down_plans drv [] = []
down_plans drv ((v, target) ∷ ps) = down_plan drv v target ∷ down_plans drv ps

-- A feed of migrations that ends with no error.
abbrev pub feed_of : List Migration → Feed
feed_of ms = record { items = map migration ms; ending = closed }

-- The migrations before the first stop signal.
unfoldable pub until_stop : Signals → List Migration → List Migration
until_stop signals [] = []
until_stop signals (m ∷ ms) = if stopped (signals 0) then [] else m ∷ until_stop (later signals) ms

-- What is returned if `k` of `n` migrations are there.
abbrev pub up_error : ℕ → ℕ → Option Error
up_error n k =
    if leb n k then none else if k == 0 then some not_exist else some (short_limit (n - k))

-- The way down always has a migration, so that the limit can only be missed.
abbrev pub down_error : ℕ → ℕ → Option Error
down_error n k = if leb n k then none else some (short_limit (n - k))

abbrev pub failures : Option Error → List Item
failures none = []
failures (some e) = failure e ∷ []

-- What is sent: migrations, and then an error or none.
abbrev pub ended_by : List Item → Option Error → Feed
ended_by items e = record { items = items ++ failures e; ending = closed }

-- What a limit leaves of the migrations: the first ones, or all with -1, which stands for no limit.
abbrev pub selected : {A : Type 0} → ℤ → List A → List A
selected (pos n) xs = take n xs
selected (negsuc zero) xs = xs
selected (negsuc (suc n)) xs = []

-- The error if `k` migrations are there: without a limit, that there is none.
abbrev pub up_missing : ℤ → ℕ → Option Error
up_missing (pos n) k = up_error n k
up_missing (negsuc zero) zero = some no_change
up_missing (negsuc zero) (suc k) = none
up_missing (negsuc (suc n)) k = none

abbrev pub down_missing : ℤ → ℕ → Option Error
down_missing (pos n) k = down_error n k
down_missing (negsuc n) k = none

-- A stop signal comes in one of the next `n` rounds.
unfoldable pub stops_within : Signals → ℕ → Bool
stops_within signals zero = false
stops_within signals (suc n) = stopped (signals 0) || stops_within (later signals) n

-- What readUp is to send for the versions above the current one: the migrations that the limit leaves, until a
-- stop signal, and then, if none came by the end of the source, what is missing.
unfoldable pub up_spec : Driver.Driver → ℤ → Signals → List ℕ → Feed
up_spec drv limit signals ws =
    ended_by (map migration (until_stop signals (up_plans drv (selected limit ws))))
      (if stops_within signals (suc (length ws)) then none else up_missing limit (length ws))

-- What readDown is to send for the way down.
unfoldable pub down_spec : Driver.Driver → ℤ → Signals → List (ℕ × ℤ) → Feed
down_spec drv limit signals ps =
    ended_by (map migration (until_stop signals (down_plans drv (selected limit ps))))
      (if stops_within signals (length ps) then none else down_missing limit (length ps))
