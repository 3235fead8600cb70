-- ===== src/Examples.antt =====
-- A small source, a database and the calls on them, on which the tests and the examples of the
-- theorems run.
mod Index
mod Cockroach
mod Server
mod Channel
mod Postgres
mod Tools
mod Sqlite
mod Engine
mod Goto
mod Reads
mod Steps
mod Lock
mod Names
use migrate.Prelude.{
  ℕ, ◌+◌, ◌≡◌, refl, ℤ, pos, negsuc, minus_one, Bool, true, false, Bytes, Option, none, some, List,
  [], ◌∷◌,
}
use migrate.Errors.{Error}
use migrate.Source.Migration.{Migration, Direction}
use migrate.Source.Migrations.{Migrations, new_migrations, append}
use migrate.Source.Stub.{Stub, stub_source}
use migrate.Engine.Feed.{Signal, Signals}
use migrate.Engine.Read.{Env}
use migrate.Engine.Operations.{Schedule, answered}
use migrate.Database.Stub

-- The file of a version in a direction; the identifier is the version's digit.
abbrev pub file : ℕ → Direction → Migration
file v d = record { version = v; identifier = (b'0' + v) ∷ []; direction = d; raw = [] }

-- Version 3 has no down migration. The files come in no order.
pub three : Migrations
three =
    (append
      (append
        (append
          (append (append new_migrations (some (file 7 Direction.up))).0
            (some (file 1 Direction.up))).0
          (some (file 1 Direction.down))).0
        (some (file 3 Direction.up))).0
      (some (file 7 Direction.down))).0

abbrev pub source : Stub
source = record { url = []; migrations = three }

abbrev pub env : Env
env = record { source_drv = stub_source source; append_error = λ prev e. e }

abbrev pub no_signal : Signals
no_signal k = record { is_graceful_stop = false; waiting = false }

abbrev pub schedule : Schedule
schedule = record { race = answered; reading = no_signal; running = no_signal; fuel = 4 }

abbrev pub stub_at : ℤ → Stub.Stub
stub_at v = record {
  url = [];
  current_version = v;
  migration_sequence = [];
  last_run_migration = [];
  is_dirty = false;
  is_locked = false;
}
