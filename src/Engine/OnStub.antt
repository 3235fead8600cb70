-- ===== src/Engine/OnStub.antt =====
-- The operations of migrate.go on the in-memory database of database/stub: what running a list of
-- migrations comes to.
pub mod Runs
pub mod Locked
pub mod Plans
pub mod UpDown
pub mod Reached
pub mod Goto
pub mod GotoEdges
pub mod Short
pub mod Steps
pub mod Refused
pub mod Back
pub mod Recovery
pub mod Stuck
use migrate.Prelude.{
  ℕ, suc, ◌≡◌, ℤ, Bool, true, false, Bytes, Option, none, some, List, [], ◌∷◌, ◌++◌, if◌then◌else◌,
}
use migrate.Source.Driver.{Body}
use migrate.Database.Stub.{Stub}
use migrate.Engine.Migration.{Migration}
use migrate.Engine.Feed.{Signals, stopped, later}

-- The body can be read to its end.
abbrev pub IsReadable : Migration → Type 0
IsReadable m = elim m.body [ none ↦ Unit {0} | some body ↦ body.read_error ≡ none ]

-- What a migration adds to the sequence of what was run.
abbrev pub body_bytes : Option Body → List Bytes
body_bytes none = []
body_bytes (some body) = body.bytes ∷ []

abbrev pub last_bytes : Option Body → Bytes → Bytes
last_bytes none old = old
last_bytes (some body) old = body.bytes

-- The database after one migration: at its target, clean, its body run.
unfoldable pub ran : Migration → Stub → Stub
ran m st = record st {
  current_version = m.target_version;
  migration_sequence = st.migration_sequence ++ body_bytes m.body;
  last_run_migration = last_bytes m.body st.last_run_migration;
  is_dirty = false;
}

unfoldable pub ran_all : List Migration → Stub → Stub
ran_all [] st = st
ran_all (m ∷ ms) st = ran_all ms (ran m st)

-- No stop signal comes.
abbrev pub Quiet : Signals → Type 0
Quiet signals = (k : ℕ) → stopped (signals k) ≡ false
