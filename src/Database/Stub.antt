-- ===== src/Database/Stub.antt =====
-- database/stub/stub.go: the driver that keeps its database in memory.
use migrate.Prelude.{
  ℤ, minus_one, Bool, true, false, Bytes, Option, none, some, List, [], ◌∷◌, ◌++◌, if◌then◌else◌,
}
use migrate.Errors.{Error, database_locked, not_locked, Result, ok}
use migrate.Database.Driver.{Driver, Reader}

pub record Stub : Type 0 where
  pub url : Bytes
  pub current_version : ℤ
  pub migration_sequence : List Bytes
  pub last_run_migration : Bytes
  pub is_dirty : Bool
  pub is_locked : Bool

-- `Open` and `WithInstance`.
unfoldable pub open_stub : Bytes → Stub
open_stub url = record {
  url = url;
  current_version = minus_one;
  migration_sequence = [];
  last_run_migration = [];
  is_dirty = false;
  is_locked = false;
}

-- `s.isLocked.CAS(false, true)`.
unfoldable pub lock : Stub → Option Error × Stub
lock s = if s.is_locked then (some database_locked, s) else (none, record s { is_locked = true })

unfoldable pub unlock : Stub → Option Error × Stub
unlock s = if s.is_locked then (none, record s { is_locked = false }) else (some not_locked, s)

-- `ioutil.ReadAll` waits for the end of the reader.
unfoldable pub run : Reader → Stub → Option (Option Error × Stub)
run r s =
    if r.ended
    then some (
      none,
      record s {
        last_run_migration = r.bytes;
        migration_sequence = s.migration_sequence ++ r.bytes ∷ [];
      },
    )
    else none

unfoldable pub set_version : ℤ → Bool → Stub → Option Error × Stub
set_version version state s = (none, record s { current_version = version; is_dirty = state })

unfoldable pub version : Stub → Result (ℤ × Bool)
version s = ok (s.current_version, s.is_dirty)

-- "DROP"
abbrev pub drop_mark : Bytes
drop_mark = b'D' ∷ b'R' ∷ b'O' ∷ b'P' ∷ []

unfoldable pub drop : Stub → Option Error × Stub
drop s = (
  none,
  record s {
    current_version = minus_one;
    last_run_migration = [];
    migration_sequence = s.migration_sequence ++ drop_mark ∷ [];
  },
)

unfoldable pub close : Stub → Option Error × Stub
close s = (none, s)

unfoldable pub stub_driver : Driver Stub
unfolding lock unlock run set_version version drop close
stub_driver = record {
  lock = lock;
  unlock = unlock;
  run = run;
  set_version = set_version;
  version = version;
  drop = drop;
  close = close;
}
