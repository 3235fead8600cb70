-- ===== src/Source/Stub.antt =====
-- source/stub/stub.go: the source that keeps its migrations in memory, with their identifiers as
-- bodies.
use migrate.Prelude.{ℕ, Bytes, Option, none, some, [], ◌∷◌, ◌++◌}
use migrate.Prelude.Decimal.{decimal}
use migrate.Errors.{not_exist, path_error, Result, ok, err}
use migrate.Source.Migration.{Migration}
use migrate.Source.Migrations.{Migrations, new_migrations}
use migrate.Source.Migrations
use migrate.Source.Driver.{Driver, Body}

pub record Stub : Type 0 where
  pub url : Bytes
  pub migrations : Migrations

-- `Open` and `WithInstance`.
unfoldable pub open_stub : Bytes → Stub
unfolding new_migrations
open_stub url = record { url = url; migrations = new_migrations }

-- `v, ok := ...; if !ok { return 0, &os.PathError{..., Err: os.ErrNotExist} }`.
abbrev pub or_path_error {ℓ} : {A : Type ℓ} → Option A → Result A
or_path_error none = err (path_error not_exist)
or_path_error (some a) = ok a

unfoldable pub first : Stub → Result ℕ
first s = or_path_error (Migrations.first s.migrations)

unfoldable pub prev : Stub → ℕ → Result ℕ
prev s version = or_path_error (Migrations.prev s.migrations version)

unfoldable pub next : Stub → ℕ → Result ℕ
next s version = or_path_error (Migrations.next s.migrations version)

-- `ioutil.NopCloser(bytes.NewBufferString(m.Identifier))`.
abbrev pub nop_closer : Bytes → Body
nop_closer bytes = record { bytes = bytes; read_error = none; close_error = none }

-- "%v.up.stub" and "%v.down.stub"
abbrev pub up_suffix : Bytes
up_suffix = b'.' ∷ b'u' ∷ b'p' ∷ b'.' ∷ b's' ∷ b't' ∷ b'u' ∷ b'b' ∷ []

abbrev pub down_suffix : Bytes
down_suffix = b'.' ∷ b'd' ∷ b'o' ∷ b'w' ∷ b'n' ∷ b'.' ∷ b's' ∷ b't' ∷ b'u' ∷ b'b' ∷ []

abbrev pub read_found : Bytes → Option Migration → Result (Body × Bytes)
read_found identifier none = err (path_error not_exist)
read_found identifier (some m) = ok (nop_closer m.identifier, identifier)

unfoldable pub read_up : Stub → ℕ → Result (Body × Bytes)
read_up s version = read_found (decimal version ++ up_suffix) (Migrations.up s.migrations version)

unfoldable pub read_down : Stub → ℕ → Result (Body × Bytes)
read_down s version =
    read_found (decimal version ++ down_suffix) (Migrations.down s.migrations version)

unfoldable pub stub_source : Stub → Driver
unfolding first prev next read_up read_down
stub_source s = record {
  first = first s;
  prev = prev s;
  next = next s;
  read_up = read_up s;
  read_down = read_down s;
  close = none;
}
