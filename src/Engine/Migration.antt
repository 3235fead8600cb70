-- ===== src/Engine/Migration.antt =====
-- migration.go: a migration that is scheduled, and the buffering of its body. Times serve the log
-- only and are left out.
use migrate.Prelude.{
  ℕ, ℤ, to_int, ltb_ℤ, true, false, Bytes, Option, none, some, [], ◌∷◌, ltb, ◌==◌, if◌then◌else◌,
  length,
}
use migrate.Errors.{Error}
use migrate.Source.Driver.{Body}
use migrate.Database.Driver.{Reader}

pub record Migration : Type 0 where
  pub identifier : Bytes
  pub version : ℕ
  pub target_version : ℤ
  pub body : Option Body
  pub buffer_size : ℕ

abbrev pub default_buffer_size : ℕ
default_buffer_size = 100000

-- "<empty>"
abbrev pub empty_identifier : Bytes
empty_identifier = b'<' ∷ b'e' ∷ b'm' ∷ b'p' ∷ b't' ∷ b'y' ∷ b'>' ∷ []

-- `NewMigration`, whose error is always nil.
unfoldable pub new_migration : Option Body → Bytes → ℕ → ℤ → Migration
new_migration none identifier version target_version = record {
  identifier = if length identifier == 0 then empty_identifier else identifier;
  version = version;
  target_version = target_version;
  body = none;
  buffer_size = 0;
}
new_migration (some body) identifier version target_version = record {
  identifier = identifier;
  version = version;
  target_version = target_version;
  body = some body;
  buffer_size = default_buffer_size;
}

-- The letter of `LogString`: "u" or "d".
unfoldable pub direction_letter : Migration → ℕ
direction_letter m = if ltb_ℤ m.target_version (to_int m.version) then b'd' else b'u'

-- What a call of `Buffer` comes to: what the reading end of the pipe, `BufferedBody`, yields, the
-- count of bytes, and the error that is logged.
pub record Buffered : Type 0 where
  pub reader : Reader
  pub bytes_read : ℕ
  pub error : Option Error

-- Once the first `BufferSize` bytes are there, the body is written to the pipe; a read error later
-- on stops this before the pipe is closed.
unfoldable pub write_to : Body → Buffered
write_to body = elim body.read_error [
  | some e ↦ record {
    reader = record { bytes = body.bytes; ended = false };
    bytes_read = 0;
    error = some e;
  }
  | none ↦ record {
    reader = record { bytes = body.bytes; ended = true };
    bytes_read = length body.bytes;
    error = body.close_error;
  }
]

-- An error of `Peek` other than the end of the body returns at once.
unfoldable pub peek_and_write : ℕ → Body → Buffered
unfolding write_to
peek_and_write buffer_size body = elim body.read_error [
  | none ↦ write_to body
  | some e ↦
      if ltb (length body.bytes) buffer_size
      then record { reader = record { bytes = []; ended = false }; bytes_read = 0; error = some e }
      else write_to body
]

-- `Buffer`. With no body there is no pipe either.
unfoldable pub buffer : Migration → Buffered
unfolding peek_and_write
buffer m = elim m.body [
  | none ↦ record { reader = record { bytes = []; ended = false }; bytes_read = 0; error = none }
  | some body ↦ peek_and_write m.buffer_size body
]
