-- ===== src/Cli/Limit.antt =====
-- The limit of the command `down`.
use migrate.Prelude.{
  ℕ, ◌≤◌, ◌≡◌, ◌≢◌, refl, pos, to_int, neg_int, max_int, max_uint, ltb_ℤ, true, false, Bytes, [],
  ◌∷◌, All, ltb, is_empty, arith, if◌then◌else◌,
}
use migrate.Prelude.Decimal.{decimal, is_digit, digits_value-decimal, decimal-is_digit, decimal-nil}
use migrate.Errors.{ok}
use migrate.Source.Parse.{parse_uint}
use migrate.Database.Driver.{Driver}
use migrate.Engine.Read.{Env}
use migrate.Engine.Operations.{Migrate, Schedule, down, steps}
use migrate.Cli.Commands.{
  all_digits, parse_number, num_down_migrations_from_args, down_cmd, unless_no_change,
}

pub All-digits : (s : Bytes) → All (λ c. is_digit c ≡ true) s → all_digits s ≡ true
All-digits [] h = refl
All-digits (c ∷ s) (h, hs) = rw (h, All-digits s hs) refl

not_empty : (s : Bytes) → s ≢ [] → is_empty s ≡ false
not_empty [] h = absurd (h refl)
not_empty (c ∷ s) h = refl

parse_number-decimal : (n : ℕ) → n ≤ max_uint → parse_number (decimal n) ≡ ok n
unfolding parse_number parse_uint
parse_number-decimal n le =
    rw
      (
        not_empty (decimal n) (decimal-nil n),
        All-digits (decimal n) (decimal-is_digit n),
        digits_value-decimal n,
      )
      (ground (arith, le))

module _ {D : Type 0} (env : Env) (db : Driver D) (schedule : Schedule) where
  sign : (n : ℕ) → ltb_ℤ (to_int n) (pos 0) ≡ ltb max_int n
  unfolding to_int
  sign n = ground arith

  -- For every number of 64 bits: `down n` asks for no confirmation, and runs n migrations if n is an int, that is
  -- below 2^63; from there on it runs all down migrations, since the limit becomes negative.
  pub down_cmd_lem :
      (n : ℕ) (m : Migrate D)
      → n ≤ max_uint
      → (num_down_migrations_from_args false (decimal n ∷ []) ≡ ok (to_int n, false))
        × (down_cmd env db schedule m (to_int n) ≡ (
            if ltb max_int n
            then unless_no_change env db schedule (down env db schedule m)
            else unless_no_change env db schedule (steps env db schedule (neg_int (to_int n)) m)))
  unfolding num_down_migrations_from_args down_cmd
  down_cmd_lem n m le = (rw (parse_number-decimal n le) refl, rw (sign n) refl)
