-- ===== src/Cli/Commands.antt =====
-- internal/cli/commands.go: the commands, over the operations of a Migrate, and the arguments they take.
use migrate.Prelude.{
  ℕ, zero, suc, ◌+◌, ◌-◌, ◌%◌, ◌^◌, ℤ, pos, negsuc, minus_one, to_int, neg_int, ltb_ℤ, Bool, true,
  false, not, ◌&&◌, ◌||◌, Bytes, Option, none, some, List, [], ◌∷◌, ◌++◌, ltb, ◌==◌, length,
  is_empty, if◌then◌else◌,
}
use migrate.Prelude.Decimal.{decimal, is_digit}
use migrate.Errors.{
  no_change, bad_number, bad_width, bad_name, too_large, bad_arguments, Result, ok, err, ◌>>=◌,
}
use migrate.Source.Parse.{parse_uint}
use migrate.Database.Driver.{Driver}
use migrate.Engine.Read.{Env}
use migrate.Engine.Run.{Outcome, returned}
use migrate.Engine.Operations.{Migrate, Schedule, migrate_to, steps, up, down, drop, force}

abbrev pub all_digits : Bytes → Bool
all_digits [] = true
all_digits (c ∷ s) = is_digit c && all_digits s

-- `strconv.ParseUint(s, 10, 64)`.
unfoldable pub parse_number : Bytes → Result ℕ
unfolding parse_uint
parse_number s = if is_empty s || not (all_digits s) then err bad_number else parse_uint s

abbrev pub slash : ℕ
slash = b'/'

abbrev pub or_last : Bytes → Bytes → Bytes
or_last last current = if is_empty current then last else current

-- The last element that is not empty of a path that is cut at its slashes.
abbrev pub last_element : Bytes → Bytes → Bytes → Bytes
last_element last current [] = or_last last current
last_element last current (c ∷ path) =
    if c == slash
    then last_element (or_last last current) [] path
    else last_element last (current ++ c ∷ []) path

-- `filepath.Base`.
unfoldable pub base : Bytes → Bytes
base [] = b'.' ∷ []
base (c ∷ path) = or_last (slash ∷ []) (last_element [] [] (c ∷ path))

abbrev prepend : ℕ → Option Bytes → Option Bytes
prepend c none = none
prepend c (some s) = some (c ∷ s)

-- `s[0:strings.Index(s, "_")]`.
unfoldable pub before_underscore : Bytes → Option Bytes
before_underscore [] = none
before_underscore (c ∷ s) =
    let rest = before_underscore s in if c == b'_' then some [] else prepend c rest

-- What `nextSeq` becomes: the number that the name starts with, and one, in 64 bits.
abbrev pub number_after : Option Bytes → Result ℕ
number_after none = err bad_name
number_after (some []) = err bad_name
number_after (some (c ∷ s)) = parse_number (c ∷ s) >>= (λ n. ok ((n + 1) % 2 ^ 64))

abbrev pub last_match : Bytes → List Bytes → Bytes
last_match first [] = first
last_match first (m ∷ matches) = last_match m matches

unfoldable pub next_number : List Bytes → Result ℕ
unfolding parse_number base before_underscore
next_number [] = ok 1
next_number (m ∷ matches) = number_after (before_underscore (base (last_match m matches)))

abbrev pub zeros : ℕ → Bytes
zeros zero = []
zeros (suc n) = b'0' ∷ zeros n

-- `fmt.Sprintf("%0[2]*[1]d", n, width)`.
unfoldable pub padded : ℕ → ℕ → Bytes
padded n width = zeros (width - length (decimal n)) ++ decimal n

abbrev pub fitting : Bytes → ℕ → Result Bytes
fitting version width = if ltb width (length version) then err (too_large version) else ok version

-- `nextSeqVersion`.
unfoldable pub next_seq_version : List Bytes → ℤ → Result Bytes
unfolding next_number padded
next_seq_version matches (pos zero) = err bad_width
next_seq_version matches (negsuc n) = err bad_width
next_seq_version matches (pos (suc width)) =
    next_number matches >>= (λ n. fitting (padded n (suc width)) (suc width))

abbrev limit_of : Result ℕ → Result (ℤ × Bool)
limit_of (err e) = err bad_arguments
limit_of (ok n) = ok (to_int n, false)

-- `numDownMigrationsFromArgs`: the limit, and whether the user is to confirm.
unfoldable pub num_down_migrations_from_args : Bool → List Bytes → Result (ℤ × Bool)
unfolding parse_number
num_down_migrations_from_args true [] = ok (minus_one, false)
num_down_migrations_from_args true (a ∷ args) = err bad_arguments
num_down_migrations_from_args false [] = ok (minus_one, true)
num_down_migrations_from_args false (a ∷ []) = limit_of (parse_number a)
num_down_migrations_from_args false (a ∷ (b ∷ args)) = err bad_arguments

module _ {D : Type 0} (env : Env) (db : Driver D) (schedule : Schedule) where
  -- ErrNoChange is logged, and is no error of a command.
  abbrev pub unless_no_change : Outcome × Migrate D → Outcome × Migrate D
  unless_no_change (returned (some no_change), m) = (returned none, m)
  unless_no_change r = r

  unfoldable pub goto_cmd : Migrate D → ℕ → Outcome × Migrate D
  goto_cmd m v = unless_no_change (migrate_to env db schedule v m)

  unfoldable pub up_cmd : Migrate D → ℤ → Outcome × Migrate D
  up_cmd m limit =
      if ltb_ℤ limit (pos 0)
      then unless_no_change (up env db schedule m)
      else unless_no_change (steps env db schedule limit m)

  unfoldable pub down_cmd : Migrate D → ℤ → Outcome × Migrate D
  unfolding neg_int
  down_cmd m limit =
      if ltb_ℤ limit (pos 0)
      then unless_no_change (down env db schedule m)
      else unless_no_change (steps env db schedule (neg_int limit) m)

  unfoldable pub drop_cmd : Migrate D → Outcome × Migrate D
  drop_cmd m = drop env db schedule.race m

  unfoldable pub force_cmd : Migrate D → ℤ → Outcome × Migrate D
  force_cmd m v = force env db schedule.race v m
