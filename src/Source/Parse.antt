-- ===== src/Source/Parse.antt =====
-- source/parse.go: the version, title and direction in the name of a migration file.
pub mod Names
pub mod Shape
use migrate.Prelude.{
  ℕ, ◌+◌, ◌*◌, ◌-◌, Bool, true, false, ◌&&◌, not, Bytes, Option, none, some, List, [], ◌∷◌, ◌++◌,
  ◌==◌, leb, if◌then◌else◌, max_uint,
}
use migrate.Prelude.Decimal.{is_digit, digits_value}
use migrate.Errors.{no_match, out_of_range, Result, ok, err, ◌>>=◌}
use migrate.Source.Migration.{Direction, Migration}

-- The byte 10, which `.` does not match.
abbrev pub newline : ℕ
newline = 10

abbrev pub one_line : Bytes → Bool
one_line [] = true
one_line (c ∷ cs) = not (c == newline) && one_line cs

-- `([0-9]+)`: what follows is no digit, so that the longest run is the only one that matches.
unfoldable pub span_digits : Bytes → Bytes × Bytes
span_digits [] = ([], [])
span_digits (c ∷ cs) =
    let (ds, rest) = span_digits cs in if is_digit c then (c ∷ ds, rest) else ([], c ∷ cs)

abbrev pub strip_prefix : Bytes → Bytes → Option Bytes
strip_prefix [] s = some s
strip_prefix (p ∷ ps) [] = none
strip_prefix (p ∷ ps) (c ∷ cs) = if p == c then strip_prefix ps cs else none

-- `\.(down|up)\.`
abbrev pub direction_part : Direction → Bytes
direction_part Direction.down = b'.' ∷ b'd' ∷ b'o' ∷ b'w' ∷ b'n' ∷ b'.' ∷ []
direction_part Direction.up = b'.' ∷ b'u' ∷ b'p' ∷ b'.' ∷ []

-- `(.*)$` after a direction.
abbrev extension : Direction → Option Bytes → Option (Direction × Bytes)
extension d none = none
extension d (some ext) = if one_line ext then some (d, ext) else none

abbrev first_some {ℓ} : {A : Type ℓ} → Option A → Option A → Option A
first_some none o = o
first_some (some a) o = some a

-- `\.(down|up)\.(.*)$`
unfoldable pub match_tail : Bytes → Option (Direction × Bytes)
match_tail s =
    first_some (extension Direction.down (strip_prefix (direction_part Direction.down) s))
      (extension Direction.up (strip_prefix (direction_part Direction.up) s))

abbrev pub no_title : Option (Direction × Bytes) → Option (Bytes × (Direction × Bytes))
no_title none = none
no_title (some r) = some ([], r)

abbrev pub longer_title :
    ℕ → Option (Bytes × (Direction × Bytes)) → Option (Bytes × (Direction × Bytes))
longer_title c none = none
longer_title c (some (title, r)) = some (c ∷ title, r)

-- `(.*)\.(down|up)\.(.*)$`: the first `.*` takes as much as it can.
unfoldable pub match_title : Bytes → Option (Bytes × (Direction × Bytes))
unfolding match_tail
match_title [] = none
match_title (c ∷ cs) =
    let longer = match_title cs in
    if c == newline
    then no_title (match_tail (c ∷ cs))
    else first_some (longer_title c longer) (no_title (match_tail (c ∷ cs)))

-- `strconv.ParseUint(s, 10, 64)` on digits.
unfoldable pub parse_uint : Bytes → Result ℕ
unfolding digits_value
parse_uint ds =
    if leb (digits_value 0 ds) max_uint then ok (digits_value 0 ds) else err out_of_range

unfoldable pub parse_matched :
    Bytes → Bytes → Option (Bytes × (Direction × Bytes)) → Result Migration
unfolding parse_uint
parse_matched raw ds none = err no_match
parse_matched raw ds (some (title, (d, ext))) =
    parse_uint ds >>= λ v. ok (record { version = v; identifier = title; direction = d; raw = raw })

unfoldable pub parse_rest : Bytes → Bytes → Bytes → Result Migration
unfolding parse_matched match_title
parse_rest raw [] rest = err no_match
parse_rest raw (d ∷ ds) [] = err no_match
parse_rest raw (d ∷ ds) (c ∷ rest) =
    if c == b'_' then parse_matched raw (d ∷ ds) (match_title rest) else err no_match

-- `Parse`.
unfoldable pub parse : Bytes → Result Migration
unfolding parse_rest span_digits
parse raw = let (ds, rest) = span_digits raw in parse_rest raw ds rest
