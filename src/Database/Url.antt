-- ===== src/Database/Url.antt =====
-- Package net/url as the database drivers use it, and util.go: `FilterCustomQuery`; strconv: `ParseBool`.
use migrate.Prelude.{
  ℕ, ◌+◌, ℤ, pos, neg_int, max_int, not, ◌&&◌, leb, ◌==◌, is_empty, Bool, true, false, ◌||◌, Bytes,
  Option, none, some, List, [], ◌∷◌, codes, is_prefix, if◌then◌else◌,
}
use migrate.Prelude.Map.{Map, get}
use migrate.Prelude.Decimal.{is_digit, digits_value}
use migrate.Errors.{Result, ok, err, out_of_range, no_match}
use migrate.Registry.{bytes_eq}

-- A parsed `*url.URL`: its path, its query and its text as a function of the query.
pub record ParsedUrl : Type 0 where
  pub path : Bytes
  pub query : Map Bytes (List Bytes)
  pub print : Map Bytes (List Bytes) → Bytes

abbrev first_value : Option (List Bytes) → Bytes
first_value none = []
first_value (some []) = []
first_value (some (v ∷ vs)) = v

-- `Query().Get(key)`.
unfoldable pub get_option : ParsedUrl → Bytes → Bytes
get_option url key = first_value (get key url.query)

abbrev keep_plain : Map Bytes (List Bytes) → Map Bytes (List Bytes)
keep_plain [] = []
keep_plain ((k, v) ∷ q) = if is_prefix (codes "x-") k then keep_plain q else (k, v) ∷ keep_plain q

-- `FilterCustomQuery(purl).String()`.
unfoldable pub filter_custom_query : ParsedUrl → ParsedUrl
filter_custom_query url = record url { query = keep_plain url.query }

abbrev pub url_text : ParsedUrl → Bytes
url_text url = url.print url.query

abbrev one_of : Bytes → List Bytes → Bool
one_of s [] = false
one_of s (t ∷ ts) = bytes_eq.beq s t || one_of s ts

abbrev truths : List Bytes
truths = codes "1" ∷ codes "t" ∷ codes "T" ∷ codes "TRUE" ∷ codes "true" ∷ codes "True" ∷ []

abbrev falsehoods : List Bytes
falsehoods = codes "0" ∷ codes "f" ∷ codes "F" ∷ codes "FALSE" ∷ codes "false" ∷ codes "False" ∷ []

-- `strconv.ParseBool`.
unfoldable pub parse_bool : Bytes → Option Bool
parse_bool s =
    if one_of s truths then some true else if one_of s falsehoods then some false else none

-- What opening a driver takes from packages net/url and database/sql.
pub record Opener (S : Type 0) : Type 0 where
  pub parse : Bytes → Result ParsedUrl
  pub sql_open : Bytes → Bytes → Result S

abbrev all_digits : Bytes → Bool
all_digits [] = true
all_digits (c ∷ s) = is_digit c && all_digits s

abbrev in_int : Bool → ℕ → Result ℤ
in_int negative n =
    if negative
    then if leb n (max_int + 1) then ok (neg_int (pos n)) else err out_of_range
    else if leb n max_int
    then ok (pos n)
    else err out_of_range

abbrev digits_int : Bool → Bytes → Result ℤ
digits_int negative ds =
    if is_empty ds || not (all_digits ds) then err no_match else in_int negative (digits_value 0 ds)

-- `strconv.Atoi`.
unfoldable pub atoi : Bytes → Result ℤ
unfolding neg_int digits_value
atoi [] = err no_match
atoi (c ∷ s) =
    if c == b'-'
    then digits_int true s
    else if c == b'+'
    then digits_int false s
    else digits_int false (c ∷ s)
