-- ===== src/Cli/Sequence.antt =====
-- The version of a new migration in a sequence.
use migrate.Prelude.{
  ap, sym, Option, none, some, [], ◌∷◌, ◌==◌, ◌+◌, ◌%◌, ◌^◌, leb, max_uint, false, ℕ, zero, suc,
  ◌-◌, ◌≤◌, ◌≡◌, refl, ◌∙◌, subst, inl, inr, pos, true, Bytes, List, ◌++◌, All, length,
  length-append, ltb, ltb→le, arith, Bool-cases,
}
use migrate.Prelude.Decimal.{
  decimal, is_digit, digits_value, digits_value-decimal, decimal-is_digit,
}
use migrate.Errors.{Result, ok, err, ◌>>=◌}
use mathlib.Core.List.{append_assoc, append-nil}
use migrate.Source.Parse.{parse_uint}
use migrate.Cli.Limit.{All-digits}
use migrate.Cli.Commands.{
  zeros, padded, fitting, slash, or_last, last_element, last_match, base, before_underscore,
  parse_number, number_after, next_number, next_seq_version,
}

-- A text of digits of the width `width` that has the value `n`.
pub record IsVersion (n width : ℕ) (v : Bytes) : Type 0 where
  pub wide : length v ≡ width
  pub digits : All (λ c. is_digit c ≡ true) v
  pub value : digits_value 0 v ≡ n

zeros-length : (k : ℕ) → length (zeros k) ≡ k
zeros-length zero = refl
zeros-length (suc k) = omega (arith, zeros-length k)

All-zeros :
    (k : ℕ) (s : Bytes)
    → All (λ c. is_digit c ≡ true) s
    → All (λ c. is_digit c ≡ true) (zeros k ++ s)
All-zeros zero s h = h
All-zeros (suc k) s h = (refl, All-zeros k s h)

zeros-value : (k : ℕ) (s : Bytes) → digits_value 0 (zeros k ++ s) ≡ digits_value 0 s
unfolding digits_value
zeros-value zero s = refl
zeros-value (suc k) s = zeros-value k s

padded-IsVersion :
    (n width : ℕ) → length (padded n width) ≤ width → IsVersion n width (padded n width)
unfolding padded
padded-IsVersion n width fits = record {
  wide = omega (
    arith,
    fits,
    length-append (zeros (width - length (decimal n))) (decimal n),
    zeros-length (width - length (decimal n)),
  );
  digits = All-zeros (width - length (decimal n)) (decimal n) (decimal-is_digit n);
  value = zeros-value (width - length (decimal n)) (decimal n) ∙ digits_value-decimal n;
}

fitting-IsVersion :
    (n width : ℕ) (v : Bytes) → fitting (padded n width) width ≡ ok v → IsVersion n width v
fitting-IsVersion n width v = elim (Bool-cases (ltb width (length (padded n width)))) [
  | inl h ↦ rw h λ e. cc
  | inr h ↦ rw h λ e.
      subst (IsVersion n width) (cc e)
        (padded-IsVersion n width (ltb→le width (length (padded n width)) h))
]

number-IsVersion :
    (r : Result ℕ) (width : ℕ) (v : Bytes)
    → (r >>= (λ n. fitting (padded n width) width)) ≡ ok v
    → (n : ℕ) × ((r ≡ ok n) × IsVersion n width v)
number-IsVersion (err e) width v h = cc
number-IsVersion (ok n) width v h = (n, (refl, fitting-IsVersion n width v h))

-- A file of a directory, or of none.
abbrev pub in_directory : Option Bytes → Bytes → Bytes
in_directory none name = name
in_directory (some dir) name = dir ++ slash ∷ name

-- The name of a migration file with the number `ds`.
abbrev pub numbered : Bytes → Bytes → Bytes
numbered ds rest = ds ++ b'_' ∷ rest

abbrev pub NoSlash : Bytes → Type 0
NoSlash s = All (λ c. (c == slash) ≡ false) s

last_element-name :
    (last current name : Bytes)
    → NoSlash name
    → last_element last current name ≡ or_last last (current ++ name)
last_element-name last current [] h = ap (or_last last) (sym (append-nil current))
last_element-name last current (c ∷ name) (h, hs) = rw h (
    last_element-name last (current ++ c ∷ []) name hs
    ∙ ap (or_last last) (append_assoc current (c ∷ []) name))

last_element-directory :
    (last current dir : Bytes) (c : ℕ) (name : Bytes)
    → NoSlash (c ∷ name)
    → last_element last current (dir ++ slash ∷ c ∷ name) ≡ c ∷ name
last_element-directory last current [] c name h =
    last_element-name (or_last last current) [] (c ∷ name) h
last_element-directory last current (b ∷ dir) c name h = elim (Bool-cases (b == slash)) [
  | inl e ↦ rw e (last_element-directory (or_last last current) [] dir c name h)
  | inr e ↦ rw e (last_element-directory last (current ++ b ∷ []) dir c name h)
]

base-name :
    (dir : Option Bytes) (c : ℕ) (name : Bytes)
    → NoSlash (c ∷ name)
    → base (in_directory dir (c ∷ name)) ≡ c ∷ name
unfolding base
base-name none c name h = ap (or_last (slash ∷ [])) (last_element-name [] [] (c ∷ name) h)
base-name (some []) c name h = ap (or_last (slash ∷ [])) (last_element-directory [] [] [] c name h)
base-name (some (b ∷ dir)) c name h =
    ap (or_last (slash ∷ [])) (last_element-directory [] [] (b ∷ dir) c name h)

digit-underscore : (c : ℕ) → is_digit c ≡ true → (c == b'_') ≡ false
digit-underscore c h = ground arith

digit-slash : (c : ℕ) → is_digit c ≡ true → (c == slash) ≡ false
digit-slash c h = ground arith

NoSlash-numbered :
    (ds rest : Bytes) → All (λ c. is_digit c ≡ true) ds → NoSlash rest → NoSlash (numbered ds rest)
NoSlash-numbered [] rest digits h = (refl, h)
NoSlash-numbered (c ∷ ds) rest (d, digits) h = (digit-slash c d, NoSlash-numbered ds rest digits h)

before_underscore-numbered :
    (ds rest : Bytes)
    → All (λ c. is_digit c ≡ true) ds
    → before_underscore (numbered ds rest) ≡ some ds
unfolding before_underscore
before_underscore-numbered [] rest digits = refl
before_underscore-numbered (c ∷ ds) rest (d, digits) =
    rw (digit-underscore c d, before_underscore-numbered ds rest digits) refl

last_match-snoc : (first m : Bytes) (ms : List Bytes) → last_match first (ms ++ m ∷ []) ≡ m
last_match-snoc first m [] = refl
last_match-snoc first m (n ∷ ms) = last_match-snoc n m ms

next_number-snoc :
    (ms : List Bytes) (m : Bytes)
    → next_number (ms ++ m ∷ []) ≡ number_after (before_underscore (base m))
unfolding next_number
next_number-snoc [] m = refl
next_number-snoc (n ∷ ms) m =
    ap (λ file. number_after (before_underscore (base file))) (last_match-snoc n m ms)

parse_number-digits :
    (c : ℕ) (ds : Bytes)
    → All (λ c. is_digit c ≡ true) (c ∷ ds)
    → parse_number (c ∷ ds) ≡ parse_uint (c ∷ ds)
unfolding parse_number
parse_number-digits c ds digits = rw (All-digits (c ∷ ds) digits) refl

number_after-digits :
    (c : ℕ) (ds : Bytes) (n : ℕ)
    → All (λ c. is_digit c ≡ true) (c ∷ ds)
    → number_after (some (c ∷ ds)) ≡ ok n
    → n ≡ (digits_value 0 (c ∷ ds) + 1) % 2 ^ 64
unfolding parse_uint
number_after-digits c ds n digits =
    rw (parse_number-digits c ds digits)
      (elim (Bool-cases (leb (digits_value 0 (c ∷ ds)) max_uint)) [
        | inl h ↦ rw h λ e. cc
        | inr h ↦ rw h λ e. cc
      ])

-- The number that follows those of the files: 1 without a file, and otherwise that of the last file and one, in 64
-- bits. The last file, in a directory or in none, has a name of digits, an underscore and a rest without a slash.
pub data Follows : List Bytes → ℕ → Type 0 where
  no_file : Follows [] 1
  after_last :
      (files : List Bytes) (dir : Option Bytes) (c : ℕ) (ds rest : Bytes)
      → All (λ c. is_digit c ≡ true) (c ∷ ds)
      → NoSlash rest
      → Follows
          (files ++ in_directory dir (numbered (c ∷ ds) rest) ∷ [])
          ((digits_value 0 (c ∷ ds) + 1) % 2 ^ 64)

-- If nextSeqVersion answers a version, it has exactly as many digits as asked for, and its value is the number that
-- follows that of the last file, whatever the files before it are, or 1 without a file (Follows).
pub next_seq_version-IsVersion :
    (matches : List Bytes) (n width : ℕ) (v : Bytes)
    → Follows matches n
    → next_seq_version matches (pos (suc width)) ≡ ok v
    → IsVersion n (suc width) v
unfolding next_seq_version next_number
next_seq_version-IsVersion _ _ width v no_file h = fitting-IsVersion 1 (suc width) v h
next_seq_version-IsVersion _ _ width v (after_last files dir c ds rest digits plain) h =
    let file = in_directory dir (numbered (c ∷ ds) rest) in
    let (n, (e, is_version)) =
      number-IsVersion (next_number (files ++ file ∷ [])) (suc width) v h in
    let named : before_underscore (base file) ≡ some (c ∷ ds) =
      ap before_underscore
        (base-name dir c (numbered ds rest) (NoSlash-numbered (c ∷ ds) rest digits plain))
      ∙ before_underscore-numbered (c ∷ ds) rest digits in
    subst (λ n. IsVersion n (suc width) v)
      (number_after-digits c ds n digits
        (ap number_after (sym named) ∙ sym (next_number-snoc files file) ∙ e))
      is_version
