-- ===== src/Source/Parse/Names.antt =====
-- `Parse` of source/parse.go reads back the names that files are given.
use migrate.Prelude.{
  ℕ, ◌≤◌, ◌≡◌, ◌≢◌, refl, inl, inr, Bool, true, false, ◌&&◌, not, Bytes, none, some, [], ◌∷◌, ◌++◌,
  ◌==◌, leb, max_uint, All, arith, Bool-cases,
}
use migrate.Prelude.Decimal.{
  is_digit, digits_value, decimal, digits_value-decimal, decimal-is_digit, decimal-nil,
}
use migrate.Errors.{ok}
use migrate.Source.Migration.{Direction}
use migrate.Source.Parse.{
  one_line, newline, span_digits, strip_prefix, direction_part, match_tail, match_title, parse_uint,
  parse_matched, parse_rest, parse,
}

abbrev pub no_dot : Bytes → Bool
no_dot [] = true
no_dot (c ∷ cs) = not (c == b'.') && no_dot cs

span_digits-append :
    (ds : Bytes) (c : ℕ) (cs : Bytes)
    → All (λ d. is_digit d ≡ true) ds
    → is_digit c ≡ false
    → span_digits (ds ++ c ∷ cs) ≡ (ds, c ∷ cs)
unfolding span_digits
span_digits-append [] c cs a n = rw n refl
span_digits-append (d ∷ ds) c cs a n = rw (a.0, span_digits-append ds c cs a.1 n) refl

match_tail-found :
    (d : Direction) (ext : Bytes)
    → one_line ext ≡ true
    → match_tail (direction_part d ++ ext) ≡ some (d, ext)
unfolding match_tail
match_tail-found Direction.down ext h = rw h refl
match_tail-found Direction.up ext h = rw h refl

-- A text with no dot does not begin with one that has a dot.
strip_prefix-no_dot :
    (ps s : Bytes) → no_dot s ≡ true → no_dot ps ≡ false → strip_prefix ps s ≡ none
strip_prefix-no_dot [] s h n = cc
strip_prefix-no_dot (p ∷ ps) [] h n = refl
strip_prefix-no_dot (p ∷ ps) (c ∷ cs) h n = ground (arith, strip_prefix-no_dot ps cs)

match_tail-no_dot : (c : ℕ) (s : Bytes) → no_dot s ≡ true → match_tail (c ∷ s) ≡ none
unfolding match_tail
match_tail-no_dot c s h =
    rw
      (
        strip_prefix-no_dot (b'd' ∷ b'o' ∷ b'w' ∷ b'n' ∷ b'.' ∷ []) s h refl,
        strip_prefix-no_dot (b'u' ∷ b'p' ∷ b'.' ∷ []) s h refl,
      )
      (elim (Bool-cases (b'.' == c)) [ inl e ↦ rw e refl | inr e ↦ rw e refl ])

match_title-no_dot : (s : Bytes) → no_dot s ≡ true → match_title s ≡ none
unfolding match_title
match_title-no_dot [] h = refl
match_title-no_dot (c ∷ s) h =
    let t : no_dot s ≡ true = ground arith in
    rw (match_title-no_dot s t, match_tail-no_dot c s t)
      (elim (Bool-cases (c == newline)) [ inl e ↦ rw e refl | inr e ↦ rw e refl ])

match_title-dot : (c : ℕ) (s : Bytes) → no_dot s ≡ true → match_title (c ∷ s) ≡ none
unfolding match_title
match_title-dot c s h =
    rw (match_title-no_dot s h, match_tail-no_dot c s h)
      (elim (Bool-cases (c == newline)) [ inl e ↦ rw e refl | inr e ↦ rw e refl ])

-- The last direction of a name is the one that is taken.
match_title-last :
    (d : Direction) (ext : Bytes)
    → one_line ext ≡ true
    → no_dot ext ≡ true
    → match_title (direction_part d ++ ext) ≡ some ([], (d, ext))
unfolding match_title match_tail
match_title-last Direction.down ext l n = rw (match_title-dot b'.' ext n) (rw l refl)
match_title-last Direction.up ext l n = rw (match_title-dot b'.' ext n) (rw l refl)

match_title-append :
    (title s : Bytes) (r : Direction × Bytes)
    → one_line title ≡ true
    → match_title s ≡ some ([], r)
    → match_title (title ++ s) ≡ some (title, r)
unfolding match_title
match_title-append [] s r l e = e
match_title-append (c ∷ cs) s r l e =
    let t : one_line cs ≡ true = ground arith in
    let h : (c == newline) ≡ false = ground arith in rw (h, match_title-append cs s r t e) refl

parse_rest-found :
    (raw ds rest title : Bytes) (d : Direction) (ext : Bytes) (v : ℕ)
    → ds ≢ []
    → digits_value 0 ds ≡ v
    → v ≤ max_uint
    → match_title rest ≡ some (title, (d, ext))
    → parse_rest raw ds (b'_' ∷ rest)
      ≡ ok (record { version = v; identifier = title; direction = d; raw = raw })
unfolding parse_rest parse_matched parse_uint
parse_rest-found raw [] rest title d ext v n e le h = absurd (n refl)
parse_rest-found raw (c ∷ cs) rest title d ext v n e le h =
    let fits : leb v max_uint ≡ true = ground arith in rw (h, e, fits) refl

-- A name of a version that fits into a uint, a title of one line, a direction and an extension of
-- one line with no dot, joined as `<version>_<title>.<direction>.<extension>`, parses to these.
pub parse-name :
    (v : ℕ) (title : Bytes) (d : Direction) (ext : Bytes)
    → v ≤ max_uint
    → one_line title ≡ true
    → one_line ext ≡ true
    → no_dot ext ≡ true
    → parse (decimal v ++ b'_' ∷ (title ++ (direction_part d ++ ext)))
      ≡ ok (record {
        version = v;
        identifier = title;
        direction = d;
        raw = decimal v ++ b'_' ∷ (title ++ (direction_part d ++ ext));
      })
unfolding parse
parse-name v title d ext le t x n =
    rw
      (span_digits-append (decimal v) b'_' (title ++ (direction_part d ++ ext)) (decimal-is_digit v)
        refl)
      (parse_rest-found _ (decimal v) (title ++ (direction_part d ++ ext)) title d ext v
        (decimal-nil v) (digits_value-decimal v) le
        (match_title-append title (direction_part d ++ ext) (d, ext) t
          (match_title-last d ext x n)))
