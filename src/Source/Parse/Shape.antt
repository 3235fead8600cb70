-- ===== src/Source/Parse/Shape.antt =====
-- `Parse` of source/parse.go accepts only names of its pattern.
use migrate.Prelude.{
  ℕ, ◌≤◌, ◌≡◌, ◌≢◌, refl, ap, ◌∙◌, subst, ◌⊎◌, inl, inr, true, Bytes, Option, none, some, [], ◌∷◌,
  ◌++◌, ◌==◌, leb, max_uint, All, arith, Bool-cases, ==_iff,
}
use migrate.Prelude.Decimal.{is_digit, digits_value}
use migrate.Errors.{no_match, out_of_range, Result, ok, err}
use migrate.Source.Migration.{Direction, Migration}
use migrate.Source.Parse.{
  one_line, newline, span_digits, strip_prefix, direction_part, match_tail, match_title, parse_uint,
  parse_matched, parse_rest, parse, extension, first_some, no_title, longer_title,
}

-- `<digits>_<title>.<direction>.<extension>`, the digits a version that fits into a uint.
pub record IsName (raw : Bytes) (m : Migration) : Type 0 where
  pub digits : Bytes
  pub ext : Bytes
  pub whole : raw ≡ digits ++ b'_' ∷ (m.identifier ++ (direction_part m.direction ++ ext))
  pub all_digits : All (λ d. is_digit d ≡ true) digits
  pub filled : digits ≢ []
  pub value : digits_value 0 digits ≡ m.version
  pub bound : m.version ≤ max_uint
  pub kept : m.raw ≡ raw

span_digits-whole : (s : Bytes) → s ≡ (span_digits s).0 ++ (span_digits s).1
unfolding span_digits
span_digits-whole [] = refl
span_digits-whole (c ∷ cs) = elim (Bool-cases (is_digit c)) [
  | inl h ↦ rw h (ap (λ s. c ∷ s) (span_digits-whole cs))
  | inr h ↦ rw h refl
]

span_digits-is_digit : (s : Bytes) → All (λ d. is_digit d ≡ true) (span_digits s).0
unfolding span_digits
span_digits-is_digit [] = tt
span_digits-is_digit (c ∷ cs) = elim (Bool-cases (is_digit c)) [
  | inl h ↦ rw h (h, span_digits-is_digit cs)
  | inr h ↦ rw h tt
]

strip_prefix-some : (ps s t : Bytes) → strip_prefix ps s ≡ some t → s ≡ ps ++ t
strip_prefix-some [] s t e = cc
strip_prefix-some (p ∷ ps) [] t e = cc
strip_prefix-some (p ∷ ps) (c ∷ cs) t e = elim (Bool-cases (p == c)) [
  | inl h ↦
      let eq : p ≡ c = (==_iff p c).0 h in
      let rest : cs ≡ ps ++ t = strip_prefix-some ps cs t (rw h at e) in rw (eq, rest) refl
  | inr h ↦ let no : none ≡ some t = rw h at e in cc
]

extension-some :
    (d d' : Direction) (o : Option Bytes) (ext : Bytes)
    → extension d o ≡ some (d', ext)
    → (d ≡ d') × (o ≡ some ext)
extension-some d d' none ext e = cc
extension-some d d' (some x) ext e = elim (Bool-cases (one_line x)) [
  | inl h ↦
      let y : ◌≡◌ {A = Option (Direction × Bytes)} (some (d, x)) (some (d', ext)) = rw h at e in
      (cc, cc)
  | inr h ↦ let no : ◌≡◌ {A = Option (Direction × Bytes)} none (some (d', ext)) = rw h at e in cc
]

first_some-cases :
    {A : Type 0} (o p : Option A) (a : A) → first_some o p ≡ some a → (o ≡ some a) ⊎ (p ≡ some a)
first_some-cases none p a e = inr e
first_some-cases (some b) p a e = inl e

match_tail-some :
    (s : Bytes) (d : Direction) (ext : Bytes)
    → match_tail s ≡ some (d, ext)
    → s ≡ direction_part d ++ ext
unfolding match_tail
match_tail-some s d ext e = elim (first_some-cases _ _ (d, ext) e) [
  | inl h ↦
      let (eq, st) = extension-some Direction.down d _ ext h in
      rw⁻¹ eq (strip_prefix-some (direction_part Direction.down) s ext st)
  | inr h ↦
      let (eq, st) = extension-some Direction.up d _ ext h in
      rw⁻¹ eq (strip_prefix-some (direction_part Direction.up) s ext st)
]

no_title-some :
    (o : Option (Direction × Bytes)) (title : Bytes) (r : Direction × Bytes)
    → no_title o ≡ some (title, r)
    → (title ≡ []) × (o ≡ some r)
no_title-some none title r e = cc
no_title-some (some x) title r e = (cc, cc)

longer_title-some :
    (c : ℕ) (o : Option (Bytes × (Direction × Bytes))) (title : Bytes) (r : Direction × Bytes)
    → longer_title c o ≡ some (title, r)
    → (rest : Bytes) × (title ≡ c ∷ rest) × (o ≡ some (rest, r))
longer_title-some c none title r e = cc
longer_title-some c (some (t, x)) title r e = (t, cc, cc)

match_title-some :
    (s title : Bytes) (d : Direction) (ext : Bytes)
    → match_title s ≡ some (title, (d, ext))
    → s ≡ title ++ (direction_part d ++ ext)
unfolding match_title
match_title-some [] title d ext e = cc
match_title-some (c ∷ cs) title d ext e =
    let here : no_title (match_tail (c ∷ cs)) ≡ some (title, (d, ext))
        → c ∷ cs ≡ title ++ (direction_part d ++ ext) =
      λ h.
        let (eq, st) = no_title-some _ title (d, ext) h in
        rw eq (match_tail-some (c ∷ cs) d ext st) in
    elim (Bool-cases (c == newline)) [
      | inl h ↦ here (rw h at e)
      | inr h ↦ elim (first_some-cases _ _ _ (rw h at e)) [
        | inl l ↦
            let (rest, eq, st) = longer_title-some c _ title (d, ext) l in
            rw eq (ap (λ s. c ∷ s) (match_title-some cs rest d ext st))
        | inr l ↦ here l
      ]
    ]

parse_matched-IsName :
    (raw ds rest : Bytes) (o : Option (Bytes × (Direction × Bytes))) (m : Migration)
    → raw ≡ ds ++ b'_' ∷ rest
    → All (λ d. is_digit d ≡ true) ds
    → ds ≢ []
    → match_title rest ≡ o
    → parse_matched raw ds o ≡ ok m
    → IsName raw m
unfolding parse_matched parse_uint
parse_matched-IsName raw ds rest none m w a n t e = cc
parse_matched-IsName raw ds rest (some (title, (d, ext))) m w a n t e =
    elim (Bool-cases (leb (digits_value 0 ds) max_uint)) [
      | inl h ↦
          let made : Migration = record {
            version = digits_value 0 ds;
            identifier = title;
            direction = d;
            raw = raw;
          } in
          let same : ◌≡◌ {A = Result Migration} (ok made) (ok m) = rw h at e in
          let eq : made ≡ m = cc in
          subst (IsName raw) eq (record {
            digits = ds;
            ext = ext;
            whole = w ∙ ap (λ r. ds ++ b'_' ∷ r) (match_title-some rest title d ext t);
            all_digits = a;
            filled = n;
            value = refl;
            bound = ground arith;
            kept = refl;
          })
      | inr h ↦ let no : ◌≡◌ {A = Result Migration} (err out_of_range) (ok m) = rw h at e in cc
    ]

parse_rest-IsName :
    (raw ds rest : Bytes) (m : Migration)
    → raw ≡ ds ++ rest
    → All (λ d. is_digit d ≡ true) ds
    → parse_rest raw ds rest ≡ ok m
    → IsName raw m
unfolding parse_rest
parse_rest-IsName raw [] rest m w a e = cc
parse_rest-IsName raw (d ∷ ds) [] m w a e = cc
parse_rest-IsName raw (d ∷ ds) (c ∷ rest) m w a e = elim (Bool-cases (c == b'_')) [
  | inl h ↦
      let eq : c ≡ b'_' = (==_iff c b'_').0 h in
      parse_matched-IsName raw (d ∷ ds) rest (match_title rest) m (rw eq at w) a (λ x. cc) refl
        (rw h at e)
  | inr h ↦ let no : ◌≡◌ {A = Result Migration} (err no_match) (ok m) = rw h at e in cc
]

-- What Parse accepts has the form `<digits>_<title>.<down|up>.<extension>`, and the migration
-- carries the number of the digits, which fits into a uint, the title, the direction and the name.
pub parse-IsName : (raw : Bytes) (m : Migration) → parse raw ≡ ok m → IsName raw m
unfolding parse
parse-IsName raw m e =
    parse_rest-IsName raw (span_digits raw).0 (span_digits raw).1 m (span_digits-whole raw)
      (span_digits-is_digit raw) e
