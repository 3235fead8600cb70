-- ===== src/Url.antt =====
-- internal/url/url.go: the scheme of a URL.
use migrate.Prelude.{
  ℕ, zero, suc, ◌≡◌, ◌≢◌, refl, ap, inl, inr, Bool, true, false, ◌&&◌, not, Bytes, Option, none,
  some, [], ◌∷◌, ◌++◌, ◌==◌, if◌then◌else◌, ltb, le→ltb, take, length, arith, Bool-cases, ◌↔◌,
  ==_iff,
}
use migrate.Errors.{empty_url, no_scheme, Result, ok, err}

abbrev bump : Option ℕ → Option ℕ
bump none = none
bump (some k) = some (suc k)

-- `strings.Index(url, ":")`; `none` is -1.
unfoldable pub index_colon : Bytes → Option ℕ
index_colon [] = none
index_colon (c ∷ cs) = let later = index_colon cs in if c == b':' then some 0 else bump later

unfoldable pub scheme_at : Bytes → Option ℕ → Result Bytes
scheme_at url none = err no_scheme
scheme_at url (some i) = if ltb i 1 then err no_scheme else ok (take i url)

-- `SchemeFromURL`.
unfoldable pub scheme_from_url : Bytes → Result Bytes
unfolding scheme_at index_colon
scheme_from_url [] = err empty_url
scheme_from_url (c ∷ cs) = scheme_at (c ∷ cs) (index_colon (c ∷ cs))

abbrev pub no_colon : Bytes → Bool
no_colon [] = true
no_colon (c ∷ cs) = not (c == b':') && no_colon cs

index_colon-append :
    (s rest : Bytes) → no_colon s ≡ true → index_colon (s ++ b':' ∷ rest) ≡ some (length s)
unfolding index_colon
index_colon-append [] rest h = refl
index_colon-append (c ∷ cs) rest h =
    let n : (c == b':') ≡ false = ground arith in
    let t : no_colon cs ≡ true = ground arith in rw (n, index_colon-append cs rest t) refl

take-append : (s t : Bytes) → take (length s) (s ++ t) ≡ s
take-append [] t = refl
take-append (c ∷ cs) t = ap (λ s. c ∷ s) (take-append cs t)

bump-some : (o : Option ℕ) (i : ℕ) → bump o ≡ some i → (k : ℕ) × (i ≡ suc k) × (o ≡ some k)
bump-some none i e = cc
bump-some (some k) i e = (k, cc, refl)

index_colon-some :
    (url : Bytes) (i : ℕ)
    → index_colon url ≡ some i
    → (rest : Bytes) × (url ≡ take i url ++ b':' ∷ rest) × (no_colon (take i url) ≡ true)
unfolding index_colon
index_colon-some [] i e = cc
index_colon-some (c ∷ cs) i e = elim (Bool-cases (c == b':')) [
  | inl h ↦
      let z : some 0 ≡ some i = rw h at e in
      let zero : i ≡ 0 = cc in rw (zero, (==_iff c b':').0 h) (cs, refl, refl)
  | inr h ↦
      let (k, eq, st) = bump-some _ i (rw h at e) in
      let (rest, whole, n) = index_colon-some cs k st in rw eq (rest, ap (λ s. c ∷ s) whole, rw h n)
]

-- The scheme of a URL that has one: it is not empty and has no colon, and a colon follows it.
abbrev pub IsScheme : Bytes → Bytes → Type 0
IsScheme url s = (s ≢ []) × (no_colon s ≡ true) × ((rest : Bytes) × (url ≡ s ++ b':' ∷ rest))

take-filled :
    (k : ℕ) (url rest : Bytes) → ltb k 1 ≡ false → url ≡ take k url ++ b':' ∷ rest → take k url ≢ []
take-filled zero url rest h w e = cc
take-filled (suc k) [] rest h w e = cc
take-filled (suc k) (c ∷ cs) rest h w e = cc

scheme_at-IsScheme :
    (url s : Bytes) (o : Option ℕ) → index_colon url ≡ o → scheme_at url o ≡ ok s → IsScheme url s
unfolding scheme_at
scheme_at-IsScheme url s none i e = cc
scheme_at-IsScheme url s (some k) i e = elim (Bool-cases (ltb k 1)) [
  | inl h ↦ let no : ◌≡◌ {A = Result Bytes} (err no_scheme) (ok s) = rw h at e in cc
  | inr h ↦
      let y : ◌≡◌ {A = Result Bytes} (ok (take k url)) (ok s) = rw h at e in
      let eq : take k url ≡ s = cc in
      let (rest, whole, n) = index_colon-some url k i in
      rw⁻¹ eq (take-filled k url rest h whole, n, (rest, whole))
]

scheme_from_url-IsScheme : (url s : Bytes) → scheme_from_url url ≡ ok s → IsScheme url s
unfolding scheme_from_url
scheme_from_url-IsScheme [] s e = cc
scheme_from_url-IsScheme (c ∷ cs) s e = scheme_at-IsScheme (c ∷ cs) s _ refl e

IsScheme-scheme_from_url :
    (s rest : Bytes) → s ≢ [] → no_colon s ≡ true → scheme_from_url (s ++ b':' ∷ rest) ≡ ok s
unfolding scheme_from_url scheme_at
IsScheme-scheme_from_url [] rest n h = absurd (n refl)
IsScheme-scheme_from_url (c ∷ cs) rest n h =
    rw (index_colon-append (c ∷ cs) rest h, take-append (c ∷ cs) (b':' ∷ rest))
      (rw (le→ltb (suc (length cs)) 1 (omega arith)) refl)

-- SchemeFromURL returns a scheme exactly if the URL begins with it and a colon, and it is not empty
-- and has no colon itself; every other URL is an error.
pub scheme_from_url_lem : (url s : Bytes) → (scheme_from_url url ≡ ok s) ↔ IsScheme url s
scheme_from_url_lem url s = (
  scheme_from_url-IsScheme url s,
  λ (n, h, (rest, e)). rw e (IsScheme-scheme_from_url s rest n h),
)
