-- ===== src/Database/Multistmt/Pieces.antt =====
-- What it is to cut a text behind each delimiter, said of the text and the pieces alone.
use migrate.Prelude.{
  ℕ, zero, suc, ◌≤◌, ◌<◌, ◌≡◌, ◌≢◌, sym, ap, ◌∙◌, subst, inl, inr, Bytes, none, some, List, [], ◌∷◌,
  ◌++◌, length, length-append, strip_prefix, is_empty, if◌then◌else◌, arith, Option-cases,
}
use mathlib.Core.List.{append_assoc}
use migrate.Database.Multistmt.{cut_after}
use migrate.Database.Multistmt.Cut.{cut-append, cut_cases, append-strip}
use migrate.Database.Multistmt.Parts.{parts, parts_within, behind-lt}

-- A piece ends with the first delimiter of what is left of the text, and the last piece is what has none.
pub data Pieces (p : Bytes) : Bytes → List Bytes → Type 0 where
  nothing : Pieces p [] []
  uncut :
      (c : ℕ) (s : Bytes)
      → ((before behind : Bytes) → c ∷ s ≢ before ++ (p ++ behind))
      → Pieces p (c ∷ s) ((c ∷ s) ∷ [])
  cut :
      (before rest : Bytes) (ps : List Bytes)
      → ((earlier behind : Bytes)
          → before ++ (p ++ rest) ≡ earlier ++ (p ++ behind)
          → length before ≤ length earlier)
      → Pieces p rest ps
      → Pieces p (before ++ (p ++ rest)) ((before ++ p) ∷ ps)

module _ (p : Bytes) (room : 0 < length p) where
  -- A text that starts with the delimiter is cut there.
  not_first : (c : ℕ) (s behind : Bytes) → strip_prefix p (c ∷ s) ≡ none → c ∷ s ≢ p ++ behind
  not_first c s behind h e = cc (h, append-strip p behind, ap (strip_prefix p) e)

  cut-none : (s before behind : Bytes) → cut_after p s ≡ none → s ≢ before ++ (p ++ behind)
  unfolding cut_after
  cut-none [] before behind h e =
      absurd (
        omega
          (arith, room, ap length e, length-append before (p ++ behind), length-append p behind))
  cut-none (c ∷ s) before behind h e = elim (Option-cases (strip_prefix p (c ∷ s))) [
    | inl n ↦ elim (Option-cases (cut_after p s)) [
      | inl m ↦ by_start before n (λ b. cut-none s b behind m) e
      | inr ((token, rest), m) ↦ absurd (cc (rw (n, m) at h))
    ]
    | inr (rest, n) ↦ absurd (cc (rw n at h))
  ]
    where
      by_start :
          (before : Bytes)
          → strip_prefix p (c ∷ s) ≡ none
          → ((b : Bytes) → s ≢ b ++ (p ++ behind))
          → c ∷ s ≢ before ++ (p ++ behind)
      by_start [] n later e = not_first c s behind n e
      by_start (b ∷ before) n later e = later before (cc e)

  cut-first :
      (s token rest : Bytes)
      → cut_after p s ≡ some (token, rest)
      → (before : Bytes) × (token ≡ before ++ p)
        × ((earlier behind : Bytes) → s ≡ earlier ++ (p ++ behind) → length before ≤ length earlier)
  unfolding cut_after
  cut-first [] token rest h = cc
  cut-first (c ∷ s) token rest h =
      cut_cases p c s token rest _ h (λ e t. ([], t, λ earlier behind same. omega arith))
        (λ start e m t.
          let (before, same, first) = cut-first s start rest m in
          (
            c ∷ before,
            t ∙ ap (λ b. c ∷ b) same,
            λ earlier behind whole. one_later before e first earlier behind whole,
          ))
    where
      one_later :
          (before : Bytes)
          → strip_prefix p (c ∷ s) ≡ none
          → ((earlier behind : Bytes)
              → s ≡ earlier ++ (p ++ behind)
              → length before ≤ length earlier)
          → (earlier behind : Bytes) → c ∷ s ≡ earlier ++ (p ++ behind)
          → suc (length before) ≤ length earlier
      one_later before e first [] behind whole = absurd (not_first c s behind e whole)
      one_later before e first (b ∷ earlier) behind whole =
          omega (arith, first earlier behind (cc whole))

  uncut-Pieces : (s : Bytes) → cut_after p s ≡ none → Pieces p s (if is_empty s then [] else s ∷ [])
  uncut-Pieces [] e = nothing
  uncut-Pieces (c ∷ s) e = uncut c s (λ before behind same. cut-none (c ∷ s) before behind e same)

  cut-Pieces :
      (text token rest : Bytes) (ps : List Bytes)
      → cut_after p text ≡ some (token, rest)
      → Pieces p rest ps
      → Pieces p text (token ∷ ps)
  cut-Pieces text token rest ps e pieces =
      let (before, same, first) = cut-first text token rest e in
      let whole : text ≡ before ++ (p ++ rest) =
        cut-append p text token rest e ∙ ap (λ t. t ++ rest) same ∙ append_assoc before p rest in
      subst (λ t. Pieces p t (token ∷ ps)) (sym whole)
        (subst (λ t. Pieces p (before ++ (p ++ rest)) (t ∷ ps)) (sym same)
          (cut before rest ps (λ earlier behind h. first earlier behind (whole ∙ h)) pieces))

  parts_within-Pieces :
      (n : ℕ) (text : Bytes) → length text < n → Pieces p text (parts_within p n text)
  unfolding parts_within
  parts_within-Pieces zero text lt = absurd (omega arith)
  parts_within-Pieces (suc n) text lt = elim (Option-cases (cut_after p text)) [
    | inl e ↦ rw e (uncut-Pieces text e)
    | inr ((token, rest), e) ↦ rw e (
        cut-Pieces text token rest (parts_within p n rest) e
          (parts_within-Pieces n rest (omega (arith, behind-lt p room text token rest e))))
  ]

  pub parts-Pieces : (text : Bytes) → Pieces p text (parts p text)
  parts-Pieces text = parts_within-Pieces (suc (length text)) text (omega arith)
