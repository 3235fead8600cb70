-- ===== src/Database/Multistmt/Cut.antt =====
-- The first delimiter of a text, and what more text behind it changes.
use migrate.Prelude.{
  ℕ, ◌+◌, ◌≤◌, ◌≡◌, refl, sym, ap, ◌∙◌, inl, inr, Bytes, none, some, [], ◌∷◌, ◌++◌, length,
  length-append, strip_prefix, ◌==◌, ==_iff, ==_refl, arith, Bool-cases, Option-cases,
}
use mathlib.Core.List.{append_assoc}
use migrate.Database.Multistmt.{cut_after}

strip-append : (p s rest : Bytes) → strip_prefix p s ≡ some rest → s ≡ p ++ rest
strip-append [] s rest h = cc
strip-append (c ∷ p) [] rest h = cc
strip-append (c ∷ p) (d ∷ s) rest h = elim (Bool-cases (c == d)) [
  | inl e ↦ cc (strip-append p s rest (rw e at h), (==_iff c d).0 e)
  | inr e ↦ cc (rw e at h)
]

pub append-strip : (p rest : Bytes) → strip_prefix p (p ++ rest) ≡ some rest
append-strip [] rest = refl
append-strip (c ∷ p) rest = rw (==_refl c) (append-strip p rest)

strip_longer :
    (p s rest t : Bytes) → strip_prefix p s ≡ some rest → strip_prefix p (s ++ t) ≡ some (rest ++ t)
strip_longer p s rest t h =
    ap (λ text. strip_prefix p (text ++ t)) (strip-append p s rest h)
    ∙ ap (strip_prefix p) (append_assoc p rest t)
    ∙ append-strip p (rest ++ t)

-- A delimiter that is not there although it has room is not there in a longer text.
strip_absent :
    (p s t : Bytes) → strip_prefix p s ≡ none → length p ≤ length s → strip_prefix p (s ++ t) ≡ none
strip_absent [] s t h le = cc
strip_absent (c ∷ p) [] t h le = absurd (omega arith)
strip_absent (c ∷ p) (d ∷ s) t h le = elim (Bool-cases (c == d)) [
  | inl e ↦ rw e (strip_absent p s t (rw e at h) (omega arith))
  | inr e ↦ rw e refl
]

strip-length : (p s rest : Bytes) → strip_prefix p s ≡ some rest → length p + length rest ≡ length s
strip-length p s rest h = sym (length-append p rest) ∙ ap length (sym (strip-append p s rest h))

module _ (p : Bytes) where
  -- The cases of `cut_after` at a byte.
  module _ {ℓ} (c : ℕ) (s : Bytes) (token rest : Bytes) (P : Type ℓ) where
    pub cut_cases :
        cut_after p (c ∷ s) ≡ some (token, rest)
        → (strip_prefix p (c ∷ s) ≡ some rest → token ≡ p → P)
        → ((before : Bytes)
            → strip_prefix p (c ∷ s) ≡ none
            → cut_after p s ≡ some (before, rest)
            → token ≡ c ∷ before
            → P)
        → P
    unfolding cut_after
    cut_cases h here there = elim (Option-cases (strip_prefix p (c ∷ s))) [
      | inl e ↦ elim (Option-cases (cut_after p s)) [
        | inl n ↦ absurd (cc (rw (e, n) at h))
        | inr ((before, r), m) ↦ there before e (cc (m, rw (e, m) at h)) (cc (rw (e, m) at h))
      ]
      | inr (r, e) ↦ here (cc (e, rw e at h)) (cc (rw e at h))
    ]

  pub cut-append :
      (text token rest : Bytes) → cut_after p text ≡ some (token, rest) → text ≡ token ++ rest
  unfolding cut_after
  cut-append [] token rest h = cc
  cut-append (c ∷ s) token rest h =
      cut_cases c s token rest (c ∷ s ≡ token ++ rest) h
        (λ e t. strip-append p (c ∷ s) rest e ∙ ap (λ b. b ++ rest) (sym t))
        (λ before e m t. ap (λ b. c ∷ b) (cut-append s before rest m) ∙ ap (λ b. b ++ rest) (sym t))

  pub cut-room :
      (text token rest : Bytes) → cut_after p text ≡ some (token, rest) → length p ≤ length token
  unfolding cut_after
  cut-room [] token rest h = cc
  cut-room (c ∷ s) token rest h =
      cut_cases c s token rest (length p ≤ length token) h (λ e t. omega (arith, ap length t))
        (λ before e m t. omega (arith, cut-room s before rest m, ap length t))

  cut_room :
      (text token rest : Bytes) → cut_after p text ≡ some (token, rest) → length p ≤ length text
  cut_room text token rest h = omega (
    arith,
    cut-room text token rest h,
    length-append token rest,
    ap length (cut-append text token rest h),
  )

  pub cut_longer :
      (text token rest t : Bytes)
      → cut_after p text ≡ some (token, rest)
      → cut_after p (text ++ t) ≡ some (token, rest ++ t)
  unfolding cut_after
  cut_longer [] token rest t h = cc
  cut_longer (c ∷ s) token rest t h =
      cut_cases c s token rest (cut_after p (c ∷ (s ++ t)) ≡ some (token, rest ++ t)) h
        (λ e same. rw (strip_longer p (c ∷ s) rest t e, same))
        (λ before e m same. rw (
          strip_absent p (c ∷ s) t e (omega (arith, cut_room s before rest m)),
          cut_longer s before rest t m,
          same,
        ))
