-- ===== src/Database/Multistmt/Parts.antt =====
-- The parts of a text that is cut behind each delimiter.
use migrate.Prelude.{
  ℕ, zero, suc, ◌<◌, ◌≡◌, refl, ap, inl, inr, Bytes, Option, none, some, List, [], ◌∷◌, length,
  length-append, is_empty, arith, Option-cases, if◌then◌else◌,
}
use migrate.Database.Multistmt.Cut.{cut-append, cut-room}
use migrate.Database.Multistmt.{cut_after}

module _ (p : Bytes) where
  abbrev part : Bytes → Option (Bytes × Bytes) → (Bytes → List Bytes) → List Bytes
  part text none rest = if is_empty text then [] else text ∷ []
  part text (some (token, behind)) rest = token ∷ rest behind

  -- The text cut behind each delimiter.
  unfoldable pub parts_within : ℕ → Bytes → List Bytes
  parts_within zero text = []
  parts_within (suc fuel) text = part text (cut_after p text) (parts_within fuel)

  abbrev pub parts : Bytes → List Bytes
  parts text = parts_within (suc (length text)) text

  module _ (room : 0 < length p) where
    pub behind-lt :
        (text token rest : Bytes)
        → cut_after p text ≡ some (token, rest)
        → length rest < length text
    behind-lt text token rest h = omega (
      arith,
      room,
      cut-room p text token rest h,
      length-append token rest,
      ap length (cut-append p text token rest h),
    )

    parts_within_fuel :
        (n m : ℕ) (text : Bytes)
        → length text < n
        → length text < m
        → parts_within n text ≡ parts_within m text
    unfolding parts_within
    parts_within_fuel zero m text ln lm = absurd (omega arith)
    parts_within_fuel (suc n) zero text ln lm = absurd (omega arith)
    parts_within_fuel (suc n) (suc m) text ln lm = elim (Option-cases (cut_after p text)) [
      | inl e ↦ rw e refl
      | inr ((token, rest), e) ↦ rw e (
          ap (λ ps. token ∷ ps)
            (parts_within_fuel n m rest (omega (arith, behind-lt text token rest e))
              (omega (arith, behind-lt text token rest e))))
    ]

    pub parts_cut :
        (text token rest : Bytes)
        → cut_after p text ≡ some (token, rest)
        → parts text ≡ token ∷ parts rest
    unfolding parts_within
    parts_cut text token rest e = rw e (
        ap (λ ps. token ∷ ps)
          (parts_within_fuel (length text) (suc (length rest)) rest (behind-lt text token rest e)
            (omega arith)))
