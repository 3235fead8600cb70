-- ===== src/Engine/Plan/Short.antt =====
-- What is missing when a limit is not met: the ends of the loops of `readUp` and `readDown`.
use migrate.Prelude.{
  ℕ, zero, suc, ◌+◌, ◌-◌, ◌≤◌, ◌<◌, ◌≡◌, refl, inl, inr, pos, ◌-ℤ◌, none, List, [], ◌∷◌, arith,
  take, ltb, Bool-cases,
}
use migrate.Errors.{not_exist}
use migrate.Engine.Util.{suint}
use migrate.Engine.ReadLimit.{reached_end, down_short}
use migrate.Engine.Plan.{up_error, down_error, ended_by}

pub up_error-none : (n k : ℕ) → n ≤ k → none ≡ up_error n k
up_error-none n k h = ground arith

pub down_error-none : (n k : ℕ) → n ≤ k → none ≡ down_error n k
down_error-none n k h = ground arith

pub take-nil {ℓ} : {A : Type ℓ} (n : ℕ) → take {A = A} n [] ≡ []
take-nil zero = refl
take-nil (suc n) = refl

pub int_sub : (n k : ℕ) → k ≤ n → pos n -ℤ pos k ≡ pos (n - k)
unfolding ◌-ℤ◌
int_sub n k h = ground arith

pub reached_end-short :
    (n count : ℕ) → count < n → reached_end (pos n) count not_exist ≡ ended_by [] (up_error n count)
unfolding reached_end suint
reached_end-short n count h = rw (int_sub n count (omega arith)) (ground arith)

pub down_short-ended_by :
    (n count : ℕ) → down_short (pos n) count ≡ ended_by [] (down_error n count)
unfolding down_short suint
down_short-ended_by n count = elim (Bool-cases (ltb count n)) [
  | inl h ↦ rw (int_sub n count (ground arith)) (ground arith)
  | inr h ↦ ground arith
]

pub take-suc :
    {A : Type 0} (n count : ℕ) (x : A) (xs : List A)
    → count < n
    → take (n - count) (x ∷ xs) ≡ x ∷ take (n - (count + 1)) xs
take-suc n count x xs h = let e : n - count ≡ suc (n - (count + 1)) = omega arith in rw e refl
