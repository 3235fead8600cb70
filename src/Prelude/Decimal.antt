-- ===== src/Prelude/Decimal.antt =====
-- Decimal digits, as `fmt` and `strconv` of Go's standard library write a number.
use Prim.Native.Nat.{ℕ, zero, suc, ◌+◌, ◌-◌, ◌*◌, ◌/◌, ◌%◌, ◌≤◌, ◌<◌}
use mathlib.Core.Path.{◌≡◌, refl}
use mathlib.Core.Logic.{◌≢◌, inl, inr}
use mathlib.Core.Bool.{Bool, true, ◌&&◌}
use native.Mathlib.Omega.{arith}
use migrate.Prelude.Lists.{All}
use mathlib.Core.List.{List, [], ◌∷◌, ◌++◌}
use migrate.Prelude.Tests.{ltb, leb, ltb→le, ltb→lt, Bool-cases, if◌then◌else◌}

-- Each round takes one digit off, so `n + 1` rounds are enough.
digits_loop : ℕ → ℕ → List ℕ
digits_loop zero n = []
digits_loop (suc fuel) n =
    let rest = digits_loop fuel (n / 10) in
    if ltb n 10 then (b'0' + n) ∷ [] else rest ++ (b'0' + n % 10) ∷ []

unfoldable pub decimal : ℕ → List ℕ
unfolding digits_loop
decimal n = digits_loop (suc n) n

-- The number that decimal digits stand for, after those that gave `n`.
unfoldable pub digits_value : ℕ → List ℕ → ℕ
digits_value n [] = n
digits_value n (c ∷ cs) = digits_value (n * 10 + (c - b'0')) cs

abbrev pub is_digit : ℕ → Bool
is_digit c = leb b'0' c && leb c b'9'

digits_value-snoc :
    (n c : ℕ) (cs : List ℕ) → digits_value n (cs ++ c ∷ []) ≡ digits_value n cs * 10 + (c - b'0')
unfolding digits_value
digits_value-snoc n c [] = refl
digits_value-snoc n c (x ∷ cs) = digits_value-snoc (n * 10 + (x - b'0')) c cs

digits_loop-value : (fuel n : ℕ) → n < fuel → digits_value 0 (digits_loop fuel n) ≡ n
unfolding digits_loop digits_value
digits_loop-value zero n h = absurd (omega arith)
digits_loop-value (suc fuel) n h = elim (Bool-cases (ltb n 10)) [
  | inl lt ↦ rw lt (omega arith)
  | inr ge ↦
      let le : 10 ≤ n = ltb→le n 10 ge in
      rw
        (
          ge,
          digits_value-snoc 0 (b'0' + n % 10) (digits_loop fuel (n / 10)),
          digits_loop-value fuel (n / 10) (omega arith),
        )
        (omega arith)
]

pub digits_value-decimal : (n : ℕ) → digits_value 0 (decimal n) ≡ n
unfolding decimal
digits_value-decimal n = digits_loop-value (suc n) n (omega arith)

All-snoc :
    {A : Type 0} (P : A → Type 0) (xs : List A) (x : A) → All P xs → P x → All P (xs ++ x ∷ [])
All-snoc P [] x a p = (p, tt)
All-snoc P (y ∷ xs) x a p = (a.0, All-snoc P xs x a.1 p)

add-is_digit : (d : ℕ) → d < 10 → is_digit (b'0' + d) ≡ true
add-is_digit d h = ground arith

digits_loop-is_digit : (fuel n : ℕ) → All (λ c. is_digit c ≡ true) (digits_loop fuel n)
unfolding digits_loop
digits_loop-is_digit zero n = tt
digits_loop-is_digit (suc fuel) n = elim (Bool-cases (ltb n 10)) [
  | inl lt ↦ rw lt (add-is_digit n (ltb→lt n 10 lt), tt)
  | inr ge ↦
      rw ge
        (All-snoc _ _ _ (digits_loop-is_digit fuel (n / 10)) (add-is_digit (n % 10) (omega arith)))
]

pub decimal-is_digit : (n : ℕ) → All (λ c. is_digit c ≡ true) (decimal n)
unfolding decimal
decimal-is_digit n = digits_loop-is_digit (suc n) n

snoc-nil : {A : Type 0} (xs : List A) (x : A) → xs ++ x ∷ [] ≢ []
snoc-nil [] x e = cc
snoc-nil (y ∷ xs) x e = cc

pub decimal-nil : (n : ℕ) → decimal n ≢ []
unfolding decimal digits_loop
decimal-nil n = elim (Bool-cases (ltb n 10)) [
  | inl lt ↦ rw lt (λ e. cc)
  | inr ge ↦ rw ge (snoc-nil _ _)
]
