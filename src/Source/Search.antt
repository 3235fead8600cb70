-- ===== src/Source/Search.antt =====
-- `sort.Search` and `sort.Slice` of Go's standard library, as source/migration.go uses them.
use migrate.Prelude.{
  ℕ, zero, suc, ◌+◌, ◌/◌, ◌≤◌, ◌<◌, ◌≡◌, inl, inr, Bool, true, false, arith, ltb, if◌then◌else◌,
  Bool-cases, ltb→lt, ltb→le,
}

-- The loop of `sort.Search`: `for i < j { h := int(uint(i+j) >> 1); ... }`.
unfoldable pub search_loop : (ℕ → Bool) → ℕ → ℕ → ℕ → ℕ
search_loop f zero i j = i
search_loop f (suc fuel) i j =
    let h = (i + j) / 2 in
    let right = search_loop f fuel (h + 1) j in
    let left = search_loop f fuel i h in if ltb i j then (if f h then left else right) else i

unfoldable pub search_first : ℕ → (ℕ → Bool) → ℕ
unfolding search_loop
search_first n f = search_loop f (suc n) 0 n

-- `r` is the first index of `[0, n)` at which `f` holds, or `n`.
pub record Splits (f : ℕ → Bool) (n r : ℕ) : Type 0 where
  pub bound : r ≤ n
  pub below : (k : ℕ) → k < r → f k ≡ false
  pub above : (k : ℕ) → r ≤ k → k < n → f k ≡ true

module _ (f : ℕ → Bool) (n : ℕ) (mono : (a b : ℕ) → a ≤ b → b < n → f a ≡ true → f b ≡ true) where
  below_mid : (h : ℕ) → h < n → f h ≡ false → (k : ℕ) → k < h + 1 → f k ≡ false
  below_mid h lt off k p = elim (Bool-cases (f k)) [
    | inr e ↦ e
    | inl e ↦ cc (mono k h (omega arith) lt e)
  ]

  search_loop-Splits :
      (fuel i j : ℕ)
      → i ≤ j
      → j ≤ n
      → j < i + fuel
      → ((k : ℕ) → k < i → f k ≡ false)
      → ((k : ℕ) → j ≤ k → k < n → f k ≡ true)
      → Splits f n (search_loop f fuel i j)
  unfolding search_loop
  search_loop-Splits zero i j ij jn m lo hi = absurd (omega arith)
  search_loop-Splits (suc fuel) i j ij jn m lo hi = elim (Bool-cases (ltb i j)) [
    | inr stop ↦
        let le = ltb→le i j stop in
        rw stop (record { bound = omega arith; below = lo; above = λ k p q. hi k (omega arith) q })
    | inl go ↦
        let lt = ltb→lt i j go in
        elim (Bool-cases (f ((i + j) / 2))) [
          | inl on ↦
              rw (go, on)
                (search_loop-Splits fuel i ((i + j) / 2) (omega arith) (omega arith) (omega arith)
                  lo (λ k p q. mono ((i + j) / 2) k p q on))
          | inr off ↦
              rw (go, off)
                (search_loop-Splits fuel ((i + j) / 2 + 1) j (omega arith) jn (omega arith)
                  (below_mid ((i + j) / 2) (omega arith) off) hi)
        ]
  ]

  -- For a test that is monotone below n, the binary search ends, with the first index at which the
  -- test holds, or n if there is none.
  pub search_first-Splits : Splits f n (search_first n f)
  unfolding search_first
  search_first-Splits =
      search_loop-Splits (suc n) 0 n (omega arith) (omega arith) (omega arith)
        (λ k p. absurd (omega arith)) (λ k p q. absurd (omega arith))
