-- ===== src/Source/Migrations/Order.antt =====
-- `First`, `Next` and `Prev` of source/migration.go against the set of versions.
use migrate.Prelude.{
  ℕ, zero, suc, ◌+◌, ◌-◌, ◌≤◌, ◌<◌, ◌≡◌, ◌⊎◌, inl, inr, refl, true, List, [], ◌∷◌, Option, none,
  some, arith, leb, ◌==◌, if◌then◌else◌, length, get_elem?, head?, pos, minus_one,
}
use migrate.Prelude.Map.{nat_eq}
use migrate.Source.Search.{Splits, search_first-Splits}
use migrate.Source.Sort.{In, Above, Ascending, In-Above}
use migrate.Source.Migrations.{Migrations, next, prev, find_pos, search, at_least, after, before}

-- The version that follows `v` in a list, and the one before it.
abbrev pub next_in : ℕ → List ℕ → Option ℕ
next_in v [] = none
next_in v (x ∷ xs) = if x == v then head? xs else next_in v xs

abbrev pub prev_from : ℕ → ℕ → List ℕ → Option ℕ
prev_from p v [] = none
prev_from p v (x ∷ xs) = if x == v then some p else prev_from x v xs

abbrev pub prev_in : ℕ → List ℕ → Option ℕ
prev_in v [] = none
prev_in v (x ∷ xs) = prev_from x v xs

module _ where
  get_elem?-In : (xs : List ℕ) (k v : ℕ) → get_elem? xs k ≡ some v → In v xs
  get_elem?-In [] k v e = cc
  get_elem?-In (x ∷ xs) zero v e = inl (ground arith)
  get_elem?-In (x ∷ xs) (suc k) v e = inr (get_elem?-In xs k v e)

  get_elem?-lt : (xs : List ℕ) (k v : ℕ) → get_elem? xs k ≡ some v → k < length xs
  get_elem?-lt [] k v e = cc
  get_elem?-lt (x ∷ xs) zero v e = omega arith
  get_elem?-lt (x ∷ xs) (suc k) v e = omega (arith, get_elem?-lt xs k v e)

  get_elem?-none : (xs : List ℕ) (k : ℕ) → length xs ≤ k → get_elem? xs k ≡ none
  get_elem?-none [] k h = refl
  get_elem?-none (x ∷ xs) zero h = absurd (omega arith)
  get_elem?-none (x ∷ xs) (suc k) h = get_elem?-none xs k (omega arith)

  get_elem?-some : (xs : List ℕ) (k : ℕ) → k < length xs → (v : ℕ) × (get_elem? xs k ≡ some v)
  get_elem?-some [] k h = absurd (omega arith)
  get_elem?-some (x ∷ xs) zero h = (x, refl)
  get_elem?-some (x ∷ xs) (suc k) h = get_elem?-some xs k (omega arith)

  In-get_elem? : (xs : List ℕ) (v : ℕ) → In v xs → (k : ℕ) × (get_elem? xs k ≡ some v)
  In-get_elem? [] v i = absurd i
  In-get_elem? (x ∷ xs) v (inl e) = (zero, ground arith)
  In-get_elem? (x ∷ xs) v (inr i) = let (k, e) = In-get_elem? xs v i in (suc k, e)

  -- Positions of an ascending list are ordered like its elements.
  Ascending-le :
      (xs : List ℕ) (a b x y : ℕ)
      → Ascending xs
      → a ≤ b
      → get_elem? xs a ≡ some x
      → get_elem? xs b ≡ some y
      → x ≤ y
  Ascending-le [] a b x y s h p q = cc
  Ascending-le (z ∷ zs) zero zero x y s h p q = ground arith
  Ascending-le (z ∷ zs) zero (suc b) x y s h p q =
      ground (arith, In-Above {v = z} {w = y} zs s.0 (get_elem?-In zs b y q))
  Ascending-le (z ∷ zs) (suc a) zero x y s h p q = absurd (omega arith)
  Ascending-le (z ∷ zs) (suc a) (suc b) x y s h p q = Ascending-le zs a b x y s.1 (omega arith) p q

  next_in-get_elem? :
      (xs : List ℕ) (k v : ℕ)
      → Ascending xs
      → get_elem? xs k ≡ some v
      → next_in v xs ≡ get_elem? xs (k + 1)
  next_in-get_elem? [] k v s e = cc
  next_in-get_elem? (x ∷ []) zero v s e = ground arith
  next_in-get_elem? (x ∷ y ∷ ys) zero v s e = ground arith
  next_in-get_elem? (x ∷ xs) (suc k) v s e = ground (
    arith,
    In-Above {v = x} {w = v} xs s.0 (get_elem?-In xs k v e),
    next_in-get_elem? xs k v s.1 e,
  )

  prev_from-get_elem? :
      (p : ℕ) (xs : List ℕ) (k v : ℕ)
      → Above p xs
      → Ascending xs
      → get_elem? xs k ≡ some v
      → prev_from p v xs ≡ (if k == 0 then some p else get_elem? xs (k - 1))
  prev_from-get_elem? p [] k v a s e = cc
  prev_from-get_elem? p (x ∷ xs) zero v a s e = ground arith
  prev_from-get_elem? p (x ∷ []) (suc k) v a s e = cc
  prev_from-get_elem? p (x ∷ y ∷ ys) (suc zero) v a s e =
      ground (arith, prev_from-get_elem? x (y ∷ ys) zero v s.0 s.1)
  prev_from-get_elem? p (x ∷ y ∷ ys) (suc (suc k)) v a s e = ground (
    arith,
    In-Above {v = x} {w = v} (y ∷ ys) s.0 (get_elem?-In (y ∷ ys) (suc k) v e),
    prev_from-get_elem? x (y ∷ ys) (suc k) v s.0 s.1 e,
  )

  next_in-none : (v : ℕ) (xs : List ℕ) → (¬ In v xs) → next_in v xs ≡ none
  next_in-none v [] n = refl
  next_in-none v (x ∷ xs) n = ground (arith, next_in-none v xs)

  prev_from-none : (p v : ℕ) (xs : List ℕ) → (¬ In v xs) → prev_from p v xs ≡ none
  prev_from-none p v [] n = refl
  prev_from-none p v (x ∷ xs) n = ground (arith, prev_from-none x v xs)

  prev_in-get_elem? :
      (xs : List ℕ) (k v : ℕ)
      → Ascending xs
      → get_elem? xs k ≡ some v
      → prev_in v xs ≡ (if leb 1 k then get_elem? xs (k - 1) else none)
  prev_in-get_elem? [] k v s e = cc
  prev_in-get_elem? (x ∷ xs) zero v s e =
      let eq : x ≡ v = ground arith in
      prev_from-none x v xs (λ i. omega (arith, In-Above {v = x} {w = v} xs s.0 i))
  prev_in-get_elem? (x ∷ xs) (suc zero) v s e =
      ground (arith, prev_from-get_elem? x xs zero v s.0 s.1)
  prev_in-get_elem? (x ∷ xs) (suc (suc k)) v s e =
      ground (arith, prev_from-get_elem? x xs (suc k) v s.0 s.1)

  prev_in-none : (v : ℕ) (xs : List ℕ) → (¬ In v xs) → prev_in v xs ≡ none
  prev_in-none v [] n = refl
  prev_in-none v (x ∷ xs) n = prev_from-none x v xs (λ i. n (inr i))

  at_least_mono :
      (s : List ℕ) (x : ℕ)
      → Ascending s
      → (a b : ℕ) → a ≤ b
      → b < length s
      → at_least s x a ≡ true
      → at_least s x b ≡ true
  at_least_mono s x asc a b h lt e =
      let (y, q) = get_elem?-some s b lt in
      let (z, p) = get_elem?-some s a (omega arith) in
      let le = Ascending-le s a b z y asc h p q in
      rw (q, at_least) (ground (arith, rw (p, at_least) at e))

  Ascending-lt :
      (xs : List ℕ) (a b x y : ℕ)
      → Ascending xs
      → a < b
      → get_elem? xs a ≡ some x
      → get_elem? xs b ≡ some y
      → x < y
  Ascending-lt [] a b x y s h p q = cc
  Ascending-lt (z ∷ zs) a zero x y s h p q = absurd (omega arith)
  Ascending-lt (z ∷ zs) zero (suc b) x y s h p q =
      ground (arith, In-Above {v = z} {w = y} zs s.0 (get_elem?-In zs b y q))
  Ascending-lt (z ∷ zs) (suc a) (suc b) x y s h p q = Ascending-lt zs a b x y s.1 (omega arith) p q

  at_least_at : (s : List ℕ) (x k y : ℕ) → get_elem? s k ≡ some y → at_least s x k ≡ leb x y
  at_least_at s x k y e = rw (e, at_least)

  -- The first position that is not below `v` is the position of `v`.
  Splits-position :
      (s : List ℕ) (k v r : ℕ)
      → Ascending s
      → get_elem? s k ≡ some v
      → Splits (at_least s v) (length s) r
      → r ≡ k
  Splits-position s k v r asc e sp = omega (arith, not_lt, not_gt)
    where
      not_lt : ¬ (k < r)
      not_lt lt = ground (arith, sp.below k lt, at_least_at s v k v e)

      not_gt : ¬ (r < k)
      not_gt gt =
          let klt = get_elem?-lt s k v e in
          let (y, p) = get_elem?-some s r (omega arith) in
          let lt = Ascending-lt s r k y v asc gt p e in
          ground (arith, sp.above r (omega arith) (omega arith), at_least_at s v r y p)

  search-get_elem? : (s : List ℕ) (k v : ℕ) → Ascending s → get_elem? s k ≡ some v → search s v ≡ k
  unfolding search
  search-get_elem? s k v asc e =
      Splits-position s k v _ asc e
        (search_first-Splits (at_least s v) (length s) (at_least_mono s v asc))

pub In-cases : (v : ℕ) (xs : List ℕ) → In v xs ⊎ (¬ In v xs)
In-cases v [] = inr (λ i. i)
In-cases v (x ∷ xs) = ground (arith, In-cases v xs)

module _ (i : Migrations) (asc : Ascending i.index) (v : ℕ) where
  pub find_pos_found : (k : ℕ) → get_elem? i.index k ≡ some v → find_pos i v ≡ pos k
  unfolding find_pos
  find_pos_found k e =
      let lt = get_elem?-lt i.index k v e in rw (search-get_elem? i.index k v asc e) (ground arith)

  pub find_pos_missing : (¬ In v i.index) → find_pos i v ≡ minus_one
  unfolding find_pos
  find_pos_missing n = ground (arith, get_elem?-In i.index (search i.index v) v)

  -- The binary search of `Next` and `Prev` finds the neighbours in the sorted index.
  pub next-next_in : next i v ≡ next_in v i.index
  unfolding next after
  next-next_in = elim (In-cases v i.index) [
    | inr n ↦ rw (find_pos_missing n, next_in-none v i.index n)
    | inl m ↦
        let (k, e) = In-get_elem? i.index v m in
        rw (find_pos_found k e, next_in-get_elem? i.index k v asc e)
          (ground (arith, get_elem?-none i.index (k + 1)))
  ]

  pub prev-prev_in : prev i v ≡ prev_in v i.index
  unfolding prev before
  prev-prev_in = elim (In-cases v i.index) [
    | inr n ↦ rw (find_pos_missing n, prev_in-none v i.index n)
    | inl m ↦
        let (k, e) = In-get_elem? i.index v m in
        rw (find_pos_found k e, prev_in-get_elem? i.index k v asc e)
          (ground (arith, get_elem?-none i.index (k - 1)))
  ]
