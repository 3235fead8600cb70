-- ===== src/Engine/Plan/Descent.antt =====
-- The way down through an ascending list of versions.
use migrate.Prelude.{
  ℕ, ◌+◌, ◌≤◌, ◌<◌, ◌≡◌, ◌≢◌, sym, ap, inl, inr, ℤ, pos, minus_one, none, some, List, [], ◌∷◌, ◌==◌,
  ==_iff, ==_refl, arith, head?, Bool-cases, Option-cases, length,
}
use migrate.Source.Sort.{In, Ascending}
use migrate.Source.Migrations.Order.{prev_in, prev_from}
use migrate.Source.Migrations.Neighbours.Prev.{prev_in-IsPrev}
use migrate.Source.Migrations.Neighbours.Next.{head_le}
use migrate.Engine.Plan.{descend, descent}

prev_from-ne-none : (p v : ℕ) (xs : List ℕ) → In v xs → prev_from p v xs ≢ none
prev_from-ne-none p v [] i e = i
prev_from-ne-none p v (x ∷ xs) i e = ground (arith, prev_from-ne-none x v xs)

at_first : (x v : ℕ) (xs : List ℕ) → In v (x ∷ xs) → prev_in v (x ∷ xs) ≡ none → x ≡ v
at_first x v xs (inl i) e = sym i
at_first x v xs (inr i) e = absurd (prev_from-ne-none x v xs i e)

descend-first :
    (below : List (ℕ × ℤ)) (target : ℤ) (v : ℕ) (xs : List ℕ)
    → In v xs
    → prev_in v xs ≡ none
    → descend below target v xs ≡ (v, target) ∷ below
descend-first below target v [] i e = absurd i
descend-first below target v (x ∷ xs) i e =
    let xv : x ≡ v = at_first x v xs i e in ground (arith, ==_refl v)

skip :
    (below : List (ℕ × ℤ)) (target : ℤ) (v x q : ℕ) (xs : List ℕ)
    → x < v
    → x < q
    → descend ((x, target) ∷ below) (pos x) v xs
      ≡ (v, pos q) ∷ descend ((x, target) ∷ below) (pos x) q xs
    → descend below target v (x ∷ xs) ≡ (v, pos q) ∷ descend below target q (x ∷ xs)
skip below target v x q xs lv lq e = ground arith

descend-prev :
    (below : List (ℕ × ℤ)) (target : ℤ) (v q : ℕ) (xs : List ℕ)
    → Ascending xs
    → prev_in v xs ≡ some q
    → descend below target v xs ≡ (v, pos q) ∷ descend below target q xs
descend-prev below target v q [] s e = cc
descend-prev below target v q (x ∷ []) s e = cc
descend-prev below target v q (x ∷ y ∷ ys) s e =
    let n = prev_in-IsPrev v q (x ∷ y ∷ ys) s e in
    let x-lt-v : x < v = omega (arith, head_le x (y ∷ ys) s.0 q n.to, n.below) in
    elim (Bool-cases (y == v)) [
      | inl hit ↦
          let xq : x ≡ q = ground (arith, rw (hit, prev_from) at e) in
          let yv : y ≡ v = (==_iff y v).0 hit in ground arith
      | inr miss ↦
          let e' : prev_in v (y ∷ ys) ≡ some q = rw (miss, prev_from) at e in
          let m = prev_in-IsPrev v q (y ∷ ys) s.1 e' in
          let x-lt-q : x < q = omega (arith, head_le y ys s.1.0 q m.to) in
          skip below target v x q (y ∷ ys) x-lt-v x-lt-q
            (descend-prev ((x, target) ∷ below) (pos x) v q (y ∷ ys) s.1 e')
    ]

length-descend :
    (below : List (ℕ × ℤ)) (target : ℤ) (v : ℕ) (xs : List ℕ)
    → length (descend below target v xs) ≤ length below + length xs
length-descend below target v [] = omega arith
length-descend below target v (x ∷ xs) =
    ground (arith, length-descend ((x, target) ∷ below) (pos x) v xs)

pub length-descent : (v : ℕ) (vs : List ℕ) → length (descent v vs) ≤ length vs
length-descent v vs = omega (arith, length-descend [] minus_one v vs)

module _ (v : ℕ) (vs : List ℕ) (s : Ascending vs) where
  pub descent-first : In v vs → prev_in v vs ≡ none → descent v vs ≡ (v, minus_one) ∷ []
  descent-first i e = descend-first [] minus_one v vs i e

  pub descent-prev : (q : ℕ) → prev_in v vs ≡ some q → descent v vs ≡ (v, pos q) ∷ descent q vs
  descent-prev q e = descend-prev [] minus_one v q vs s e

  pub prev-In : (q : ℕ) → prev_in v vs ≡ some q → In q vs
  prev-In q e = (prev_in-IsPrev v q vs s e).to

  pub prev-lt : (q : ℕ) → prev_in v vs ≡ some q → q < v
  prev-lt q e = (prev_in-IsPrev v q vs s e).below

  -- The way down from a version begins at that version.
  pub descent-cons :
      In v vs → (target : ℤ) × (rest : List (ℕ × ℤ)) × (descent v vs ≡ (v, target) ∷ rest)
  descent-cons i = elim (Option-cases (prev_in v vs)) [
    | inl e ↦ (minus_one, [], descent-first i e)
    | inr (q, e) ↦ (pos q, descent q vs, descent-prev q e)
  ]

-- The first version is the one that has none before it.
pub head?-first : (v : ℕ) (vs : List ℕ) → In v vs → prev_in v vs ≡ none → head? vs ≡ some v
head?-first v [] i e = absurd i
head?-first v (x ∷ xs) i e = ap some (at_first x v xs i e)
