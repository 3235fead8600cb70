-- ===== src/Source/Sort.antt =====
-- `sort.Slice` of Go's standard library on the version index, and ascending lists of versions.
use migrate.Prelude.{
  ℕ, ◌≤◌, ◌<◌, ◌≡◌, ◌⊎◌, inl, inr, refl, sym, List, [], ◌∷◌, arith, leb, if◌then◌else◌, Bool-cases,
}

insert : ℕ → List ℕ → List ℕ
insert x [] = x ∷ []
insert x (y ∷ ys) = if leb x y then x ∷ y ∷ ys else y ∷ insert x ys

unfoldable pub sort : List ℕ → List ℕ
unfolding insert
sort [] = []
sort (x ∷ xs) = insert x (sort xs)

abbrev pub In : ℕ → List ℕ → Type 0
In v [] = ⊥
In v (x ∷ xs) = (v ≡ x) ⊎ In v xs

abbrev pub Above : ℕ → List ℕ → Type 0
Above v [] = Unit
Above v (x ∷ xs) = (v < x) × Above v xs

-- Strictly ascending.
abbrev pub Ascending : List ℕ → Type 0
Ascending [] = Unit
Ascending (x ∷ xs) = Above x xs × Ascending xs

abbrev pub Distinct : List ℕ → Type 0
Distinct [] = Unit
Distinct (x ∷ xs) = (¬ In x xs) × Distinct xs

pub In-Above : {v w : ℕ} (xs : List ℕ) → Above v xs → In w xs → v < w
In-Above [] a i = absurd i
In-Above (x ∷ xs) a (inl e) = omega arith
In-Above (x ∷ xs) a (inr i) = In-Above xs a.1 i

Above-mono : {v w : ℕ} (xs : List ℕ) → v ≤ w → Above w xs → Above v xs
Above-mono [] h a = tt
Above-mono (x ∷ xs) h a = (omega arith, Above-mono xs h a.1)

In-insert : (v x : ℕ) (xs : List ℕ) → In v (insert x xs) → (v ≡ x) ⊎ In v xs
unfolding insert
In-insert v x [] i = i
In-insert v x (y ∷ ys) i = ground (arith, In-insert v x ys)

insert-In : (v x : ℕ) (xs : List ℕ) → (v ≡ x) ⊎ In v xs → In v (insert x xs)
unfolding insert
insert-In v x [] i = i
insert-In v x (y ∷ ys) i = ground (arith, insert-In v x ys)

insert-Above : (v x : ℕ) (xs : List ℕ) → v < x → Above v xs → Above v (insert x xs)
unfolding insert
insert-Above v x [] h a = (h, tt)
insert-Above v x (y ∷ ys) h a = ground (arith, insert-Above v x ys)

insert-Ascending : (x : ℕ) (xs : List ℕ) → (¬ In x xs) → Ascending xs → Ascending (insert x xs)
unfolding insert
insert-Ascending x [] n a = (tt, tt)
insert-Ascending x (y ∷ ys) n a = elim (Bool-cases (leb x y)) [
  | inl le ↦ let lt : x < y = ground (arith, n) in rw le ((lt, Above-mono ys (omega arith) a.0), a)
  | inr gt ↦
      rw gt (insert-Above y x ys (ground arith) a.0, insert-Ascending x ys (λ i. n (inr i)) a.1)
]

pub In-sort : (v : ℕ) (xs : List ℕ) → In v (sort xs) → In v xs
unfolding sort
In-sort v [] i = i
In-sort v (x ∷ xs) i = ground (arith, In-insert v x (sort xs), In-sort v xs)

pub sort-In : (v : ℕ) (xs : List ℕ) → In v xs → In v (sort xs)
unfolding sort
sort-In v [] i = i
sort-In v (x ∷ xs) (inl e) = insert-In v x (sort xs) (inl e)
sort-In v (x ∷ xs) (inr i) = insert-In v x (sort xs) (inr (sort-In v xs i))

-- Sorting distinct versions puts them in strictly ascending order.
pub sort-Ascending : (xs : List ℕ) → Distinct xs → Ascending (sort xs)
unfolding sort
sort-Ascending [] d = tt
sort-Ascending (x ∷ xs) d =
    insert-Ascending x (sort xs) (λ i. d.0 (In-sort x xs i)) (sort-Ascending xs d.1)

heads_eq :
    (x y : ℕ) (xs ys : List ℕ) → Above x xs → Above y ys → In x (y ∷ ys) → In y (x ∷ xs) → x ≡ y
heads_eq x y xs ys a b (inl e) j = e
heads_eq x y xs ys a b (inr i) (inl e) = sym e
heads_eq x y xs ys a b (inr i) (inr j) =
    omega (arith, In-Above {v = x} {w = y} xs a j, In-Above {v = y} {w = x} ys b i)

tail_In :
    (x y : ℕ) (xs ys : List ℕ)
    → x ≡ y
    → Above x xs
    → ((v : ℕ) → In v (x ∷ xs) → In v (y ∷ ys))
    → (v : ℕ) → In v xs
    → In v ys
tail_In x y xs ys e a f v i = elim (f v (inr i)) [
  | inl d ↦ absurd (omega (arith, In-Above {v = x} {w = v} xs a i))
  | inr j ↦ j
]

-- Two ascending lists with the same elements are equal.
same_elements :
    (xs ys : List ℕ)
    → Ascending xs
    → Ascending ys
    → ((v : ℕ) → In v xs → In v ys)
    → ((v : ℕ) → In v ys → In v xs)
    → xs ≡ ys
same_elements [] [] a b f g = refl
same_elements [] (y ∷ ys) a b f g = absurd (g y (inl refl))
same_elements (x ∷ xs) [] a b f g = absurd (f x (inl refl))
same_elements (x ∷ xs) (y ∷ ys) a b f g =
    let e : x ≡ y = heads_eq x y xs ys a.0 b.0 (f x (inl refl)) (g y (inl refl)) in
    cc
      (e, same_elements xs ys a.1 b.1 (tail_In x y xs ys e a.0 f) (tail_In y x ys xs (sym e) b.0 g))

-- The sorted list does not depend on the order in which a map is iterated.
pub sort_order :
    (xs ys : List ℕ)
    → Distinct xs
    → Distinct ys
    → ((v : ℕ) → In v xs → In v ys)
    → ((v : ℕ) → In v ys → In v xs)
    → sort xs ≡ sort ys
sort_order xs ys dx dy f g =
    same_elements (sort xs) (sort ys) (sort-Ascending xs dx) (sort-Ascending ys dy)
      (λ v i. sort-In v ys (f v (In-sort v xs i))) (λ v i. sort-In v xs (g v (In-sort v ys i)))
