-- ===== src/Source/Migrations/Neighbours/Next.antt =====
-- The least version above another, in an ascending list.
use migrate.Prelude.{
  ℕ, ◌≤◌, ◌<◌, ◌≡◌, inl, inr, refl, sym, subst, List, [], ◌∷◌, some, arith, head?, Bool-cases, ◌==◌,
  ==_iff,
}
use migrate.Source.Sort.{In, Above, Ascending, In-Above}
use migrate.Source.Migrations.Order.{next_in}

-- `w` is the least version above `v`.
pub record IsNext (P : ℕ → Type 0) (v w : ℕ) : Type 0 where
  pub from : P v
  pub to : P w
  pub above : v < w
  pub least : (u : ℕ) → P u → v < u → w ≤ u

abbrev pub Member : List ℕ → ℕ → Type 0
Member xs v = In v xs

-- Every element of an ascending list is at least its head.
pub head_le : (x : ℕ) (xs : List ℕ) → Above x xs → (u : ℕ) → In u (x ∷ xs) → x ≤ u
head_le x xs a u (inl e) = omega arith
head_le x xs a u (inr i) = omega (arith, In-Above {v = x} {w = u} xs a i)

pub In-tail : (x : ℕ) (xs : List ℕ) (u : ℕ) → x < u → In u (x ∷ xs) → In u xs
In-tail x xs u lt (inl e) = absurd (omega arith)
In-tail x xs u lt (inr i) = i

IsNext-at_head :
    (x w : ℕ) (xs : List ℕ) → Ascending (x ∷ xs) → head? xs ≡ some w → IsNext (Member (x ∷ xs)) x w
IsNext-at_head x w [] s e = cc
IsNext-at_head x w (y ∷ ys) s e =
    let y-eq-w : y ≡ w = ground arith in
    record {
      from = inl refl;
      to = inr (inl (sym y-eq-w));
      above = omega arith;
      least = λ u i lt. omega (arith, head_le y ys s.1.0 u (In-tail x (y ∷ ys) u lt i));
    }

IsNext-in_tail :
    (x v w : ℕ) (xs : List ℕ) → Above x xs → IsNext (Member xs) v w → IsNext (Member (x ∷ xs)) v w
IsNext-in_tail x v w xs a n = record {
  from = inr n.from;
  to = inr n.to;
  above = n.above;
  least = λ u i lt.
      n.least u (In-tail x xs u (omega (arith, In-Above {v = x} {w = v} xs a n.from)) i) lt;
}

pub next_in-IsNext :
    (v w : ℕ) (xs : List ℕ) → Ascending xs → next_in v xs ≡ some w → IsNext (Member xs) v w
next_in-IsNext v w [] s e = cc
next_in-IsNext v w (x ∷ xs) s e = elim (Bool-cases (x == v)) [
  | inl hit ↦
      subst (λ (u : ℕ). IsNext (Member (x ∷ xs)) u w) ((==_iff x v).0 hit)
        (IsNext-at_head x w xs s (rw (hit, next_in) at e))
  | inr miss ↦ IsNext-in_tail x v w xs s.0 (next_in-IsNext v w xs s.1 (rw (miss, next_in) at e))
]

IsNext-head :
    (x w : ℕ) (xs : List ℕ) → Ascending (x ∷ xs) → IsNext (Member (x ∷ xs)) x w → head? xs ≡ some w
IsNext-head x w [] s n = absurd (In-tail x [] w n.above n.to)
IsNext-head x w (y ∷ ys) s n =
    let le = n.least y (inr (inl refl)) s.0.0 in
    let ge = head_le y ys s.1.0 w (In-tail x (y ∷ ys) w n.above n.to) in
    let e : y ≡ w = omega arith in cc

IsNext-tail :
    (x v w : ℕ) (xs : List ℕ) → x < v → IsNext (Member (x ∷ xs)) v w → IsNext (Member xs) v w
IsNext-tail x v w xs lt n = record {
  from = In-tail x xs v lt n.from;
  to = In-tail x xs w (omega (arith, n.above)) n.to;
  above = n.above;
  least = λ u i gt. n.least u (inr i) gt;
}

pub IsNext-next_in :
    (v w : ℕ) (xs : List ℕ) → Ascending xs → IsNext (Member xs) v w → next_in v xs ≡ some w
IsNext-next_in v w [] s n = absurd n.from
IsNext-next_in v w (x ∷ xs) s n = elim (Bool-cases (x == v)) [
  | inl hit ↦
      rw (hit, next_in)
        (IsNext-head x w xs s
          (subst (λ (u : ℕ). IsNext (Member (x ∷ xs)) u w) (sym ((==_iff x v).0 hit)) n))
  | inr miss ↦
      let ge = head_le x xs s.0 v n.from in
      rw (miss, next_in) (IsNext-next_in v w xs s.1 (IsNext-tail x v w xs (ground arith) n))
]
