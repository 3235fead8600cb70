-- ===== src/Source/Migrations/Neighbours/Prev.antt =====
-- The greatest version below another, in an ascending list.
use migrate.Prelude.{
  ℕ, ◌≤◌, ◌<◌, ◌≡◌, inl, inr, refl, sym, subst, false, List, [], ◌∷◌, some, arith, Bool-cases, ◌==◌,
  ==_iff,
}
use migrate.Source.Sort.{In, Above, Ascending}
use migrate.Source.Migrations.Order.{prev_from, prev_in}
use migrate.Source.Migrations.Neighbours.Next.{Member, head_le, In-tail}

-- `w` is the greatest version below `v`.
pub record IsPrev (P : ℕ → Type 0) (v w : ℕ) : Type 0 where
  pub from : P v
  pub to : P w
  pub below : w < v
  pub greatest : (u : ℕ) → P u → u < v → u ≤ w

IsPrev-at_head : (p x : ℕ) (xs : List ℕ) → p < x → Above x xs → IsPrev (Member (p ∷ x ∷ xs)) x p
IsPrev-at_head p x xs lt a = record {
  from = inr (inl refl);
  to = inl refl;
  below = lt;
  greatest =
      λ u i gt. elim i [ inl e ↦ omega arith | inr j ↦ absurd (omega (arith, head_le x xs a u j)) ];
}

IsPrev-in_tail :
    (p v w x : ℕ) (xs : List ℕ)
    → p < x
    → Above x xs
    → IsPrev (Member (x ∷ xs)) v w
    → IsPrev (Member (p ∷ x ∷ xs)) v w
IsPrev-in_tail p v w x xs lt a n = record {
  from = inr n.from;
  to = inr n.to;
  below = n.below;
  greatest =
      λ u i gt. elim i [ inl e ↦ omega (arith, head_le x xs a w n.to) | inr j ↦ n.greatest u j gt ];
}

prev_from-IsPrev :
    (p v w : ℕ) (xs : List ℕ)
    → Ascending (p ∷ xs)
    → prev_from p v xs ≡ some w
    → IsPrev (Member (p ∷ xs)) v w
prev_from-IsPrev p v w [] s e = cc
prev_from-IsPrev p v w (x ∷ xs) s e = elim (Bool-cases (x == v)) [
  | inl hit ↦
      let xv : x ≡ v = (==_iff x v).0 hit in
      let pw : p ≡ w = ground (arith, rw (hit, prev_from) at e) in
      subst (IsPrev (Member (p ∷ x ∷ xs)) v) pw
        (subst (λ (u : ℕ). IsPrev (Member (p ∷ x ∷ xs)) u p) xv (IsPrev-at_head p x xs s.0.0 s.1.0))
  | inr miss ↦
      IsPrev-in_tail p v w x xs s.0.0 s.1.0
        (prev_from-IsPrev x v w xs s.1 (rw (miss, prev_from) at e))
]

IsPrev-head : (p x w : ℕ) (xs : List ℕ) → Above x xs → IsPrev (Member (p ∷ x ∷ xs)) x w → p ≡ w
IsPrev-head p x w xs a n = elim n.to [
  | inl e ↦ sym e
  | inr j ↦ absurd (omega (arith, head_le x xs a w j, n.below))
]

IsPrev-tail :
    (p v w x : ℕ) (xs : List ℕ)
    → p < x
    → x < v
    → IsPrev (Member (p ∷ x ∷ xs)) v w
    → IsPrev (Member (x ∷ xs)) v w
IsPrev-tail p v w x xs lt gt n = record {
  from = In-tail p (x ∷ xs) v (omega arith) n.from;
  to = In-tail p (x ∷ xs) w (omega (arith, n.greatest x (inr (inl refl)) gt)) n.to;
  below = n.below;
  greatest = λ u i h. n.greatest u (inr i) h;
}

past_head :
    (p v w x : ℕ) (xs : List ℕ)
    → Ascending (p ∷ x ∷ xs)
    → IsPrev (Member (p ∷ x ∷ xs)) v w
    → (x == v) ≡ false
    → x < v
past_head p v w x xs s n miss =
    let p-le-w = head_le p (x ∷ xs) s.0 w n.to in
    let x-le-v = head_le x xs s.1.0 v (In-tail p (x ∷ xs) v (omega (arith, n.below)) n.from) in
    ground arith

IsPrev-prev_from :
    (p v w : ℕ) (xs : List ℕ)
    → Ascending (p ∷ xs)
    → IsPrev (Member (p ∷ xs)) v w
    → prev_from p v xs ≡ some w
IsPrev-prev_from p v w [] s n =
    absurd (omega (arith, n.below, head_le p [] s.0 w n.to, alone n.from))
  where
    alone : In v (p ∷ []) → v ≡ p
    alone (inl e) = e
    alone (inr i) = absurd i
IsPrev-prev_from p v w (x ∷ xs) s n = elim (Bool-cases (x == v)) [
  | inl hit ↦
      let e : p ≡ w =
        IsPrev-head p x w xs s.1.0
          (subst (λ (u : ℕ). IsPrev (Member (p ∷ x ∷ xs)) u w) (sym ((==_iff x v).0 hit)) n) in
      rw (hit, prev_from) (cc e)
  | inr miss ↦
      rw (miss, prev_from)
        (IsPrev-prev_from x v w xs s.1
          (IsPrev-tail p v w x xs s.0.0 (past_head p v w x xs s n miss) n))
]

pub prev_in-IsPrev :
    (v w : ℕ) (xs : List ℕ) → Ascending xs → prev_in v xs ≡ some w → IsPrev (Member xs) v w
prev_in-IsPrev v w [] s e = cc
prev_in-IsPrev v w (x ∷ xs) s e = prev_from-IsPrev x v w xs s e

pub IsPrev-prev_in :
    (v w : ℕ) (xs : List ℕ) → Ascending xs → IsPrev (Member xs) v w → prev_in v xs ≡ some w
IsPrev-prev_in v w [] s n = absurd n.from
IsPrev-prev_in v w (x ∷ xs) s n = IsPrev-prev_from x v w xs s n
