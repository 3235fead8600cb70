-- ===== src/Engine/Plan/Undo.antt =====
-- The way down to a version undoes the way up from it.
use migrate.Prelude.{
  ℕ, ◌<◌, ◌≡◌, refl, sym, ap, ◌∙◌, inl, inr, ℤ, pos, minus_one, true, false, List, [], ◌∷◌, ◌++◌,
  ◌==◌, ==_iff, leb, ltb, lt→ltb, arith, Bool-cases,
}
use mathlib.Core.List.{reverse, reverse-cons, append_assoc, append-nil}
use migrate.Source.Sort.{In, Above, Ascending, In-Above}
use migrate.Engine.Plan.{suffix_after, descend, descent}
use migrate.Engine.Plan.GotoUp.{up_to}
use migrate.Engine.Plan.GotoDown.{down_to}

abbrev pub versions : List (ℕ × ℤ) → List ℕ
versions [] = []
versions ((v, target) ∷ ps) = v ∷ versions ps

up_to-Above : (t : ℕ) (xs : List ℕ) → Above t xs → up_to t xs ≡ []
up_to-Above t [] a = refl
up_to-Above t (x ∷ xs) a = ground arith

reverse-onto : (x : ℕ) (xs acc : List ℕ) → reverse (x ∷ xs) ++ acc ≡ reverse xs ++ x ∷ acc
reverse-onto x xs acc =
    ap (λ l. l ++ acc) (reverse-cons x xs) ∙ append_assoc (reverse xs) (x ∷ []) acc

-- Above `v` the descent only adds to what it has.
descend-Above :
    (v t : ℕ) (target : ℤ) (below : List (ℕ × ℤ)) (xs : List ℕ)
    → Above v xs
    → Ascending xs
    → In t xs
    → versions (down_to (pos v) (descend below target t xs))
      ≡ reverse (up_to t xs) ++ versions (down_to (pos v) below)
descend-Above v t target below [] a s i = absurd i
descend-Above v t target below (x ∷ xs) a s i = elim (Bool-cases (x == t)) [
  | inl h ↦
      let eq : x ≡ t = (==_iff x t).0 h in
      let le : leb x t ≡ true = ground arith in
      let rest : up_to t xs ≡ [] = up_to-Above t xs (rw eq at s.0) in
      rw (h, le, rest, lt→ltb v x a.0) refl
  | inr h ↦
      let below' = (x, target) ∷ below in
      let j : In t xs = ground arith in
      let le : leb x t ≡ true = ground (arith, In-Above {v = x} {w = t} xs s.0 j) in
      rw (h, le)
        (descend-Above v t (pos x) ((x, target) ∷ below) xs a.1 s.1 j
          ∙ rw (lt→ltb v x a.0)
              (sym (reverse-onto x (up_to t xs) (versions (down_to (pos v) below)))))
]

descend-from :
    (v t : ℕ) (target : ℤ) (below : List (ℕ × ℤ)) (xs : List ℕ)
    → Ascending xs
    → In v xs
    → In t xs
    → v < t
    → versions (down_to (pos v) (descend below target t xs)) ≡ reverse (up_to t (suffix_after v xs))
descend-from v t target below [] s i j lt = absurd i
descend-from v t target below (x ∷ xs) s i j lt = elim (Bool-cases (x == v)) [
  | inl h ↦
      let eq : x ≡ v = (==_iff x v).0 h in
      let nt : (x == t) ≡ false = ground arith in
      let nv : ltb v x ≡ false = ground arith in
      let j' : In t xs = ground arith in
      rw (h, nt)
        (descend-Above v t (pos x) ((x, target) ∷ below) xs (rw eq at s.0) s.1 j'
          ∙ rw nv (append-nil (reverse (up_to t xs))))
  | inr h ↦
      let i' : In v xs = ground arith in
      let lv : x < v = In-Above {v = x} {w = v} xs s.0 i' in
      let nt : (x == t) ≡ false = ground arith in
      let j' : In t xs = ground arith in
      rw (h, nt) (descend-from v t (pos x) ((x, target) ∷ below) xs s.1 i' j' lt)
]

-- Between two versions of an ascending list, the way down from the upper to the lower one goes
-- through the versions of the way up, in the opposite order.
pub undo :
    (v t : ℕ) (vs : List ℕ)
    → Ascending vs
    → In v vs
    → In t vs
    → v < t
    → versions (down_to (pos v) (descent t vs)) ≡ reverse (up_to t (suffix_after v vs))
undo v t vs s i j lt = descend-from v t minus_one [] vs s i j lt
