-- ===== src/Source/Migrations/Neighbours.antt =====
-- `First`, `Next` and `Prev` of source/migration.go stated over the set of versions that a source
-- has, with no mention of the index.
pub mod Next
pub mod Prev
use migrate.Prelude.{
  ℕ, ◌≤◌, ◌≡◌, ◌≢◌, ◌↔◌, inl, inr, refl, sym, ap, ◌∙◌, List, [], ◌∷◌, Option, none, some, arith,
  head?, get_elem?, Option-cases, subst,
}
use migrate.Prelude.Map.{get, keys, nat_eq}
use migrate.Source.Sort.{sort, In, Above, Ascending, sort-Ascending, In-sort, sort-In}
use migrate.Source.Migrations.{Migrations, first, next, prev}
use migrate.Source.Migrations.Index.{IsValid, get-In, In-get}
use migrate.Source.Migrations.Order.{next_in, prev_in, next-next_in, prev-prev_in}
use Next.{IsNext, Member, head_le, next_in-IsNext, IsNext-next_in}
use Prev.{IsPrev, prev_in-IsPrev, IsPrev-prev_in}

-- Some migration of version `v` was appended.
abbrev pub Has : Migrations → ℕ → Type 0
Has i v = get v i.migrations ≢ none

head?-get_elem? : (xs : List ℕ) → head? xs ≡ get_elem? xs 0
head?-get_elem? [] = refl
head?-get_elem? (x ∷ xs) = refl

pub first-head? : (i : Migrations) → head? i.index ≡ first i
unfolding first
first-head? i = head?-get_elem? i.index

first_least :
    (xs : List ℕ) (w : ℕ) → Ascending xs → head? xs ≡ some w → In w xs × ((u : ℕ) → In u xs → w ≤ u)
first_least [] w s e = cc
first_least (x ∷ xs) w s e =
    let xw : x ≡ w = ground arith in (inl (sym xw), λ u m. omega (arith, head_le x xs s.0 u m))

least_first :
    (xs : List ℕ) (w : ℕ) → Ascending xs → In w xs → ((u : ℕ) → In u xs → w ≤ u) → head? xs ≡ some w
least_first [] w s m le = absurd m
least_first (x ∷ xs) w s m le =
    let e : x ≡ w = omega (arith, head_le x xs s.0 w m, le x (inl refl)) in cc e

module _ (i : Migrations) (h : IsValid i) where
  pub index-Ascending : Ascending i.index
  index-Ascending = rw h.indexed (sort-Ascending (keys i.migrations) h.distinct)

  pub Has-In : (v : ℕ) → Has i v → In v i.index
  Has-In v n = elim (Option-cases (get v i.migrations)) [
    | inl e ↦ absurd (n e)
    | inr (t, e) ↦ rw h.indexed (sort-In v (keys i.migrations) (get-In v i.migrations t e))
  ]

  pub In-Has : (v : ℕ) → In v i.index → Has i v
  In-Has v m = In-get v i.migrations (In-sort v (keys i.migrations) (rw h.indexed at m))

  -- On a valid index, Next returns `w` for `v` exactly when both are versions of the source and `w`
  -- is the least one above `v`.
  pub next_lem : (v w : ℕ) → (next i v ≡ some w) ↔ IsNext (Has i) v w
  next_lem v w = (
    (λ e.
        let n =
          next_in-IsNext v w i.index index-Ascending (sym (next-next_in i index-Ascending v) ∙ e) in
        record {
          from = In-Has v n.from;
          to = In-Has w n.to;
          above = n.above;
          least = λ u k lt. n.least u (Has-In u k) lt;
        }),
    (λ n.
        next-next_in i index-Ascending v
        ∙ IsNext-next_in v w i.index index-Ascending (record {
          from = Has-In v n.from;
          to = Has-In w n.to;
          above = n.above;
          least = λ u k lt. n.least u (In-Has u k) lt;
        })),
  )

  -- On a valid index, Prev returns `w` for `v` exactly when both are versions of the source and `w`
  -- is the greatest one below `v`.
  pub prev_lem : (v w : ℕ) → (prev i v ≡ some w) ↔ IsPrev (Has i) v w
  prev_lem v w = (
    (λ e.
        let n =
          prev_in-IsPrev v w i.index index-Ascending (sym (prev-prev_in i index-Ascending v) ∙ e) in
        record {
          from = In-Has v n.from;
          to = In-Has w n.to;
          below = n.below;
          greatest = λ u k lt. n.greatest u (Has-In u k) lt;
        }),
    (λ n.
        prev-prev_in i index-Ascending v
        ∙ IsPrev-prev_in v w i.index index-Ascending (record {
          from = Has-In v n.from;
          to = Has-In w n.to;
          below = n.below;
          greatest = λ u k lt. n.greatest u (In-Has u k) lt;
        })),
  )

  -- On a valid index, First returns `w` exactly when `w` is the least version of the source.
  pub first_lem : (w : ℕ) → (first i ≡ some w) ↔ (Has i w × ((u : ℕ) → Has i u → w ≤ u))
  first_lem w = (
    (λ e.
        let (m, le) = first_least i.index w index-Ascending (first-head? i ∙ e) in
        (In-Has w m, λ u k. le u (Has-In u k))),
    (λ n.
        sym (first-head? i)
        ∙ least_first i.index w index-Ascending (Has-In w n.0) (λ u k. n.1 u (In-Has u k))),
  )

  -- On a valid index, for all versions v and w: First returns `w` exactly when it is the least version of the
  -- source, Next returns `w` for `v` exactly when both are versions of the source and `w` is the least one above
  -- `v`, and Prev exactly when both are and `w` is the greatest one below `v`.
  pub neighbours_lem :
      (v w : ℕ)
      → ((first i ≡ some w) ↔ (Has i w × ((u : ℕ) → Has i u → w ≤ u)))
        × (((next i v ≡ some w) ↔ IsNext (Has i) v w) × ((prev i v ≡ some w) ↔ IsPrev (Has i) v w))
  neighbours_lem v w = (first_lem w, (next_lem v w, prev_lem v w))
