-- ===== src/Engine/OnStub/Reached.antt =====
-- The version that a database is left at after the planned migrations ran.
use migrate.Prelude.{
  ℕ, zero, suc, ◌≤◌, ◌<◌, ◌≡◌, refl, sym, ap, subst, ◌∙◌, inl, inr, ℤ, pos, negsuc, minus_one,
  ltb_ℤ, true, false, Bytes, some, List, [], ◌∷◌, arith, leb, length, Bool-cases, Option-cases,
  eqb_ℤ, ltb→lt, ltb→le,
}
use migrate.Errors.{Result, ok, err}
use migrate.Source.Driver
use migrate.Source.Driver.{Body}
use migrate.Source.Sort.{In, Above, Ascending, In-Above}
use migrate.Source.Migrations.Order.{prev_in}
use migrate.Source.Migrations.Neighbours.Prev.{prev_in-IsPrev}
use migrate.Database.Stub.{Stub}
use migrate.Engine.Migration.{Migration, new_migration}
use migrate.Engine.Plan.{planned, up_plan, down_plan, up_plans, down_plans, descent}
use migrate.Engine.Plan.GotoUp.{up_to}
use migrate.Engine.Plan.GotoDown.{down_to, IsTarget, below_first}
use migrate.Engine.Plan.Descent.{descent-first, descent-prev, descent-cons, prev-In, head?-first}
use migrate.Engine.OnStub.{ran, ran_all}

pub planned-target :
    (r : Result (Body × Bytes)) (v : ℕ) (target : ℤ) → (planned r v target).target_version ≡ target
unfolding new_migration
planned-target (ok (body, identifier)) v target = refl
planned-target (err e) v target = refl

ran-version : (m : Migration) (st : Stub) → (ran m st).current_version ≡ m.target_version
unfolding ran
ran-version m st = refl

up_to-none : (t : ℕ) (ws : List ℕ) → Above t ws → up_to t ws ≡ []
up_to-none t [] a = refl
up_to-none t (w ∷ ws) a = ground arith

leb_of_eq : (w t : ℕ) → w ≡ t → leb w t ≡ true
leb_of_eq w t e = ground arith

leb_of_lt : (w t : ℕ) → w < t → leb w t ≡ true
leb_of_lt w t h = ground arith

Above-eq : (w t : ℕ) (ws : List ℕ) → w ≡ t → Above w ws → Above t ws
Above-eq w t ws e a = subst (λ (u : ℕ). Above u ws) e a

module _ (drv : Driver.Driver) (t : ℕ) where
  -- Running the migrations up to a target ends at the target.
  pub up_to-version :
      (ws : List ℕ) (st : Stub)
      → Ascending ws
      → In t ws
      → (ran_all (up_plans drv (up_to t ws)) st).current_version ≡ pos t
  unfolding ran_all
  up_to-version [] st s i = absurd i
  up_to-version (w ∷ ws) st s (inl e) =
      rw (leb_of_eq w t (sym e), up_to-none t ws (Above-eq w t ws (sym e) s.0))
        (ran-version (up_plan drv w) st ∙ planned-target (drv.read_up w) w (pos w) ∙ ap pos (sym e))
  up_to-version (w ∷ ws) st s (inr i) =
      rw (leb_of_lt w t (In-Above ws s.0 i)) (up_to-version ws (ran (up_plan drv w) st) s.1 i)

eq_of_eqb : (to : ℤ) → eqb_ℤ to minus_one ≡ true → to ≡ minus_one
eq_of_eqb (pos t) h = cc
eq_of_eqb (negsuc n) h = ground arith

down_to-none :
    (to : ℤ) (q : ℕ) (vs : List ℕ)
    → Ascending vs
    → In q vs
    → ltb_ℤ to (pos q) ≡ false
    → down_to to (descent q vs) ≡ []
down_to-none to q vs s j done = let (target, rest, c) = descent-cons q vs s j in rw (c, done)

-- A target that is below a version and not below the one before it is that one.
between :
    (to : ℤ) (v q : ℕ) (vs : List ℕ)
    → Ascending vs
    → IsTarget to vs
    → ltb_ℤ to (pos v) ≡ true
    → prev_in v vs ≡ some q
    → ltb_ℤ to (pos q) ≡ false
    → to ≡ pos q
between (negsuc n) v q vs s at lt e done = cc
between (pos t) v q vs s at lt e done =
    let le : t ≤ q = (prev_in-IsPrev v q vs s e).greatest t at (ltb→lt t v lt) in
    ap pos (omega (arith, le, ltb→le t q done))

module _ (drv : Driver.Driver) (vs : List ℕ) (s : Ascending vs) (to : ℤ) (at : IsTarget to vs) where
  -- Running the migrations down to a target ends at the target.
  pub down_to-version :
      (fuel v : ℕ) (st : Stub)
      → length (descent v vs) < fuel
      → In v vs
      → ltb_ℤ to (pos v) ≡ true
      → (ran_all (down_plans drv (down_to to (descent v vs))) st).current_version ≡ to
  unfolding ran_all
  down_to-version zero v st f i lt = absurd (omega arith)
  down_to-version (suc fuel) v st f i lt = elim (Option-cases (prev_in v vs)) [
    | inl e ↦
        rw (descent-first v vs s i e, lt)
          (ran-version (down_plan drv v minus_one) st
            ∙ planned-target (drv.read_down v) v minus_one
            ∙ sym (eq_of_eqb to (below_first to v vs s at (head?-first v vs i e) lt)))
    | inr (q, e) ↦
        let st' : Stub = ran (down_plan drv v (pos q)) st in
        let j : In q vs = prev-In v vs s q e in
        rw (descent-prev v vs s q e, lt)
          (elim (Bool-cases (ltb_ℤ to (pos q))) [
            | inl more ↦
                down_to-version fuel q st' (omega (arith, ap length (descent-prev v vs s q e))) j
                  more
            | inr done ↦ rw (down_to-none to q vs s j done) (
                ran-version (down_plan drv v (pos q)) st
                ∙ planned-target (drv.read_down v) v (pos q)
                ∙ sym (between to v q vs s at lt e done))
          ])
  ]
