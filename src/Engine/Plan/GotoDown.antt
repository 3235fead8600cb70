-- ===== src/Engine/Plan/GotoDown.antt =====
-- `read`, behind the method `Migrate`, on the way down to a target.
use migrate.Prelude.{
  ℕ, zero, suc, ◌<◌, ◌≡◌, refl, ap, subst, ◌∙◌, inl, inr, ℤ, pos, negsuc, minus_one, to_int_small,
  ltb_ℤ, eqb_ℤ, Bool, true, false, Option, none, some, List, [], ◌∷◌, if◌then◌else◌, arith, head?,
  length, Bool-cases, Option-cases, lt→ltb, ltb→lt,
}
use migrate.Errors.{Result, ok, err}
use migrate.Source.Sort.{In, Ascending}
use migrate.Source.Migrations.Order.{prev_in}
use migrate.Source.Migrations.Neighbours.Next.{head_le}
use migrate.Engine.Util.{suint}
use migrate.Engine.Feed.{Feed, finish, send, Signals, stopped, later}
use migrate.Engine.Read.{Env, check_version, backward_from, backward_step, backward, read}
use migrate.Engine.Plan.{Serves, Answers, down_plan, descent, down_plans, feed_of, until_stop}
use migrate.Engine.Plan.Source.{new_migration_down, version_exists_held}
use migrate.Engine.Plan.Descent.{
  descent-first, descent-prev, prev-In, prev-lt, head?-first, length-descent,
}

-- The way down as far as a target.
abbrev pub down_to : ℤ → List (ℕ × ℤ) → List (ℕ × ℤ)
down_to to [] = []
down_to to ((v, target) ∷ ps) = if ltb_ℤ to (pos v) then (v, target) ∷ down_to to ps else []

-- A version of the source, or the nil version.
abbrev pub IsTarget : ℤ → List ℕ → Type 0
IsTarget (pos t) vs = In t vs
IsTarget (negsuc n) vs = n ≡ 0

-- Only the nil version lies below the first one.
pub below_first :
    (to : ℤ) (v : ℕ) (vs : List ℕ)
    → Ascending vs
    → IsTarget to vs
    → head? vs ≡ some v
    → ltb_ℤ to (pos v) ≡ true
    → eqb_ℤ to minus_one ≡ true
below_first (pos t) v [] s i h lt = cc
below_first (pos t) v (x ∷ xs) s i h lt =
    absurd (omega (arith, head_le x xs s.0 t i, ltb→lt t v lt, xv))
  where
    xv : x ≡ v
    xv = ground arith
below_first (negsuc n) v vs s i h lt = ground arith

pub check_version_target :
    (env : Env) (vs : List ℕ)
    → Serves env.source_drv vs
    → (to : ℤ) (k : Feed) → IsTarget to vs
    → check_version env to k ≡ k
unfolding check_version
check_version_target env vs s (pos t) k i = rw (version_exists_held env vs s t i)
check_version_target env vs s (negsuc n) k i = refl

order :
    (to : ℤ) (v : ℕ)
    → ltb_ℤ to (pos v) ≡ true
    → (eqb_ℤ (pos v) to ≡ false) × (ltb_ℤ (pos v) to ≡ false)
order (pos t) v h = (ground arith, ground arith)
order (negsuc n) v h = (refl, refl)

module _ (env : Env) (vs : List ℕ) (s : Serves env.source_drv vs) (to : ℤ)
    (at : IsTarget to vs) where
  prev-Answers : (v : ℕ) (o : Option ℕ) → prev_in v vs ≡ o → Answers (env.source_drv.prev v) o
  prev-Answers v o e = subst (Answers (env.source_drv.prev v)) e (s.prev_is v)

  backward_from-found :
      (again : ℤ → Feed) (v q : ℕ) (r : Result ℕ)
      → In v vs
      → In q vs
      → q < v
      → Answers r (some q)
      → backward_from env to again v r ≡ send (down_plan env.source_drv v (pos q)) (again (pos q))
  unfolding backward_from
  backward_from-found again v q (err e) i j lt a = absurd a
  backward_from-found again v q (ok p) i j lt a =
      rw (a, to_int_small q (s.small q j), new_migration_down env vs s v (pos q) i (lt→ltb q v lt))

  backward_from-first :
      (again : ℤ → Feed) (v : ℕ) (r : Result ℕ)
      → In v vs
      → eqb_ℤ to minus_one ≡ true
      → Answers r none
      → backward_from env to again v r ≡ send (down_plan env.source_drv v minus_one) finish
  unfolding backward_from
  backward_from-first again v (ok p) i h a = absurd a
  backward_from-first again v (err e) i h a =
      rw (a, h, new_migration_down env vs s v minus_one i refl)

  backward_step-at :
      (again : ℤ → Feed) (stop : Bool) (v : ℕ)
      → backward_step env to again stop (pos v) ≡ (
          if ltb_ℤ to (pos v)
          then if stop then finish else backward_from env to again v (env.source_drv.prev v)
          else finish)
  unfolding backward_step suint
  backward_step-at again stop v = ground arith

  -- Downwards the loop of `read` sends the way down as far as the target.
  backward-descent :
      (fuel : ℕ) (signals : Signals) (v : ℕ)
      → In v vs
      → length (descent v vs) < fuel
      → backward env to fuel signals (pos v)
        ≡ feed_of (until_stop signals (down_plans env.source_drv (down_to to (descent v vs))))
  unfolding backward until_stop
  backward-descent zero signals v i f = absurd (omega arith)
  backward-descent (suc fuel) signals v i f =
      let again : ℤ → Feed = backward env to fuel (later signals) in
      elim (Option-cases (prev_in v vs)) [
        | inl e ↦ rw (descent-first v vs s.ascending i e) (
            backward_step-at again (stopped (signals 0)) v ∙ elim (Bool-cases (ltb_ℤ to (pos v))) [
              | inr h ↦ rw h
              | inl h ↦
                  let nil = below_first to v vs s.ascending at (head?-first v vs i e) h in
                  elim (Bool-cases (stopped (signals 0))) [
                    | inl h' ↦ rw (h, h')
                    | inr h' ↦
                        rw (h, h', backward_from-first again v _ i nil (prev-Answers v none e))
                  ]
            ])
        | inr (q, e) ↦
            let j : In q vs = prev-In v vs s.ascending q e in
            let shorter : length (descent q vs) < fuel =
              omega (arith, ap length (descent-prev v vs s.ascending q e)) in
            rw (descent-prev v vs s.ascending q e) (
              backward_step-at again (stopped (signals 0)) v
              ∙ elim (Bool-cases (ltb_ℤ to (pos v))) [
                | inr h ↦ rw h
                | inl h ↦ elim (Bool-cases (stopped (signals 0))) [
                  | inl h' ↦ rw (h, h')
                  | inr h' ↦ rw (
                    h,
                    h',
                    backward_from-found again v q _ i j (prev-lt v vs s.ascending q e)
                        (prev-Answers v (some q) e),
                    backward-descent fuel (later signals) q j shorter,
                  )
                ]
              ])
      ]

  -- On a source that keeps its contract (Serves), from one of its versions to a lower one or to the
  -- nil version, with more fuel than versions, `read` sends the down migrations from the first as
  -- far as the target, until a stop signal, and closes the channel.
  pub read-down_to :
      (v fuel : ℕ) (signals : Signals)
      → In v vs
      → ltb_ℤ to (pos v) ≡ true
      → length vs < fuel
      → read env (pos v) to fuel signals
        ≡ feed_of (until_stop signals (down_plans env.source_drv (down_to to (descent v vs))))
  unfolding read
  read-down_to v fuel signals i lt f =
      let (ne, ge) = order to v lt in
      check_version_target env vs s (pos v) _ i
      ∙ check_version_target env vs s to _ at
      ∙ rw (ne, ge) (backward-descent fuel signals v i (omega (arith, length-descent v vs)))
