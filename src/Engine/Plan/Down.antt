-- ===== src/Engine/Plan/Down.antt =====
-- The rounds of `readDown` on a source that keeps its contract.
use migrate.Prelude.{
  ℕ, zero, suc, ◌+◌, ◌≤◌, ◌<◌, ◌≡◌, refl, ap, subst, ◌∙◌, inl, inr, ℤ, pos, minus_one, to_int_small,
  ltb_ℤ, eqb_ℤ, ◌-ℤ◌, Bool, true, false, ◌||◌, Option, none, some, List, [], ◌∷◌, if◌then◌else◌,
  arith, head?, length, Bool-cases, Option-cases, lt→ltb,
}
use migrate.Errors.{Result, ok, err}
use migrate.Source.Driver
use migrate.Source.Sort.{In}
use migrate.Source.Migrations.Order.{prev_in}
use migrate.Engine.Util.{suint}
use migrate.Engine.Feed.{Feed, finish, send, Signals, stopped, later}
use migrate.Engine.Read.{Env, check_version}
use migrate.Engine.ReadLimit.{
  within, down_short, down_first, down_prev, down_step, down_loop, read_down,
}
use migrate.Engine.Plan.{Serves, Answers, down_plan, descent, down_rounds}
use migrate.Engine.Plan.Source.{Answers-ok, new_migration_down, version_exists_held}
use migrate.Engine.Plan.Descent.{
  descent-first, descent-prev, descent-cons, prev-In, prev-lt, head?-first,
}

within_room :
    (limit : ℤ) (count : ℕ)
    → within count limit ≡ true
    → (eqb_ℤ limit minus_one || ltb_ℤ (pos 0) (limit -ℤ pos count)) ≡ true
unfolding ◌-ℤ◌
within_room limit count h = ground arith

down_rounds-cons :
    (drv : Driver.Driver) (limit : ℤ) (signals : Signals) (v : ℕ) (target : ℤ) (p : ℕ × ℤ)
    (rest ps : List (ℕ × ℤ)) (count : ℕ)
    → ps ≡ p ∷ rest
    → down_rounds drv limit signals ((v, target) ∷ ps) count ≡ (
        if within count limit
        then if stopped (signals 0)
          then finish
          else send (down_plan drv v target) (down_rounds drv limit (later signals) ps (count + 1))
        else finish)
unfolding down_rounds
down_rounds-cons drv limit signals v target p rest [] count e = cc
down_rounds-cons drv limit signals v target p rest ((w, u) ∷ ws) count e = refl

module _ (env : Env) (vs : List ℕ) (s : Serves env.source_drv vs) (limit : ℤ) where
  down_step-at :
      (again : ℤ → ℕ → Feed) (stop : Bool) (v count : ℕ)
      → down_step env limit again stop (pos v) count ≡ (
          if within count limit
          then if stop then finish else down_prev env limit again count v (env.source_drv.prev v)
          else finish)
  unfolding down_step suint
  down_step-at again stop v count = refl

  down_prev-found :
      (again : ℤ → ℕ → Feed) (count v q : ℕ) (r : Result ℕ)
      → In v vs
      → In q vs
      → q < v
      → Answers r (some q)
      → down_prev env limit again count v r
        ≡ send (down_plan env.source_drv v (pos q)) (again (pos q) (count + 1))
  unfolding down_prev
  down_prev-found again count v q (err e) i j lt a = absurd a
  down_prev-found again count v q (ok p) i j lt a =
      rw (a, to_int_small q (s.small q j), new_migration_down env vs s v (pos q) i (lt→ltb q v lt))

  down_prev-first :
      (again : ℤ → ℕ → Feed) (count v : ℕ) (r : Result ℕ)
      → In v vs
      → head? vs ≡ some v
      → within count limit ≡ true
      → Answers r none
      → down_prev env limit again count v r
        ≡ send (down_plan env.source_drv v minus_one) (down_short limit (count + 1))
  unfolding down_prev down_first
  down_prev-first again count v (ok p) i h w a = absurd a
  down_prev-first again count v (err e) i h w a =
      let f : env.source_drv.first ≡ ok v =
        Answers-ok env.source_drv.first v (subst (Answers env.source_drv.first) h s.first_is) in
      rw (a, within_room limit count w)
        (simp f (rw (new_migration_down env vs s v minus_one i refl)))

  prev-Answers : (v : ℕ) (o : Option ℕ) → prev_in v vs ≡ o → Answers (env.source_drv.prev v) o
  prev-Answers v o e = subst (Answers (env.source_drv.prev v)) e (s.prev_is v)

  down_loop-down_rounds :
      (fuel : ℕ) (signals : Signals) (v count : ℕ)
      → In v vs
      → length (descent v vs) ≤ fuel
      → down_loop env limit fuel signals (pos v) count
        ≡ down_rounds env.source_drv limit signals (descent v vs) count
  unfolding down_loop down_rounds
  down_loop-down_rounds zero signals v count i f =
      let (target, rest, e) = descent-cons v vs s.ascending i in absurd (omega (arith, ap length e))
  down_loop-down_rounds (suc fuel) signals v count i f = elim (Option-cases (prev_in v vs)) [
    | inl e ↦
        let h = head?-first v vs i e in
        rw (descent-first v vs s.ascending i e) (
          down_step-at (down_loop env limit fuel (later signals)) (stopped (signals 0)) v count
          ∙ elim (Bool-cases (within count limit)) [
            | inl w ↦ rw (
              w,
              down_prev-first (down_loop env limit fuel (later signals)) count v _ i h w
                  (prev-Answers v none e),
            )
            | inr w ↦ rw w
          ])
    | inr (q, e) ↦
        let j : In q vs = prev-In v vs s.ascending q e in
        let (target, rest, c) = descent-cons q vs s.ascending j in
        let shorter : length (descent q vs) ≤ fuel =
          omega (arith, ap length (descent-prev v vs s.ascending q e)) in
        down_step-at (down_loop env limit fuel (later signals)) (stopped (signals 0)) v count
        ∙ rw (
          down_prev-found (down_loop env limit fuel (later signals)) count v q _ i j
              (prev-lt v vs s.ascending q e) (prev-Answers v (some q) e),
          down_loop-down_rounds fuel (later signals) q (count + 1) j shorter,
          descent-prev v vs s.ascending q e,
          down_rounds-cons env.source_drv limit signals v (pos q) (q, target) rest (descent q vs)
              count c,
        )
  ]

  -- The feed of readDown on a source that keeps its contract, round by round.
  pub read_down-down_rounds :
      (v fuel : ℕ) (signals : Signals)
      → In v vs
      → eqb_ℤ limit (pos 0) ≡ false
      → length (descent v vs) ≤ fuel
      → read_down env (pos v) limit fuel signals
        ≡ down_rounds env.source_drv limit signals (descent v vs) 0
  unfolding read_down check_version
  read_down-down_rounds v fuel signals i l f =
      rw (version_exists_held env vs s v i, l) (down_loop-down_rounds fuel signals v 0 i f)
