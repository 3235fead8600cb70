-- ===== src/Engine/Plan/Limits.antt =====
-- What the rounds of `readUp` and `readDown` come to: the migrations that the limit leaves, and what is missing.
use migrate.Prelude.{
  ℕ, zero, suc, ◌+◌, ◌-◌, ◌≤◌, ◌<◌, ◌≡◌, refl, ◌∙◌, ap, inl, inr, ℤ, pos, negsuc, minus_one, eqb_ℤ,
  Bool, true, false, Option, none, List, [], ◌∷◌, map, ◌==◌, if◌then◌else◌, arith, length, take,
  ltb, Bool-cases,
}
use migrate.Errors.{Error}
use migrate.Source.Driver
use migrate.Source.Sort.{In}
use migrate.Engine.ReadLimit.{reached_end, down_short, read_up, read_down}
use migrate.Engine.Feed.{migration, Signals, stopped, later}
use migrate.Engine.Read.{Env}
use migrate.Engine.Plan.{
  Serves, above, descent, up_rounds, down_rounds, up_plans, down_plans, until_stop, stops_within,
  up_error, down_error, ended_by, up_missing, up_spec, down_spec,
}
use migrate.Engine.Plan.Short.{
  reached_end-short, down_short-ended_by, up_error-none, down_error-none, take-nil, take-suc,
}
use migrate.Engine.Plan.Up.{IsCurrent, read_up-up_rounds}
use migrate.Engine.Plan.Descent.{descent-cons}
use migrate.Engine.Plan.Down.{read_down-down_rounds}

-- Nothing is missing, whether a stop signal came or not.
none_missing : (b : Bool) (e : Option Error) → none ≡ e → none ≡ (if b then none else e)
none_missing true e h = refl
none_missing false e h = h

module _ (drv : Driver.Driver) where
  pub up_rounds-limited :
      (n : ℕ) (ws : List ℕ) (signals : Signals) (count : ℕ)
      → up_rounds drv (pos n) signals ws count
        ≡ ended_by (map migration (until_stop signals (up_plans drv (take (n - count) ws)))) (
            if stops_within signals (suc (length ws)) then none else up_error n (count + length ws))
  unfolding up_rounds until_stop stops_within
  up_rounds-limited n [] signals count = elim (Bool-cases (ltb count n)) [
    | inl h ↦ elim (Bool-cases (stopped (signals 0))) [
      | inl s ↦ rw (h, take-nil {A = ℕ} (n - count), s) refl
      | inr s ↦
          let lt : count < n = ground arith in
          rw (h, take-nil {A = ℕ} (n - count), s, reached_end-short n count lt)
            (ap (λ k. ended_by [] (up_error n k)) (omega arith))
    ]
    | inr h ↦
        rw (h, take-nil {A = ℕ} (n - count))
          (ap (ended_by []) (none_missing _ _ (up_error-none n (count + 0) (ground arith))))
  ]
  up_rounds-limited n (w ∷ ws) signals count = elim (Bool-cases (ltb count n)) [
    | inl h ↦
        let lt : count < n = ground arith in
        let same : count + 1 + length ws ≡ count + suc (length ws) = omega arith in
        elim (Bool-cases (stopped (signals 0))) [
          | inl s ↦ rw (h, take-suc n count w ws lt, s) refl
          | inr s ↦
              rw
                (
                  h,
                  take-suc n count w ws lt,
                  s,
                  up_rounds-limited n ws (later signals) (count + 1),
                  same,
                )
                refl
        ]
    | inr h ↦
        let z : n - count ≡ 0 = ground arith in
        rw (h, z)
          (ap (ended_by [])
            (none_missing _ _ (up_error-none n (count + suc (length ws)) (ground arith))))
  ]

  up_rounds-all :
      (ws : List ℕ) (signals : Signals) (count : ℕ)
      → up_rounds drv minus_one signals ws count
        ≡ ended_by (map migration (until_stop signals (up_plans drv ws))) (
            if stops_within signals (suc (length ws))
            then none
            else up_missing minus_one (count + length ws))
  unfolding up_rounds until_stop stops_within reached_end
  up_rounds-all [] signals zero = elim (Bool-cases (stopped (signals 0))) [
    | inl s ↦ rw s refl
    | inr s ↦ rw s refl
  ]
  up_rounds-all [] signals (suc count) = elim (Bool-cases (stopped (signals 0))) [
    | inl s ↦ rw s refl
    | inr s ↦
        let same : suc count + 0 ≡ suc count = omega arith in
        let some_there : (suc count == 0) ≡ false = ground arith in rw (s, same, some_there) refl
  ]
  up_rounds-all (w ∷ ws) signals count = elim (Bool-cases (stopped (signals 0))) [
    | inl s ↦ rw s refl
    | inr s ↦
        let same : count + 1 + length ws ≡ count + suc (length ws) = omega arith in
        rw (s, up_rounds-all ws (later signals) (count + 1), same) refl
  ]

  up_rounds-none :
      (n : ℕ) (ws : List ℕ) (signals : Signals) (count : ℕ)
      → up_rounds drv (negsuc (suc n)) signals ws count ≡ ended_by [] none
  unfolding up_rounds
  up_rounds-none n [] signals count =
      let below : (suc n == 0) ≡ false = ground arith in rw below refl
  up_rounds-none n (w ∷ ws) signals count =
      let below : (suc n == 0) ≡ false = ground arith in rw below refl

  up_rounds-up_spec :
      (limit : ℤ) (signals : Signals) (ws : List ℕ)
      → up_rounds drv limit signals ws 0 ≡ up_spec drv limit signals ws
  unfolding up_spec until_stop
  up_rounds-up_spec (pos n) signals ws =
      let y : n - 0 ≡ n = omega arith in
      let z : 0 + length ws ≡ length ws = omega arith in
      rw (y, z) at (up_rounds-limited n ws signals 0)
  up_rounds-up_spec (negsuc zero) signals ws =
      let z : 0 + length ws ≡ length ws = omega arith in rw z at (up_rounds-all ws signals 0)
  up_rounds-up_spec (negsuc (suc n)) signals ws =
      up_rounds-none n ws signals 0
      ∙ ap (ended_by []) (none_missing (stops_within signals (suc (length ws))) none refl)

  pub down_rounds-limited :
      (n : ℕ) (p : ℕ × ℤ) (ps : List (ℕ × ℤ)) (signals : Signals) (count : ℕ)
      → down_rounds drv (pos n) signals (p ∷ ps) count
        ≡ ended_by
            (map migration (until_stop signals (down_plans drv (take (n - count) (p ∷ ps)))))
            (if stops_within signals (length (p ∷ ps))
              then none
              else down_error n (count + length (p ∷ ps)))
  unfolding down_rounds until_stop stops_within
  down_rounds-limited n (v, target) [] signals count = elim (Bool-cases (ltb count n)) [
    | inl h ↦
        let lt : count < n = ground arith in
        let tail = take-nil {A = ℕ × ℤ} (n - (count + 1)) in
        elim (Bool-cases (stopped (signals 0))) [
          | inl s ↦ rw (h, take-suc {A = ℕ × ℤ} n count (v, target) [] lt, tail, s) refl
          | inr s ↦
              rw
                (
                  h,
                  take-suc {A = ℕ × ℤ} n count (v, target) [] lt,
                  tail,
                  s,
                  down_short-ended_by n (count + 1),
                )
                refl
        ]
    | inr h ↦
        let z : n - count ≡ 0 = ground arith in
        rw (h, z)
          (ap (ended_by []) (none_missing _ _ (down_error-none n (count + 1) (ground arith))))
  ]
  down_rounds-limited n (v, target) (w ∷ ws) signals count = elim (Bool-cases (ltb count n)) [
    | inl h ↦
        let lt : count < n = ground arith in
        let same : count + 1 + suc (length ws) ≡ count + suc (suc (length ws)) = omega arith in
        elim (Bool-cases (stopped (signals 0))) [
          | inl s ↦ rw (h, take-suc {A = ℕ × ℤ} n count (v, target) (w ∷ ws) lt, s) refl
          | inr s ↦
              rw
                (
                  h,
                  take-suc {A = ℕ × ℤ} n count (v, target) (w ∷ ws) lt,
                  s,
                  down_rounds-limited n w ws (later signals) (count + 1),
                  same,
                )
                refl
        ]
    | inr h ↦
        let z : n - count ≡ 0 = ground arith in
        rw (h, z)
          (ap (ended_by [])
            (none_missing _ _ (down_error-none n (count + suc (suc (length ws))) (ground arith))))
  ]

  down_rounds-all :
      (p : ℕ × ℤ) (ps : List (ℕ × ℤ)) (signals : Signals) (count : ℕ)
      → down_rounds drv minus_one signals (p ∷ ps) count
        ≡ ended_by
            (map migration (until_stop signals (down_plans drv (p ∷ ps))))
            (if stops_within signals (length (p ∷ ps)) then none else none)
  unfolding down_rounds until_stop stops_within down_short
  down_rounds-all (v, target) [] signals count = elim (Bool-cases (stopped (signals 0))) [
    | inl s ↦ rw s refl
    | inr s ↦ rw s refl
  ]
  down_rounds-all (v, target) (w ∷ ws) signals count = elim (Bool-cases (stopped (signals 0))) [
    | inl s ↦ rw s refl
    | inr s ↦ rw (s, down_rounds-all w ws (later signals) (count + 1)) refl
  ]

  down_rounds-none :
      (n : ℕ) (p : ℕ × ℤ) (ps : List (ℕ × ℤ)) (signals : Signals) (count : ℕ)
      → down_rounds drv (negsuc (suc n)) signals (p ∷ ps) count ≡ ended_by [] none
  unfolding down_rounds
  down_rounds-none n (v, target) [] signals count =
      let below : (suc n == 0) ≡ false = ground arith in rw below refl
  down_rounds-none n (v, target) (w ∷ ws) signals count =
      let below : (suc n == 0) ≡ false = ground arith in rw below refl

  down_rounds-down_spec :
      (limit : ℤ) (signals : Signals) (p : ℕ × ℤ) (ps : List (ℕ × ℤ))
      → down_rounds drv limit signals (p ∷ ps) 0 ≡ down_spec drv limit signals (p ∷ ps)
  unfolding down_spec until_stop
  down_rounds-down_spec (pos n) signals p ps =
      let y : n - 0 ≡ n = omega arith in
      let z : 0 + suc (length ps) ≡ suc (length ps) = omega arith in
      rw (y, z) at (down_rounds-limited n p ps signals 0)
  down_rounds-down_spec (negsuc zero) signals p ps = down_rounds-all p ps signals 0
  down_rounds-down_spec (negsuc (suc n)) signals p ps =
      down_rounds-none n p ps signals 0
      ∙ ap (ended_by []) (none_missing (stops_within signals (suc (length ps))) none refl)

module _ (env : Env) (vs : List ℕ) (s : Serves env.source_drv vs) (limit : ℤ) where
  -- On a source that keeps its contract (Serves), from one of its versions or from the nil version if it has any,
  -- with a limit other than 0 and more fuel than versions: readUp sends the migrations of the versions above, in
  -- ascending order, until a stop signal; with a limit n, of the first n of them, and with -1 of all. If no stop
  -- signal came by the end of the source, it then reports what is missing: with a limit n, os.ErrNotExist if there
  -- is no version above and by how many the limit was missed if there are fewer than n; with -1, ErrNoChange if
  -- there is none. In every other case it closes the channel without an error.
  pub read_up-up_spec :
      (cur : ℤ) (fuel : ℕ) (signals : Signals)
      → IsCurrent cur vs
      → eqb_ℤ limit (pos 0) ≡ false
      → length vs < fuel
      → read_up env cur limit fuel signals ≡ up_spec env.source_drv limit signals (above cur vs)
  read_up-up_spec cur fuel signals i l f =
      read_up-up_rounds env vs s limit cur fuel signals i l f
      ∙ up_rounds-up_spec env.source_drv limit signals (above cur vs)

  -- On a source that keeps its contract (Serves), from one of its versions, with a limit other than 0 and fuel for
  -- the way down: readDown sends the migrations of that way, in descending order, until a stop signal; with a
  -- limit n, the first n of them, and with -1 all. If no stop signal came before the last one and there are fewer
  -- than n, it then reports by how many the limit was missed; otherwise it closes the channel without an error.
  pub read_down-down_spec :
      (v fuel : ℕ) (signals : Signals)
      → In v vs
      → eqb_ℤ limit (pos 0) ≡ false
      → length (descent v vs) ≤ fuel
      → read_down env (pos v) limit fuel signals
        ≡ down_spec env.source_drv limit signals (descent v vs)
  read_down-down_spec v fuel signals i l f =
      read_down-down_rounds env vs s limit v fuel signals i l f
      ∙ (let (target, rest, e) = descent-cons v vs s.ascending i in
          way (descent v vs) target rest e)
    where
      way :
          (ps : List (ℕ × ℤ)) (target : ℤ) (rest : List (ℕ × ℤ))
          → ps ≡ (v, target) ∷ rest
          → down_rounds env.source_drv limit signals ps 0
            ≡ down_spec env.source_drv limit signals ps
      way [] target rest e = cc
      way (p ∷ ps) target rest e = down_rounds-down_spec env.source_drv limit signals p ps
