-- ===== src/Engine/OnStub/Short.antt =====
-- What `readUp` and `readDown` of migrate.go send under a limit, when no stop signal comes.
use migrate.Prelude.{ℕ, zero, suc, ◌+◌, ◌-◌, ◌≡◌, refl, ℤ, pos, false, List, ◌∷◌, map, length, take}
use migrate.Source.Driver
use migrate.Engine.Feed.{migration, Signals, later}
use migrate.Engine.Plan.{
  up_error, down_error, ended_by, up_rounds, down_rounds, up_plans, down_plans, stops_within,
}
use migrate.Engine.Plan.Limits.{up_rounds-limited, down_rounds-limited}
use migrate.Engine.OnStub.{Quiet}
use migrate.Engine.OnStub.Runs.{until_stop-Quiet}

stops_within-Quiet : (n : ℕ) (signals : Signals) → Quiet signals → stops_within signals n ≡ false
unfolding stops_within
stops_within-Quiet zero signals q = refl
stops_within-Quiet (suc n) signals q =
    rw (q 0) (stops_within-Quiet n (later signals) (λ k. q (suc k)))

module _ (drv : Driver.Driver) (n : ℕ) where
  -- readUp sends the first migrations above, as many as the limit allows, and then what is missing.
  pub up_rounds-Quiet :
      (ws : List ℕ) (signals : Signals) (count : ℕ)
      → Quiet signals
      → up_rounds drv (pos n) signals ws count
        ≡ ended_by
            (map migration (up_plans drv (take (n - count) ws)))
            (up_error n (count + length ws))
  up_rounds-Quiet ws signals count q =
      rw
        (
          until_stop-Quiet (up_plans drv (take (n - count) ws)) signals q,
          stops_within-Quiet (suc (length ws)) signals q,
        )
        at (up_rounds-limited drv n ws signals count)

  -- readDown sends the first migrations of the way down, as many as the limit allows, and then by
  -- how many it falls short.
  pub down_rounds-Quiet :
      (p : ℕ × ℤ) (ps : List (ℕ × ℤ)) (signals : Signals) (count : ℕ)
      → Quiet signals
      → down_rounds drv (pos n) signals (p ∷ ps) count
        ≡ ended_by
            (map migration (down_plans drv (take (n - count) (p ∷ ps))))
            (down_error n (count + length (p ∷ ps)))
  down_rounds-Quiet p ps signals count q =
      rw
        (
          until_stop-Quiet (down_plans drv (take (n - count) (p ∷ ps))) signals q,
          stops_within-Quiet (suc (length ps)) signals q,
        )
        at (down_rounds-limited drv n p ps signals count)
