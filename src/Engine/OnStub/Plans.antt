-- ===== src/Engine/OnStub/Plans.antt =====
-- What `up_rounds` and `down_rounds` come to without a limit.
use migrate.Engine.Plan.{down_plans, feed_of, until_stop, up_plans}
use migrate.Prelude.{
  ℕ, ◌+◌, ◌≡◌, ◌≢◌, refl, inl, inr, ℤ, minus_one, false, List, [], ◌∷◌, ◌==◌, arith, All,
  Bool-cases,
}
use migrate.Errors.{no_change}
use migrate.Source.Driver
use migrate.Source.Sort.{In}
use migrate.Engine.Migration.{Migration}
use migrate.Engine.Feed.{fail, Signals, stopped, later}
use migrate.Engine.ReadLimit.{reached_end, down_short}
use migrate.Engine.Plan.{up_plan, down_plan, up_rounds, down_rounds}
use migrate.Engine.OnStub.{IsReadable}

module _ (drv : Driver.Driver) where
  up_spec_more :
      (ws : List ℕ) (signals : Signals) (count : ℕ)
      → (count == 0) ≡ false
      → up_rounds drv minus_one signals ws count ≡ feed_of (until_stop signals (up_plans drv ws))
  unfolding up_rounds until_stop reached_end
  up_spec_more [] signals count e = ground arith
  up_spec_more (w ∷ ws) signals count e = elim (Bool-cases (stopped (signals 0))) [
    | inl h ↦ rw h
    | inr h ↦ rw (h, up_spec_more ws (later signals) (count + 1) (ground arith))
  ]

  pub up_spec_all :
      (ws : List ℕ) (signals : Signals)
      → ws ≢ []
      → up_rounds drv minus_one signals ws 0 ≡ feed_of (until_stop signals (up_plans drv ws))
  unfolding up_rounds until_stop
  up_spec_all [] signals n = absurd (n refl)
  up_spec_all (w ∷ ws) signals n = elim (Bool-cases (stopped (signals 0))) [
    | inl h ↦ rw h
    | inr h ↦ rw (h, up_spec_more ws (later signals) 1 refl)
  ]

  pub up_spec_none :
      (ws : List ℕ) (signals : Signals)
      → ws ≡ []
      → stopped (signals 0) ≡ false
      → up_rounds drv minus_one signals ws 0 ≡ fail no_change
  unfolding up_rounds reached_end
  up_spec_none [] signals e q = rw q
  up_spec_none (w ∷ ws) signals e q = cc

  pub down_spec_all :
      (ps : List (ℕ × ℤ)) (signals : Signals) (count : ℕ)
      → down_rounds drv minus_one signals ps count
        ≡ feed_of (until_stop signals (down_plans drv ps))
  unfolding down_rounds until_stop down_short
  down_spec_all [] signals count = refl
  down_spec_all ((v, target) ∷ []) signals count = ground arith
  down_spec_all ((v, target) ∷ w ∷ ws) signals count = elim (Bool-cases (stopped (signals 0))) [
    | inl h ↦ rw h
    | inr h ↦ rw (h, down_spec_all (w ∷ ws) (later signals) (count + 1))
  ]

  pub up_plans-IsReadable :
      (vs : List ℕ)
      → ((v : ℕ) → In v vs → IsReadable (up_plan drv v))
      → All IsReadable (up_plans drv vs)
  up_plans-IsReadable [] r = tt
  up_plans-IsReadable (v ∷ vs) r = (r v (inl refl), up_plans-IsReadable vs (λ w i. r w (inr i)))

  pub down_plans-IsReadable :
      (ps : List (ℕ × ℤ))
      → ((v : ℕ) (target : ℤ) → IsReadable (down_plan drv v target))
      → All IsReadable (down_plans drv ps)
  down_plans-IsReadable [] r = tt
  down_plans-IsReadable ((v, target) ∷ ps) r = (r v target, down_plans-IsReadable ps r)

pub All-until_stop :
    (ms : List Migration) (signals : Signals)
    → All IsReadable ms
    → All IsReadable (until_stop signals ms)
unfolding until_stop
All-until_stop [] signals r = tt
All-until_stop (m ∷ ms) signals r = elim (Bool-cases (stopped (signals 0))) [
  | inl h ↦ rw h tt
  | inr h ↦ rw h (r.0, All-until_stop ms (later signals) r.1)
]
