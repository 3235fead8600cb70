-- ===== src/Engine/Plan/Up.antt =====
-- The rounds of `readUp` on a source that keeps its contract.
use migrate.Prelude.{
  ℕ, zero, suc, ◌+◌, ◌≤◌, ◌<◌, ◌≡◌, refl, ap, subst, ◌∙◌, inl, inr, ◌≢◌, ℤ, pos, negsuc, minus_one,
  to_int_small, eqb_ℤ, Bool, true, false, none, some, List, [], ◌∷◌, ◌==◌, ==_iff, ==_refl,
  if◌then◌else◌, arith, head?, length, Bool-cases,
}
use migrate.Errors.{Error, not_exist, Result, ok, err}
use migrate.Source.Sort.{In, Above, Ascending, In-Above}
use migrate.Source.Migrations.Order.{next_in}
use migrate.Engine.Util.{suint}
use migrate.Engine.Feed.{Feed, finish, send, Signals, later}
use migrate.Engine.Read.{Env, check_version}
use migrate.Engine.ReadLimit.{within, reached_end, up_first, up_next, up_step, up_loop, read_up}
use migrate.Engine.Plan.{Serves, Answers, up_plan, suffix_after, above, up_rounds}
use migrate.Engine.Plan.Source.{Answers-ok, new_migration_up, version_exists_held}

-- The next version is the head of what is above.
pub next_in-suffix_after : (v : ℕ) (vs : List ℕ) → next_in v vs ≡ head? (suffix_after v vs)
next_in-suffix_after v [] = refl
next_in-suffix_after v (x ∷ xs) = ground (arith, next_in-suffix_after v xs)

pub In-suffix_after : (v w : ℕ) (vs : List ℕ) → In w (suffix_after v vs) → In w vs
In-suffix_after v w [] i = i
In-suffix_after v w (x ∷ xs) i = ground (arith, In-suffix_after v w xs)

pub length-suffix_after : (v : ℕ) (vs : List ℕ) → length (suffix_after v vs) ≤ length vs
length-suffix_after v [] = omega arith
length-suffix_after v (x ∷ xs) = ground (arith, length-suffix_after v xs)

pub suffix_after-Above : (v : ℕ) (vs : List ℕ) → Ascending vs → Above v (suffix_after v vs)
suffix_after-Above v [] s = tt
suffix_after-Above v (x ∷ xs) s = elim (Bool-cases (x == v)) [
  | inl hit ↦ rw hit (rw ((==_iff x v).0 hit) at s.0)
  | inr miss ↦ rw miss (suffix_after-Above v xs s.1)
]

after_head :
    (x w : ℕ) (xs ws : List ℕ) → Ascending (x ∷ xs) → xs ≡ w ∷ ws → suffix_after w (x ∷ xs) ≡ ws
after_head x w [] ws s e = cc
after_head x w (y ∷ ys) ws s e =
    let yw : y ≡ w = ground arith in let tails : ys ≡ ws = ground arith in ground arith

-- What is above the head of what is above is the tail.
pub suffix_after-tail :
    (v w : ℕ) (vs ws : List ℕ) → Ascending vs → suffix_after v vs ≡ w ∷ ws → suffix_after w vs ≡ ws
suffix_after-tail v w [] ws s e = cc
suffix_after-tail v w (x ∷ xs) ws s e = elim (Bool-cases (x == v)) [
  | inl hit ↦ after_head x w xs ws s (rw (hit, suffix_after) at e)
  | inr miss ↦
      let e' : suffix_after v xs ≡ w ∷ ws = rw (miss, suffix_after) at e in
      let lt : x < w = In-Above xs s.0 (In-suffix_after v w xs (rw e' (inl refl))) in
      ground (arith, suffix_after-tail v w xs ws s.1 e')
]

reached_end_any :
    (limit : ℤ) (count : ℕ) (e f : Error)
    → within count limit ≡ true
    → reached_end limit count e ≡ reached_end limit count f
unfolding reached_end
reached_end_any limit count e f h = ground arith

module _ (env : Env) (vs : List ℕ) (s : Serves env.source_drv vs) (limit : ℤ) where
  up_next-found :
      (again : ℤ → ℕ → Feed) (count w : ℕ) (r : Result ℕ)
      → In w vs
      → Answers r (some w)
      → up_next env limit again count r
        ≡ send (up_plan env.source_drv w) (again (pos w) (count + 1))
  unfolding up_next
  up_next-found again count w (err e) i a = absurd a
  up_next-found again count w (ok v) i a =
      rw (a, new_migration_up env vs s w i, to_int_small w (s.small w i))

  up_first-found :
      (again : ℤ → ℕ → Feed) (count w : ℕ)
      → In w vs
      → Answers env.source_drv.first (some w)
      → up_first env again count ≡ send (up_plan env.source_drv w) (again (pos w) (count + 1))
  unfolding up_first
  up_first-found again count w i a =
      simp (Answers-ok env.source_drv.first w a)
        (rw (new_migration_up env vs s w i, to_int_small w (s.small w i)))

  up_next-end :
      (again : ℤ → ℕ → Feed) (count : ℕ) (r : Result ℕ)
      → within count limit ≡ true
      → Answers r none
      → up_next env limit again count r ≡ reached_end limit count not_exist
  unfolding up_next
  up_next-end again count (ok v) h a = absurd a
  up_next-end again count (err e) h a = rw a (reached_end_any limit count e not_exist h)

  up_step-at :
      (again : ℤ → ℕ → Feed) (stop : Bool) (v count : ℕ)
      → up_step env limit again stop (pos v) count ≡ (
          if within count limit
          then if stop then finish else up_next env limit again count (env.source_drv.next v)
          else finish)
  unfolding up_step suint
  up_step-at again stop v count = refl

  next-Answers :
      (v : ℕ) (rest : List ℕ)
      → suffix_after v vs ≡ rest
      → Answers (env.source_drv.next v) (head? rest)
  next-Answers v rest e =
      subst (Answers (env.source_drv.next v)) (next_in-suffix_after v vs ∙ ap head? e) (s.next_is v)

  up_loop-up_rounds :
      (rest : List ℕ) (fuel : ℕ) (signals : Signals) (v count : ℕ)
      → In v vs
      → suffix_after v vs ≡ rest
      → length rest < fuel
      → up_loop env limit fuel signals (pos v) count
        ≡ up_rounds env.source_drv limit signals rest count
  unfolding up_loop up_rounds
  up_loop-up_rounds rest zero signals v count i e f = absurd (omega arith)
  up_loop-up_rounds [] (suc fuel) signals v count i e f =
      up_step-at _ _ v count ∙ elim (Bool-cases (within count limit)) [
        | inl h ↦ rw (
          h,
          up_next-end (up_loop env limit fuel (later signals)) count _ h (next-Answers v [] e),
        )
        | inr h ↦ rw h
      ]
  up_loop-up_rounds (w ∷ ws) (suc fuel) signals v count i e f =
      let j : In w vs = In-suffix_after v w vs (rw e (inl refl)) in
      up_step-at _ _ v count
      ∙ rw (
        up_next-found (up_loop env limit fuel (later signals)) count w _ j
            (next-Answers v (w ∷ ws) e),
        up_loop-up_rounds ws fuel (later signals) w (count + 1) j
            (suffix_after-tail v w vs ws s.ascending e) (omega arith),
      )

-- The current version: one of the source's, or the nil version of a source that has some.
abbrev pub IsCurrent : ℤ → List ℕ → Type 0
IsCurrent (pos v) vs = In v vs
IsCurrent (negsuc n) vs = (n ≡ 0) × (vs ≢ [])

module _ (env : Env) (vs : List ℕ) (s : Serves env.source_drv vs) (limit : ℤ) where
  up_loop_first :
      (ws : List ℕ) (fuel : ℕ) (signals : Signals)
      → vs ≡ ws
      → ws ≢ []
      → length vs < fuel
      → up_loop env limit fuel signals minus_one 0 ≡ up_rounds env.source_drv limit signals ws 0
  unfolding up_loop up_step up_rounds
  up_loop_first [] fuel signals e n f = absurd (n refl)
  up_loop_first (w ∷ ws) zero signals e n f = absurd (omega arith)
  up_loop_first (w ∷ ws) (suc fuel) signals e n f =
      let i : In w vs = rw e (inl refl) in
      let a : Answers env.source_drv.first (some w) =
        subst (Answers env.source_drv.first) (ap head? e) s.first_is in
      let tail : suffix_after w vs ≡ ws = rw e (rw ==_refl) in
      rw (
        up_first-found env vs s limit (up_loop env limit fuel (later signals)) 0 w i a,
        up_loop-up_rounds env vs s limit ws fuel (later signals) w 1 i tail
            (omega (arith, ap length e)),
      )

  -- The feed of readUp on a source that keeps its contract, round by round.
  pub read_up-up_rounds :
      (cur : ℤ) (fuel : ℕ) (signals : Signals)
      → IsCurrent cur vs
      → eqb_ℤ limit (pos 0) ≡ false
      → length vs < fuel
      → read_up env cur limit fuel signals ≡ up_rounds env.source_drv limit signals (above cur vs) 0
  unfolding read_up check_version
  read_up-up_rounds (pos v) fuel signals i l f =
      rw (version_exists_held env vs s v i, l)
        (up_loop-up_rounds env vs s limit (suffix_after v vs) fuel signals v 0 i refl
          (omega (arith, length-suffix_after v vs)))
  read_up-up_rounds (negsuc n) fuel signals i l f =
      rw (i.0, l) (up_loop_first vs fuel signals refl i.1 f)

pub suffix_after-Ascending : (v : ℕ) (vs : List ℕ) → Ascending vs → Ascending (suffix_after v vs)
suffix_after-Ascending v [] s = tt
suffix_after-Ascending v (x ∷ xs) s = ground (arith, suffix_after-Ascending v xs s.1)
