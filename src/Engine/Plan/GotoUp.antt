-- ===== src/Engine/Plan/GotoUp.antt =====
-- `read`, behind the method `Migrate`, on the way up to a target.
use migrate.Prelude.{
  ℕ, zero, suc, ◌≤◌, ◌<◌, ◌≡◌, refl, ap, subst, ◌∙◌, inl, inr, ℤ, pos, minus_one, to_int_small,
  Bool, true, false, some, List, [], ◌∷◌, ◌==◌, ==_refl, if◌then◌else◌, arith, ltb, leb, head?,
  length, Bool-cases, lt→ltb, le→ltb, ltb→lt, ltb→le,
}
use migrate.Source.Sort.{In, Above, Ascending, In-Above}
use migrate.Source.Migrations.Neighbours.Next.{next_in-IsNext, head_le}
use migrate.Engine.Util.{suint}
use migrate.Engine.Feed.{Feed, finish, send, Signals, stopped, later}
use migrate.Engine.Read.{Env, check_version, forward_step, forward, read_forward, read}
use migrate.Engine.Plan.{Serves, Answers, up_plan, suffix_after, up_plans, feed_of, until_stop}
use migrate.Engine.Plan.Source.{Answers-ok, new_migration_up, version_exists_held}
use migrate.Engine.Plan.Up.{
  next_in-suffix_after, In-suffix_after, suffix_after-tail, suffix_after-Above, length-suffix_after,
}

-- The versions up to a target.
abbrev pub up_to : ℕ → List ℕ → List ℕ
up_to t [] = []
up_to t (w ∷ ws) = if leb w t then w ∷ up_to t ws else []

-- Above a version that is not the target there is another one up to the target.
pub In-above :
    (v t : ℕ) (vs : List ℕ) → Ascending vs → In v vs → In t vs → v < t → In t (suffix_after v vs)
In-above v t [] s i j lt = absurd i
In-above v t (x ∷ xs) s (inl e) (inl d) lt = absurd (omega arith)
In-above v t (x ∷ xs) s (inl e) (inr j) lt = ground arith
In-above v t (x ∷ xs) s (inr i) (inl d) lt =
    absurd (omega (arith, In-Above {v = x} {w = v} xs s.0 i))
In-above v t (x ∷ xs) s (inr i) (inr j) lt =
    ground (arith, In-Above {v = x} {w = v} xs s.0 i, In-above v t xs s.1 i j lt)

lt→leb-false : (a b : ℕ) → b < a → leb a b ≡ false
lt→leb-false a b h = ground arith

leb→le : (a b : ℕ) → leb a b ≡ true → a ≤ b
leb→le a b h = ground arith

le→leb : (a b : ℕ) → a ≤ b → leb a b ≡ true
le→leb a b h = ground arith

-- The next version is at most a target above.
next_le :
    (v w t : ℕ) (vs : List ℕ)
    → Ascending vs
    → (ws : List ℕ) → suffix_after v vs ≡ w ∷ ws
    → In t vs
    → v < t
    → leb w t ≡ true
next_le v w t vs s ws e i lt =
    le→leb w t ((next_in-IsNext v w vs s (next_in-suffix_after v vs ∙ ap head? e)).least t i lt)

module _ (env : Env) (vs : List ℕ) (s : Serves env.source_drv vs) (t : ℕ) (at : In t vs) where
  forward_step-next :
      (again : ℤ → Feed) (v w : ℕ) (ws : List ℕ)
      → suffix_after v vs ≡ w ∷ ws
      → v < t
      → forward_step env (pos t) again false (pos v)
        ≡ send (up_plan env.source_drv w) (again (pos w))
  unfolding forward_step suint
  forward_step-next again v w ws e lt =
      let a : Answers (env.source_drv.next v) (some w) =
        subst (Answers (env.source_drv.next v)) (next_in-suffix_after v vs ∙ ap head? e)
          (s.next_is v) in
      let i : In w vs = In-suffix_after v w vs (rw e (inl refl)) in
      rw (lt→ltb v t lt) (
        simp (Answers-ok (env.source_drv.next v) w a)
          (rw (new_migration_up env vs s w i, to_int_small w (s.small w i))))

  forward_step-stop :
      (again : ℤ → Feed) (v : ℕ) → v < t → forward_step env (pos t) again true (pos v) ≡ finish
  unfolding forward_step
  forward_step-stop again v lt = rw (lt→ltb v t lt)

  forward_step-reached :
      (again : ℤ → Feed) (stop : Bool) (v : ℕ)
      → t ≤ v
      → forward_step env (pos t) again stop (pos v) ≡ finish
  unfolding forward_step
  forward_step-reached again stop v le = rw (le→ltb v t le)

  forward_rest :
      (rest : List ℕ) (fuel : ℕ) (signals : Signals) (v : ℕ)
      → In v vs
      → suffix_after v vs ≡ rest
      → v ≤ t
      → length rest < fuel
      → forward env (pos t) fuel signals (pos v)
        ≡ feed_of (until_stop signals (up_plans env.source_drv (up_to t rest)))
  unfolding forward until_stop
  forward_rest rest zero signals v i e le f = absurd (omega arith)
  forward_rest [] (suc fuel) signals v i e le f = elim (Bool-cases (ltb v t)) [
    | inr ge ↦
        forward_step-reached (forward env (pos t) fuel (later signals)) (stopped (signals 0)) v
          (ltb→le v t ge)
    | inl lt ↦ absurd (rw e at (In-above v t vs s.ascending i at (ltb→lt v t lt)))
  ]
  forward_rest (w ∷ ws) (suc fuel) signals v i e le f =
      let again : ℤ → Feed = forward env (pos t) fuel (later signals) in
      elim (Bool-cases (ltb v t)) [
        | inr ge ↦
            let above : Above v (w ∷ ws) = rw e at (suffix_after-Above v vs s.ascending) in
            forward_step-reached again (stopped (signals 0)) v (ltb→le v t ge)
            ∙ rw (lt→leb-false w t (omega (arith, above.0, ltb→le v t ge)))
        | inl lt ↦
            let w-le-t = next_le v w t vs s.ascending ws e at (ltb→lt v t lt) in
            let j : In w vs = In-suffix_after v w vs (rw e (inl refl)) in
            elim (Bool-cases (stopped (signals 0))) [
              | inl h ↦ rw (w-le-t, h) (forward_step-stop again v (ltb→lt v t lt))
              | inr h ↦
                  rw (w-le-t, h)
                    (forward_step-next again v w ws e (ltb→lt v t lt)
                      ∙ rw (
                          forward_rest ws fuel (later signals) w j
                            (suffix_after-tail v w vs ws s.ascending e) (leb→le w t w-le-t)
                            (omega arith)))
            ]
      ]

  -- On a source that keeps its contract (Serves), from one of its versions to a higher one, with
  -- more fuel than versions, `read` sends the migrations of the versions above up to the target,
  -- until a stop signal, and closes the channel.
  pub read-up_to :
      (v fuel : ℕ) (signals : Signals)
      → In v vs
      → v < t
      → length vs < fuel
      → read env (pos v) (pos t) fuel signals
        ≡ feed_of (until_stop signals (up_plans env.source_drv (up_to t (suffix_after v vs))))
  unfolding read check_version read_forward
  read-up_to v fuel signals i lt f =
      let ne : (v == t) ≡ false = ground arith in
      rw (version_exists_held env vs s v i, version_exists_held env vs s t at, ne, lt→ltb v t lt)
        (forward_rest (suffix_after v vs) fuel signals v i refl (omega arith)
          (omega (arith, length-suffix_after v vs)))

  -- On a source that keeps its contract (Serves), from the nil version to one of its versions, with
  -- more fuel than versions, `read` sends the first migration whatever the stop signal says, and
  -- then those up to the target until a stop signal.
  pub read_from_nil :
      (w : ℕ) (ws : List ℕ) (fuel : ℕ) (signals : Signals)
      → vs ≡ w ∷ ws
      → length vs < fuel
      → read env minus_one (pos t) fuel signals
        ≡ feed_of
            (up_plan env.source_drv w ∷ until_stop signals (up_plans env.source_drv (up_to t ws)))
  unfolding read check_version read_forward
  read_from_nil w ws fuel signals e f =
      let i : In w vs = rw e (inl refl) in
      let a : Answers env.source_drv.first (some w) =
        subst (Answers env.source_drv.first) (ap head? e) s.first_is in
      let asc : Ascending (w ∷ ws) = rw e at s.ascending in
      let le : w ≤ t = head_le w ws asc.0 t (rw e at at) in
      let tail : suffix_after w vs ≡ ws = rw e (rw ==_refl) in
      rw (version_exists_held env vs s t at) (
        simp (Answers-ok env.source_drv.first w a) (
          rw (
            new_migration_up env vs s w i,
            to_int_small w (s.small w i),
            forward_rest ws fuel signals w i tail le (omega (arith, ap length e)),
          )))
