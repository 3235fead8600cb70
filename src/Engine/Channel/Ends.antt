-- ===== src/Engine/Channel/Ends.antt =====
-- The system of the reader and `runMigrations` comes to an end.
use migrate.Prelude.{
  ℕ, ◌+◌, ◌*◌, ◌≤◌, ◌<◌, ◌≡◌, ◌≢◌, refl, ◌⊎◌, inl, inr, Bool, true, false, Option, none, some, List,
  [], ◌∷◌, length, length-append, arith, Bool-cases,
}
use mathlib.Core.List.{cons≢nil}
use migrate.Errors.{Error}
use migrate.Database.Driver.{Driver, Reader}
use migrate.Engine.Feed.{Item, failure, migration, Signals, stopped, later}
use migrate.Engine.Run.{
  Outcome, returned, blocked, perform, await, run_opened, run_body, apply, handle,
}
use migrate.Source.Driver.{Body}
use migrate.Engine.Migration.{Migration, buffer}
use migrate.Engine.Channel.{
  Runner, receiving, hanging, finished, System, at, Handled, stops, ends, hangs, passes, Step, put,
  hand, take, close, end, Steps, done, more, start, runner_of,
}

-- A computation with a continuation ends by itself, waits for a call of `Run` that does not return, or calls the
-- continuation.
abbrev Settles : {D : Type 0} → Driver D → ((D → Outcome × D) → Outcome × D) → Type 0
Settles {D} db f =
    ((o : Outcome) × ((d : D) × ((o ≢ blocked) × ((k : D → Outcome × D) → f k ≡ (o, d)))))
    ⊎ (((reader : Reader) × ((d : D) × ((db.run reader d ≡ none)
              × ((k : D → Outcome × D) → f k ≡ (blocked, d)))))
        ⊎ ((d : D) × ((k : D → Outcome × D) → f k ≡ k d)))

module _ {D : Type 0} (db : Driver D) where
  perform-Settles :
      (r : Option Error × D) (f : D → (D → Outcome × D) → Outcome × D)
      → ((d : D) → Settles db (f d))
      → Settles db (λ k. perform r (λ d. f d k))
  perform-Settles (some e, d) f settles = inl (returned (some e), (d, (cc, λ k. refl)))
  perform-Settles (none, d) f settles = settles d

  await-Settles :
      (reader : Reader) (d : D) (r : Option (Option Error × D))
      (f : D → (D → Outcome × D) → Outcome × D)
      → db.run reader d ≡ r
      → ((d : D) → Settles db (f d))
      → Settles db (λ k. await d r (λ d. f d k))
  await-Settles reader d none f e settles = inr (inl (reader, (d, (e, λ k. refl))))
  await-Settles reader d (some r) f e settles = perform-Settles r f settles

  mark-Settles :
      (m : Migration) (d : D)
      → Settles db (λ k. perform (db.set_version m.target_version false d) k)
  mark-Settles m d =
      perform-Settles (db.set_version m.target_version false d) (λ d k. k d)
        (λ d. inr (inr (d, λ k. refl)))

  body-Settles :
      (m : Migration) (body : Option Body) (d : D)
      → Settles db (λ k.
        run_opened db
          (buffer m).reader
          body
          d
          (λ d2. perform (db.set_version m.target_version false d2) k))
  unfolding run_opened
  body-Settles m none d = mark-Settles m d
  body-Settles m (some body) d =
      await-Settles (buffer m).reader d (db.run (buffer m).reader d)
        (λ d2 k. perform (db.set_version m.target_version false d2) k) refl (mark-Settles m)

  handle-Settles : (item : Item) (d : D) → Settles db (handle db item d)
  unfolding handle apply run_body
  handle-Settles (failure e) d = inl (returned (some e), (d, (cc, λ k. refl)))
  handle-Settles (migration m) d =
      perform-Settles (db.set_version m.target_version true d)
        (λ d1 k.
          run_opened db (buffer m).reader m.body d1
            (λ d2. perform (db.set_version m.target_version false d2) k))
        (body-Settles m m.body)

  handled : (item : Item) (d : D) (signals : Signals) → (r : Runner D) × Handled db item d signals r
  handled item d signals = elim (Bool-cases (stopped (signals 0))) [
    | inl h ↦ (finished (returned none) d, stops h)
    | inr h ↦ elim (handle-Settles item d) [
      | inl (o, (d', (n, e))) ↦ (finished o d', ends o d' h n e)
      | inr (inl (reader, (d', (n, e)))) ↦ (hanging reader d', hangs reader d' h n e)
      | inr (inr (d', e)) ↦ (receiving (later signals) d', passes d' h e)
    ]
  ]

  -- A runner that waits for a call does so for one that does not return, and one that has ended does not wait.
  abbrev Honest : Runner D → Type 0
  Honest (receiving signals d) = true ≡ true
  Honest (hanging reader d) = db.run reader d ≡ none
  Honest (finished o d) = o ≢ blocked

  Handled-Honest :
      (item : Item) (d : D) (signals : Signals) (r : Runner D)
      → Handled db item d signals r
      → Honest r
  Handled-Honest item d signals _ (stops h) = cc
  Handled-Honest item d signals _ (ends o d' h n e) = n
  Handled-Honest item d signals _ (hangs reader d' h n e) = n
  Handled-Honest item d signals _ (passes d' h e) = refl

  -- The channel is closed only when nothing is left to send.
  Sound : System D → Type 0
  Sound (at xs q b r) = (b ≡ true → xs ≡ []) × Honest r

  Step-Sound : (capacity : ℕ) (s s' : System D) → Step db capacity s s' → Sound s → Sound s'
  unfolding Sound
  Step-Sound capacity _ _ (put lt) (sound, honest) = (λ h. cc, honest)
  Step-Sound capacity _ _ (hand {x} {xs} {signals} {d} {r} m) sound =
      (λ h. cc, Handled-Honest x d signals r m)
  Step-Sound capacity _ _ (take {x} {xs} {q} {b} {signals} {d} {r} m) (sound, honest) =
      (sound, Handled-Honest x d signals r m)
  Step-Sound capacity _ _ close (sound, honest) = (λ h. refl, honest)
  Step-Sound capacity _ _ end (sound, honest) = (λ h. refl, λ h. cc)

  step_on :
      (capacity : ℕ) (xs q : List Item) (b : Bool) (signals : Signals) (d : D)
      → (b ≡ true → xs ≡ [])
      → (s' : System D) × Step db capacity (at xs q b (receiving signals d)) s'
  step_on capacity xs (x ∷ q) b signals d sound =
      let (r, m) = handled x d signals in (at xs q b r, take m)
  step_on capacity (x ∷ xs) [] false signals d sound =
      let (r, m) = handled x d signals in (at xs [] false r, hand m)
  step_on capacity (x ∷ xs) [] true signals d sound = absurd (cons≢nil (sound refl))
  step_on capacity [] [] false signals d sound = (at [] [] true (receiving signals d), close)
  step_on capacity [] [] true signals d sound = (at [] [] true (finished (returned none) d), end)

  bit : Bool → ℕ
  bit false = 1
  bit true = 0

  weight : Runner D → ℕ
  weight (receiving signals d) = 1
  weight (hanging reader d) = 0
  weight (finished o d) = 0

  weight-le : (r : Runner D) → weight r ≤ 1
  unfolding weight
  weight-le (receiving signals d) = omega arith
  weight-le (hanging reader d) = omega arith
  weight-le (finished o d) = omega arith

  measure : System D → ℕ
  measure (at xs q b r) = 2 * length xs + length q + bit b + weight r

  Step-measure : (capacity : ℕ) (s s' : System D) → Step db capacity s s' → measure s' < measure s
  unfolding measure weight bit
  Step-measure capacity _ _ (put {x} {xs} {q} {r} lt) = omega (arith, length-append q (x ∷ []))
  Step-measure capacity _ _ (hand {x} {xs} {signals} {d} {r} m) = omega (arith, weight-le r)
  Step-measure capacity _ _ (take {x} {xs} {q} {b} {signals} {d} {r} m) = omega (arith, weight-le r)
  Step-measure capacity _ _ close = omega arith
  Step-measure capacity _ _ end = omega arith

  Steps-measure :
      (capacity n : ℕ) (s s' : System D) → Steps db capacity n s s' → n + measure s' ≤ measure s
  Steps-measure capacity _ _ _ done = omega arith
  Steps-measure capacity _ _ _ (more {n} {s} {s1} {s2} step rest) =
      omega (arith, Step-measure capacity s s1 step, Steps-measure capacity n s1 s2 rest)

  Steps-Sound : (capacity n : ℕ) (s s' : System D) → Steps db capacity n s s' → Sound s → Sound s'
  Steps-Sound capacity _ _ _ done sound = sound
  Steps-Sound capacity _ _ _ (more {n} {s} {s1} {s2} step rest) sound =
      Steps-Sound capacity n s1 s2 rest (Step-Sound capacity s s1 step sound)

  -- In every execution, whatever the channel can hold: there are at most two steps for each item and two more;
  -- there is a next step, or `runMigrations` has returned or crashed, or it waits for a call of the driver's
  -- `Run` that does not return. So the two never wait for each other, and where every `Run` returns, every
  -- execution that goes on as long as it can has `runMigrations` ended.
  pub Steps-end :
      (capacity n : ℕ) (signals : Signals) (items : List Item) (d : D) (s : System D)
      → Steps db capacity n (start signals items d) s
      → (n ≤ 2 * length items + 2)
        × (((s' : System D) × Step db capacity s s')
            ⊎ (((o : Outcome) × ((d' : D) × ((runner_of s ≡ finished o d') × (o ≢ blocked))))
                ⊎ ((reader : Reader) × ((d' : D) × ((runner_of s ≡ hanging reader d')
                        × (db.run reader d' ≡ none))))))
  unfolding measure weight bit Sound
  Steps-end capacity n signals items d s steps = (
    omega (arith, Steps-measure capacity n (start signals items d) s steps),
    next s (Steps-Sound capacity n (start signals items d) s steps (λ h. cc, refl)),
  )
    where
      next :
          (s : System D)
          → Sound s
          → ((s' : System D) × Step db capacity s s')
            ⊎ (((o : Outcome) × ((d' : D) × ((runner_of s ≡ finished o d') × (o ≢ blocked))))
                ⊎ ((reader : Reader) × ((d' : D) × ((runner_of s ≡ hanging reader d')
                        × (db.run reader d' ≡ none)))))
      next (at xs q b (receiving signals d)) (sound, honest) =
          inl (step_on capacity xs q b signals d sound)
      next (at xs q b (hanging reader d)) (sound, honest) = inr (inr (reader, (d, (refl, honest))))
      next (at xs q b (finished o d)) (sound, honest) = inr (inl (o, (d, (refl, honest))))
