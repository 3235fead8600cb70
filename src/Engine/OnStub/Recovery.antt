-- ===== src/Engine/OnStub/Recovery.antt =====
-- `Force`, `Drop` and `Version` of migrate.go on the in-memory database.
use migrate.Prelude.{
  ℕ, ◌≡◌, refl, sym, ap, ◌∙◌, ℤ, pos, negsuc, suc, minus_one, ltb_ℤ, false, none, some, [], ◌∷◌,
  ◌++◌, arith, lt→ltb,
}
use migrate.Errors.{nil_version, invalid_version, ok, err}
use migrate.Database.Stub.{Stub, stub_driver, drop_mark}
use migrate.Engine.Util.{suint}
use migrate.Engine.Read.{Env}
use migrate.Engine.Run.{returned}
use migrate.Engine.Operations.{
  answered, after_change, unlock_last, unlock, after_unlock, force, drop, version, checked_version,
}
use migrate.Engine.OnStub.Locked.{idle, lock_stub}

-- The database at a version, clean.
abbrev pub cleaned_at : ℤ → Stub → Stub
cleaned_at v st = record st { current_version = v; is_dirty = false }

abbrev pub emptied : Stub → Stub
emptied st = record st {
  current_version = minus_one;
  last_run_migration = [];
  migration_sequence = st.migration_sequence ++ drop_mark ∷ [];
}

module _ (env : Env) (st : Stub) (free : st.is_locked ≡ false) where
  force_run :
      (v : ℤ)
      → ltb_ℤ v minus_one ≡ false
      → force env stub_driver answered v (idle st) ≡ (returned none, idle (cleaned_at v st))
  unfolding force after_change unlock_last unlock after_unlock stub_driver
  force_run v ge =
      rw (ge, lock_stub st free)
        (ap
          (λ b. (
            returned none,
            idle (record st { current_version = v; is_dirty = false; is_locked = b }),
          ))
          (sym free))

  forced_version :
      (n : ℕ) → version stub_driver (idle (cleaned_at (pos n) st)) ≡ some (ok (n, false))
  unfolding version checked_version suint stub_driver
  forced_version n = refl

  -- Force of a version on an unlocked database, dirty or not, returns nil and leaves that version,
  -- clean, which Version then reports: the number for a version, ErrNilVersion for -1. Below -1 it
  -- returns ErrInvalidVersion and changes nothing.
  pub force_lem :
      ((n : ℕ)
        → (force env stub_driver answered (pos n) (idle st)
            ≡ (returned none, idle (cleaned_at (pos n) st)))
          × (version stub_driver (force env stub_driver answered (pos n) (idle st)).1
              ≡ some (ok (n, false))))
      × (force env stub_driver answered minus_one (idle st)
          ≡ (returned none, idle (cleaned_at minus_one st)))
      × (version stub_driver (force env stub_driver answered minus_one (idle st)).1
          ≡ some (err nil_version))
      × ((n : ℕ)
          → force env stub_driver answered (negsuc (suc n)) (idle st)
            ≡ (returned (some invalid_version), idle st))
  unfolding force version checked_version stub_driver
  force_lem = (
    λ n. (
      force_run (pos n) refl,
      ap (λ r. version stub_driver r.1) (force_run (pos n) refl) ∙ forced_version n,
    ),
    force_run minus_one refl,
    ap (λ r. version stub_driver r.1) (force_run minus_one refl),
    λ n. rw (lt→ltb 0 (suc n) (omega arith)) refl,
  )

  -- Drop on an unlocked database returns nil, leaves the nil version and no last migration, and
  -- adds its mark to what was run; Version then reports ErrNilVersion. A dirty database stays dirty.
  pub drop_lem :
      (drop env stub_driver answered (idle st) ≡ (returned none, idle (emptied st)))
      × (version stub_driver (drop env stub_driver answered (idle st)).1 ≡ some (err nil_version))
  unfolding drop version checked_version after_change unlock_last unlock after_unlock stub_driver
  drop_lem =
      let run : drop env stub_driver answered (idle st) ≡ (returned none, idle (emptied st)) =
        rw (lock_stub st free)
          (ap (λ b. (returned none, idle (record (emptied st) { is_locked = b }))) (sym free)) in
      (run, ap (λ r. version stub_driver r.1) run)
