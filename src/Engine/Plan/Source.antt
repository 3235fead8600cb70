-- ===== src/Engine/Plan/Source.antt =====
-- The helpers `versionExists` and `newMigration` of migrate.go on a source that keeps its contract.
use migrate.Prelude.{
  ℕ, ◌≡◌, refl, ap, ◌∙◌, ◌⊎◌, inl, inr, ℤ, pos, to_int, to_int_small, ltb_ℤ, true, false, Bytes,
  none, some, List, arith,
}
use migrate.Errors.{Error, is_not_exist, is_exist, path_error, no_migration, exist, Result, ok, err}
use migrate.Source.Driver.{Body}
use migrate.Source.Sort.{In}
use migrate.Engine.Read.{
  Env, closing, check_down, check_up, version_exists, from_source, new_migration,
}
use migrate.Engine.Plan.{Serves, Answers, IsMissing, IsFound, planned, up_plan, down_plan}

pub Answers-ok : (r : Result ℕ) (w : ℕ) → Answers r (some w) → r ≡ ok w
Answers-ok (ok v) w a = ap ok a
Answers-ok (err e) w a = absurd a

pub Answers-err :
    (r : Result ℕ) → Answers r none → (e : Error) × (r ≡ err e) × (is_not_exist e ≡ true)
Answers-err (ok v) a = absurd a
Answers-err (err e) a = (e, refl, a)

-- An error is never both.
pub not_exist-not-exist : (e : Error) → is_not_exist e ≡ true → is_exist e ≡ false
not_exist-not-exist (path_error e) h = not_exist-not-exist e h
not_exist-not-exist (no_migration v e) h = not_exist-not-exist e h
not_exist-not-exist exist h = cc
not_exist-not-exist _ h = refl

pub from_source-planned :
    (r : Result (Body × Bytes)) (v : ℕ) (target : ℤ)
    → IsFound r ⊎ IsMissing r
    → from_source r v target ≡ ok (planned r v target)
unfolding from_source
from_source-planned (ok r) v target h = refl
from_source-planned (err e) v target (inl h) = absurd h
from_source-planned (err e) v target (inr h) = rw h

closing-none : (env : Env) (body : Body) → body.close_error ≡ none → closing env body none ≡ none
unfolding closing
closing-none env body h = rw (h, closing)

check_down-found :
    (env : Env) (v : ℕ) (r : Result (Body × Bytes)) → IsFound r → check_down env v r ≡ none
unfolding check_down
check_down-found env v (ok (body, identifier)) f = closing-none env body f
check_down-found env v (err e) f = absurd f

check_down-missing :
    (env : Env) (v : ℕ) (r : Result (Body × Bytes))
    → IsMissing r
    → (e : Error) × (check_down env v r ≡ some (no_migration v e))
unfolding check_down
check_down-missing env v (ok r) f = absurd f
check_down-missing env v (err e) f = (e, rw (not_exist-not-exist e f, f))

check_up-found :
    (env : Env) (v : ℕ) (r : Result (Body × Bytes)) → IsFound r → check_up env v r ≡ none
unfolding check_up
check_up-found env v (ok (body, identifier)) f = closing-none env body f
check_up-found env v (err e) f = absurd f

check_up-missing :
    (env : Env) (v : ℕ) (r : Result (Body × Bytes))
    → IsMissing r
    → check_up env v r ≡ check_down env v (env.source_drv.read_down v)
unfolding check_up
check_up-missing env v (ok r) f = absurd f
check_up-missing env v (err e) f = rw (not_exist-not-exist e f, f)

module _ (env : Env) (vs : List ℕ) (s : Serves env.source_drv vs) where
  pub new_migration_up :
      (v : ℕ) → In v vs → new_migration env v (to_int v) ≡ ok (up_plan env.source_drv v)
  unfolding new_migration
  new_migration_up v i =
      rw (to_int_small v (s.small v i))
        (ground (arith, from_source-planned (env.source_drv.read_up v) v (pos v) (s.up_is v)))

  pub new_migration_down :
      (v : ℕ) (target : ℤ)
      → In v vs
      → ltb_ℤ target (pos v) ≡ true
      → new_migration env v target ≡ ok (down_plan env.source_drv v target)
  unfolding new_migration
  new_migration_down v target i lt =
      rw (to_int_small v (s.small v i), lt)
        (from_source-planned (env.source_drv.read_down v) v target (s.down_is v))

  -- A version of the source is found by versionExists, in its up or in its down migration.
  pub version_exists_held : (v : ℕ) → In v vs → version_exists env v ≡ none
  unfolding version_exists
  version_exists_held v i = elim (s.up_is v) [
    | inl f ↦ check_up-found env v _ f
    | inr m ↦ elim (s.held v i) [
      | inl f ↦ check_up-found env v _ f
      | inr f ↦ check_up-missing env v _ m ∙ check_down-found env v _ f
    ]
  ]

  pub version_exists_absent :
      (v : ℕ) → (¬ In v vs) → (e : Error) × (version_exists env v ≡ some (no_migration v e))
  unfolding version_exists
  version_exists_absent v n =
      let (up, down) = s.absent v n in
      let (e, h) = check_down-missing env v _ down in (e, check_up-missing env v _ up ∙ h)
