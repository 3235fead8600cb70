-- ===== src/Source/Migrations/Index.antt =====
-- What `Append` of source/migration.go does to the migrations, and the invariant of the index.
use migrate.Prelude.{
  ℕ, ◌≡◌, ◌≢◌, refl, ap, ◌∙◌, inl, inr, ◌⊎◌, Bool, true, false, [], ◌∷◌, Option, none, some, arith,
  ◌==◌, ==_iff, if◌then◌else◌, ◌&&◌, Option-cases, Bool-cases,
}
use migrate.Prelude.Map.{Map, get, put, keys, nat_eq, get-put}
use migrate.Source.Sort.{sort, In, Distinct}
use migrate.Source.Migration.{Migration, Direction, direction_eq, direction_beq_iff}
use migrate.Source.Migrations.{
  Migrations, at_version, build_index, insert_migration, ensure_version, append, new_migrations,
}

module _ {V : Type 0} where
  pub In-keys-put :
      (v k : ℕ) (x : V) (m : Map ℕ V) → In v (keys (put k x m)) → (v ≡ k) ⊎ In v (keys m)
  unfolding put
  In-keys-put v k x [] i = i
  In-keys-put v k x ((j, w) ∷ m) i = ground (arith, In-keys-put v k x m)

  pub Distinct-put : (k : ℕ) (x : V) (m : Map ℕ V) → Distinct (keys m) → Distinct (keys (put k x m))
  unfolding put
  Distinct-put k x [] d = ((λ i. i), tt)
  Distinct-put k x ((j, w) ∷ m) d = ground (arith, In-keys-put j k x m, Distinct-put k x m d.1)

  pub get-In : (k : ℕ) (m : Map ℕ V) (x : V) → get k m ≡ some x → In k (keys m)
  unfolding get
  get-In k [] x e = cc
  get-In k ((j, w) ∷ m) x e = ground (arith, get-In k m x)

  pub In-get : (k : ℕ) (m : Map ℕ V) → In k (keys m) → get k m ≢ none
  unfolding get
  In-get k [] i e = i
  In-get k ((j, w) ∷ m) i e = ground (arith, In-get k m)

pub get_nil {ℓ} : {V : Type ℓ} (d : Direction) → get {V = V} d [] ≡ none
unfolding get
get_nil d = refl

-- The index lists the versions of the map in ascending order, the map has one entry for each, each
-- migration is filed under its own version and direction, and every version has a migration.
pub record IsValid (i : Migrations) : Type 0 where
  pub indexed : i.index ≡ sort (keys i.migrations)
  pub distinct : Distinct (keys i.migrations)
  pub filed :
      (v : ℕ) (d : Direction) (m : Migration)
      → get d (at_version i v) ≡ some m
      → (m.version ≡ v) × (m.direction ≡ d)
  pub filled :
      (v : ℕ)
      → get v i.migrations ≢ none
      → (d : Direction) × (m : Migration) × (get d (at_version i v) ≡ some m)

abbrev pub files : Migration → ℕ → Direction → Bool
files m v d = (m.version == v) && direction_eq.beq m.direction d

at_version-put :
    (i : Migrations) (k v : ℕ) (t : Map Direction Migration)
    → at_version (record i { migrations = put k t i.migrations }) v
      ≡ (if k == v then t else at_version i v)
unfolding at_version
at_version-put i k v t = ground (arith, get-put k v t i.migrations)

-- An empty inner map reads as a missing one.
at_version-ensure_version :
    (i : Migrations) (k v : ℕ) → at_version (ensure_version i k) v ≡ at_version i v
unfolding ensure_version at_version
at_version-ensure_version i k v = ground (arith, get-put k v [] i.migrations)

module _ (i : Migrations) (m : Migration) where
  get-insert_migration :
      (v : ℕ) (d : Direction)
      → get m.direction (at_version i m.version) ≡ none
      → get d (at_version (insert_migration i m).0 v)
        ≡ (if files m v d then some m else get d (at_version i v))
  unfolding insert_migration build_index at_version
  get-insert_migration v d e =
      let t : Map Direction Migration = put m.direction m (at_version i m.version) in
      ground (
        arith,
        at_version-put i m.version v t,
        get-put m.direction d m (at_version i m.version),
        direction_beq_iff m.direction d,
      )

  insert_migration_free :
      get m.direction (at_version i m.version) ≡ none → (insert_migration i m).1 ≡ true
  unfolding insert_migration
  insert_migration_free e = ground arith

  insert_migration_dup :
      (dup : Migration)
      → get m.direction (at_version i m.version) ≡ some dup
      → insert_migration i m ≡ (i, false)
  unfolding insert_migration
  insert_migration_dup dup e = rw (e, insert_migration)

-- A version that holds a migration has an inner map already.
ensure_version_held :
    (i : Migrations) (v : ℕ) (d : Direction) (m : Migration)
    → get d (at_version i v) ≡ some m
    → ensure_version i v ≡ i
unfolding ensure_version at_version
ensure_version_held i v d m e = elim (Option-cases (get v i.migrations)) [
  | inl missing ↦ cc (rw (missing, at_version) at e, get_nil d)
  | inr (t, found) ↦ rw (found, ensure_version)
]

module _ (i : Migrations) (m : Migration) where
  pub append_dup :
      (dup : Migration)
      → get m.direction (at_version i m.version) ≡ some dup
      → append i (some m) ≡ (i, false)
  unfolding append
  append_dup dup e =
      rw (ensure_version_held i m.version m.direction dup e) (insert_migration_dup i m dup e)

  ensured_free :
      get m.direction (at_version i m.version) ≡ none
      → get m.direction (at_version (ensure_version i m.version) m.version) ≡ none
  ensured_free e = ap (get m.direction) (at_version-ensure_version i m.version m.version) ∙ e

-- Append takes exactly the migrations whose version and direction are still free: it then files
-- the migration and moves no other, and it refuses a duplicate and changes nothing.
pub append-files :
    (i : Migrations) (m : Migration)
    → (get m.direction (at_version i m.version) ≡ none
        → ((append i (some m)).1 ≡ true)
          × ((v : ℕ) (d : Direction)
              → get d (at_version (append i (some m)).0 v)
                ≡ (if files m v d then some m else get d (at_version i v))))
      × ((dup : Migration)
          → get m.direction (at_version i m.version) ≡ some dup
          → append i (some m) ≡ (i, false))
unfolding append
append-files i m = (
  (λ e. (
    insert_migration_free (ensure_version i m.version) m (ensured_free i m e),
    λ v d.
        get-insert_migration (ensure_version i m.version) m v d (ensured_free i m e)
        ∙ rw (at_version-ensure_version i m.version v),
  )),
  append_dup i m,
)

ensure_version-Distinct :
    (i : Migrations) (k : ℕ)
    → Distinct (keys i.migrations)
    → Distinct (keys (ensure_version i k).migrations)
unfolding ensure_version
ensure_version-Distinct i k d = ground (arith, Distinct-put k [] i.migrations d)

insert_migration_indexed :
    (i : Migrations) (m : Migration)
    → Distinct (keys i.migrations)
    → get m.direction (at_version i m.version) ≡ none
    → let j = (insert_migration i m).0 in
      (j.index ≡ sort (keys j.migrations)) × Distinct (keys j.migrations)
unfolding insert_migration build_index
insert_migration_indexed i m d e =
    rw (e, insert_migration)
      (refl, Distinct-put m.version (put m.direction m (at_version i m.version)) i.migrations d)

filed-insert_migration :
    (i : Migrations) (m : Migration)
    → ((v : ℕ) (d : Direction) (n : Migration)
        → get d (at_version i v) ≡ some n
        → (n.version ≡ v) × (n.direction ≡ d))
    → (v : ℕ) (d : Direction) (n : Migration)
    → get d (at_version (insert_migration i m).0 v) ≡ some n
    → (n.version ≡ v) × (n.direction ≡ d)
filed-insert_migration i m h v d n e =
    elim (Option-cases (get m.direction (at_version i m.version))) [
      | inr (dup, taken) ↦ h v d n (rw (insert_migration_dup i m dup taken) at e)
      | inl free ↦ ground (
        arith,
        get-insert_migration i m v d free,
        h v d n,
        direction_beq_iff m.direction d,
        ==_iff m.version v,
      )
    ]

-- The versions after an append are the old ones and the new one.
get-inserted :
    (i : Migrations) (m : Migration) (v : ℕ)
    → get m.direction (at_version i m.version) ≡ none
    → (m.version == v) ≡ false
    → get v (insert_migration (ensure_version i m.version) m).0.migrations ≡ get v i.migrations
unfolding insert_migration ensure_version build_index
get-inserted i m v e ne =
    let t = put m.direction m (at_version (ensure_version i m.version) m.version) in
    rw (ensured_free i m e, insert_migration)
      (get-put m.version v t (ensure_version i m.version).migrations
        ∙ rw ne (ground (arith, get-put m.version v [] i.migrations)))

filled-insert_migration :
    (i : Migrations) (m : Migration)
    → IsValid i
    → get m.direction (at_version i m.version) ≡ none
    → let j = (insert_migration (ensure_version i m.version) m).0 in
      (v : ℕ)
      → get v j.migrations ≢ none
      → (d : Direction) × (n : Migration) × (get d (at_version j v) ≡ some n)
filled-insert_migration i m h e v has = elim (Bool-cases (m.version == v)) [
  | inl hit ↦ (
    m.direction,
    m,
    get-insert_migration (ensure_version i m.version) m v m.direction (ensured_free i m e)
        ∙ rw (hit, (direction_beq_iff m.direction m.direction).1 refl),
  )
  | inr miss ↦
      let (d, n, f) = h.filled v (λ z. has (get-inserted i m v e miss ∙ z)) in
      (
        d,
        n,
        get-insert_migration (ensure_version i m.version) m v d (ensured_free i m e)
            ∙ rw (miss, at_version-ensure_version i m.version v) f,
      )
]

-- Append keeps a valid index valid: the index is the ascending list of the versions, every
-- migration stands under its own version and direction, and no version is without a migration.
pub append-IsValid : (i : Migrations) (m : Option Migration) → IsValid i → IsValid (append i m).0
unfolding append
append-IsValid i none h = h
append-IsValid i (some m) h = elim (Option-cases (get m.direction (at_version i m.version))) [
  | inr (dup, taken) ↦ rw (append_dup i m dup taken) h
  | inl free ↦
      let j : Migrations = ensure_version i m.version in
      let (indexed, distinct) =
        insert_migration_indexed j m (ensure_version-Distinct i m.version h.distinct)
          (ensured_free i m free) in
      record {
        indexed = indexed;
        distinct = distinct;
        filed =
            filed-insert_migration j m
              (λ v d n e. h.filed v d n (rw (at_version-ensure_version i m.version v) at e));
        filled = filled-insert_migration i m h free;
      }
]

pub new_migrations-IsValid : IsValid new_migrations
unfolding new_migrations at_version get sort
new_migrations-IsValid = record {
  indexed = refl;
  distinct = tt;
  filed = λ v d m e. cc;
  filled = λ v n. absurd (n refl);
}
