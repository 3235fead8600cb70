-- ===== src/Engine/Plan/Backed.antt =====
-- The sources that answer from a `Migrations` keep the contract of source/driver.go.
use migrate.Prelude.{
  ℕ, ◌≤◌, ◌≡◌, refl, sym, ◌∙◌, subst, ◌⊎◌, inl, inr, max_int, Option, none, some, Bytes,
  Option-cases,
}
use migrate.Prelude.Map.{get, nat_eq}
use migrate.Errors.{Result, ok}
use migrate.Source.Driver
use migrate.Source.Driver.{Body}
use migrate.Source.Sort.{In}
use migrate.Source.Migration.{Migration, Direction, direction_eq}
use migrate.Source.Migrations.{Migrations, at_version}
use migrate.Source.Migrations
use migrate.Source.Migrations.Index.{IsValid}
use migrate.Source.Migrations.Order.{next-next_in, prev-prev_in}
use migrate.Source.Migrations.Neighbours.{index-Ascending, Has-In, In-Has, first-head?}
use migrate.Source.Stub.{or_path_error, Stub, stub_source, read_found}
use migrate.Source.Iofs.{PartialDriver, read_migration, iofs_source}
use migrate.Engine.Plan.{Serves, Answers, IsMissing, IsFound}

-- What a read answers for a migration that is there or not.
abbrev pub Reads : Result (Body × Bytes) → Option Migration → Type 0
Reads r none = IsMissing r
Reads r (some m) = IsFound r

pub record IsBacked (drv : Driver.Driver) (i : Migrations) : Type 0 where
  pub first_is : drv.first ≡ or_path_error (Migrations.first i)
  pub next_is : (v : ℕ) → drv.next v ≡ or_path_error (Migrations.next i v)
  pub prev_is : (v : ℕ) → drv.prev v ≡ or_path_error (Migrations.prev i v)
  pub up_is : (v : ℕ) → Reads (drv.read_up v) (Migrations.up i v)
  pub down_is : (v : ℕ) → Reads (drv.read_down v) (Migrations.down i v)

or_path_error-Answers : (o : Option ℕ) → Answers (or_path_error o) o
or_path_error-Answers none = refl
or_path_error-Answers (some v) = refl

answers : (r : Result ℕ) (o p : Option ℕ) → r ≡ or_path_error o → o ≡ p → Answers r p
answers r o p e f = subst (Answers r) f (rw e (or_path_error-Answers o))

Reads-cases :
    (r : Result (Body × Bytes)) (o : Option Migration) → Reads r o → IsFound r ⊎ IsMissing r
Reads-cases r none h = inr h
Reads-cases r (some m) h = inl h

Reads-some :
    (r : Result (Body × Bytes)) (o : Option Migration) (m : Migration)
    → Reads r o
    → o ≡ some m
    → IsFound r
Reads-some r o m h e = rw e at h

Reads-none : (r : Result (Body × Bytes)) (o : Option Migration) → Reads r o → o ≡ none → IsMissing r
Reads-none r o h e = rw e at h

module _ (i : Migrations) (v : ℕ) where
  up-at_version : Migrations.up i v ≡ get Direction.up (at_version i v)
  unfolding Migrations.up at_version get
  up-at_version = elim (Option-cases (get v i.migrations)) [
    | inl e ↦ rw (e, Migrations.up, at_version)
    | inr (t, e) ↦ rw (e, Migrations.up, at_version)
  ]

  down-at_version : Migrations.down i v ≡ get Direction.down (at_version i v)
  unfolding Migrations.down at_version get
  down-at_version = elim (Option-cases (get v i.migrations)) [
    | inl e ↦ rw (e, Migrations.down, at_version)
    | inr (t, e) ↦ rw (e, Migrations.down, at_version)
  ]

  up-missing : get v i.migrations ≡ none → Migrations.up i v ≡ none
  unfolding Migrations.up
  up-missing e = rw (e, Migrations.up)

  down-missing : get v i.migrations ≡ none → Migrations.down i v ≡ none
  unfolding Migrations.down
  down-missing e = rw (e, Migrations.down)

not-In-missing :
    (i : Migrations) (h : IsValid i) (v : ℕ) → (¬ In v i.index) → get v i.migrations ≡ none
not-In-missing i h v n = elim (Option-cases (get v i.migrations)) [
  | inl e ↦ e
  | inr (t, e) ↦ absurd (n (Has-In i h v (λ z. cc)))
]

module _ (drv : Driver.Driver) (i : Migrations) (b : IsBacked drv i) where
  found :
      (v : ℕ) (d : Direction) (m : Migration)
      → get d (at_version i v) ≡ some m
      → IsFound (drv.read_up v) ⊎ IsFound (drv.read_down v)
  found v Direction.up m e =
      inl (Reads-some _ (Migrations.up i v) m (b.up_is v) (up-at_version i v ∙ e))
  found v Direction.down m e =
      inr (Reads-some _ (Migrations.down i v) m (b.down_is v) (down-at_version i v ∙ e))

  -- A source driver that answers from a valid index whose versions fit into a Go int keeps the
  -- contract of a source with exactly these versions.
  pub backed-Serves : IsValid i → ((v : ℕ) → In v i.index → v ≤ max_int) → Serves drv i.index
  backed-Serves h small =
      let asc = index-Ascending i h in
      record {
        ascending = asc;
        small = small;
        first_is = answers _ (Migrations.first i) _ b.first_is (sym (first-head? i));
        next_is = λ v. answers _ (Migrations.next i v) _ (b.next_is v) (next-next_in i asc v);
        prev_is = λ v. answers _ (Migrations.prev i v) _ (b.prev_is v) (prev-prev_in i asc v);
        up_is = λ v. Reads-cases _ (Migrations.up i v) (b.up_is v);
        down_is = λ v. Reads-cases _ (Migrations.down i v) (b.down_is v);
        held = λ v m. let (d, n, e) = h.filled v (In-Has i h v m) in found v d n e;
        absent = λ v n.
            let e = not-In-missing i h v n in
            (
              Reads-none _ (Migrations.up i v) (b.up_is v) (up-missing i v e),
              Reads-none _ (Migrations.down i v) (b.down_is v) (down-missing i v e),
            );
      }

read_found-Reads : (id : Bytes) (o : Option Migration) → Reads (read_found id o) o
read_found-Reads id none = refl
read_found-Reads id (some m) = refl

pub stub_source-IsBacked : (s : Stub) → IsBacked (stub_source s) s.migrations
unfolding stub_source
stub_source-IsBacked s = record {
  first_is = refl;
  next_is = λ v. refl;
  prev_is = λ v. refl;
  up_is = λ v. read_found-Reads _ (Migrations.up s.migrations v);
  down_is = λ v. read_found-Reads _ (Migrations.down s.migrations v);
}

-- `m` is a file of the index: the up or the down migration of a version.
abbrev pub HasFile : Migrations → Migration → Type 0
HasFile i m = (v : ℕ) × ((Migrations.up i v ≡ some m) ⊎ (Migrations.down i v ≡ some m))

-- A file system that opens every file of the index, and closes it.
abbrev pub Opens : (Bytes → Bytes → Bytes) → PartialDriver → Type 0
Opens join d =
    (m : Migration)
    → HasFile d.migrations m
    → (body : Body) × (d.fsys.open_file (join d.path m.raw) ≡ ok body) × (body.close_error ≡ none)

read_migration-Reads :
    (join : Bytes → Bytes → Bytes) (d : PartialDriver) (o : Option Migration)
    → ((m : Migration) → o ≡ some m → HasFile d.migrations m)
    → Opens join d
    → Reads (read_migration join d o) o
unfolding read_migration
read_migration-Reads join d none listed h = refl
read_migration-Reads join d (some m) listed h = let (body, e, c) = h m (listed m refl) in rw e c

-- The driver of source/iofs answers from its index, on a file system that opens each of its files
-- and closes it without an error.
pub iofs_source-IsBacked :
    (join : Bytes → Bytes → Bytes) (d : PartialDriver)
    → Opens join d
    → IsBacked (iofs_source join d) d.migrations
unfolding iofs_source
iofs_source-IsBacked join d h = record {
  first_is = refl;
  next_is = λ v. refl;
  prev_is = λ v. refl;
  up_is = λ v. read_migration-Reads join d (Migrations.up d.migrations v) (λ m e. (v, inl e)) h;
  down_is = λ v. read_migration-Reads join d (Migrations.down d.migrations v) (λ m e. (v, inr e)) h;
}
