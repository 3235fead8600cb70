-- ===== src/Source/Iofs/Init.antt =====
-- `Init` of source/iofs/iofs.go registers the files of a directory.
use migrate.Prelude.{
  ℕ, ◌≡◌, refl, sym, ap, ◌∙◌, subst, ◌⊎◌, inl, inr, Bool, true, false, ◌&&◌, Bytes, Option, none,
  some, List, [], ◌∷◌, ◌==◌, ==_iff, ==_refl, All, if◌then◌else◌, Bool-cases, Option-cases,
}
use migrate.Prelude.Map.{get}
use migrate.Errors.{Error, Result, ok, err}
use migrate.Source.Migration.{Migration, Direction, direction_eq, direction_beq_iff}
use migrate.Source.Migrations.{Migrations, append, at_version, new_migrations}
use migrate.Source.Migrations.Index.{
  IsValid, files, append-IsValid, append-files, new_migrations-IsValid,
}
use migrate.Source.Iofs.{
  DirEntry, FileSystem, Initialized, ready, append_entry, add_parsed, add_entry, add_entries,
  init_listed, init,
}

-- The migration that is registered for a version and a direction.
abbrev pub registered : Migrations → ℕ → Direction → Option Migration
registered ms v d = get d (at_version ms v)

-- A file whose name parses is registered under its version and direction.
abbrev pub Registers : (Bytes → Result Migration) → Migrations → DirEntry → Type 0
Registers parse ms entry =
    (m : Migration)
    → entry.is_dir ≡ false
    → parse entry.name ≡ ok m
    → registered ms m.version m.direction ≡ some m

-- A file with this name is among the entries.
abbrev pub Comes : (Bytes → Result Migration) → List DirEntry → Migration → Type 0
Comes parse [] m = ⊥
Comes parse (entry ∷ entries) m =
    ((entry.is_dir ≡ false) × (parse entry.name ≡ ok m)) ⊎ Comes parse entries m

abbrev Looked : Migrations → Migration → Migrations → Type 0
Looked i m ms =
    (v : ℕ) (d : Direction) → registered ms v d ≡ (if files m v d then some m else registered i v d)

append-true :
    (i : Migrations) (m : Migration) (ms : Migrations)
    → append i (some m) ≡ (ms, true)
    → Looked i m ms × (registered i m.version m.direction ≡ none)
append-true i m ms e = elim (Option-cases (registered i m.version m.direction)) [
  | inl n ↦
      let (ok_eq, look) = (append-files i m).0 n in
      (λ v d. ap (λ x. registered x v d) (sym (ap (λ r. r.0) e)) ∙ look v d, n)
  | inr (dup, h) ↦
      let no : ◌≡◌ {A = Migrations × Bool} (i, false) (ms, true) =
        sym ((append-files i m).1 dup h) ∙ e in
      cc
]

files-itself : (m : Migration) → files m m.version m.direction ≡ true
files-itself m = rw (==_refl m.version, (direction_beq_iff m.direction m.direction).1 refl) refl

abbrev Passed : Result Migration → DirEntry → Type 0
Passed r entry = (m : Migration) → entry.is_dir ≡ false → r ≡ ok m → ⊥

-- What one entry does if Init goes on after it.
abbrev Step : Result Migration → DirEntry → Migrations → (Migrations → Type 0) → Type 0
Step r entry ms rest =
    (Passed r entry × rest ms)
    ⊎ ((m : Migration) × (entry.is_dir ≡ false)
        × (r ≡ ok m)
        × ((ms1 : Migrations) × (append ms (some m) ≡ (ms1, true)) × rest ms1))

append_entry-ready :
    (m : Migration) (r : Migrations × Bool) (k : Migrations → Initialized) (ms' : Migrations)
    → append_entry m r k ≡ ready ms'
    → (ms1 : Migrations) × (r ≡ (ms1, true)) × (k ms1 ≡ ready ms')
unfolding append_entry
append_entry-ready m (ms1, true) k ms' e = (ms1, refl, e)
append_entry-ready m (ms1, false) k ms' e = cc

add_parsed-ready :
    (i : Option Error) (m : Migration) (ms : Migrations) (k : Migrations → Initialized)
    (ms' : Migrations)
    → add_parsed i m ms k ≡ ready ms'
    → (ms1 : Migrations) × (append ms (some m) ≡ (ms1, true)) × (k ms1 ≡ ready ms')
unfolding add_parsed
add_parsed-ready none m ms k ms' e = append_entry-ready m _ k ms' e
add_parsed-ready (some x) m ms k ms' e = cc

add_entry-Step :
    (r : Result Migration) (entry : DirEntry) (ms : Migrations) (k : Migrations → Initialized)
    (ms' : Migrations)
    → add_entry r entry ms k ≡ ready ms'
    → Step r entry ms (λ ms1. k ms1 ≡ ready ms')
unfolding add_entry
add_entry-Step (err x) entry ms k ms' e = inl (λ m d h. cc, e)
add_entry-Step (ok m) entry ms k ms' e = elim (Bool-cases entry.is_dir) [
  | inl h ↦ inl (λ x d y. cc, rw h at e)
  | inr h ↦
      let (ms1, a, rest) = add_parsed-ready entry.info_error m ms k ms' (rw h at e) in
      inr (m, h, refl, (ms1, a, rest))
]

abbrev pub Keeps : Migrations → Migrations → Type 0
Keeps ms ms' =
    (v : ℕ) (d : Direction) (m : Migration)
    → registered ms v d ≡ some m
    → registered ms' v d ≡ some m

and-both : (a b : Bool) → a && b ≡ true → (a ≡ true) × (b ≡ true)
and-both true true e = (refl, refl)
and-both true false e = cc
and-both false b e = cc

files-eq :
    (m : Migration) (v : ℕ) (d : Direction)
    → files m v d ≡ true
    → (m.version ≡ v) × (m.direction ≡ d)
files-eq m v d e =
    let (a, b) = and-both (m.version == v) (direction_eq.beq m.direction d) e in
    ((==_iff m.version v).0 a, (direction_beq_iff m.direction d).0 b)

append-Keeps :
    (i : Migrations) (m : Migration) (ms : Migrations) → append i (some m) ≡ (ms, true) → Keeps i ms
append-Keeps i m ms e v d x h =
    let (look, free) = append-true i m ms e in
    elim (Bool-cases (files m v d)) [
      | inr n ↦ look v d ∙ rw n h
      | inl y ↦
          let (ev, ed) = files-eq m v d y in
          let taken : registered i m.version m.direction ≡ some x =
            ap (λ w. registered i w m.direction) ev ∙ ap (registered i v) ed ∙ h in
          let no : ◌≡◌ {A = Option Migration} none (some x) = sym free ∙ taken in cc
    ]

append-registered :
    (i : Migrations) (m : Migration) (ms : Migrations)
    → append i (some m) ≡ (ms, true)
    → registered ms m.version m.direction ≡ some m
append-registered i m ms e =
    (append-true i m ms e).0 m.version m.direction ∙ rw (files-itself m) refl

append-origin :
    (i : Migrations) (m : Migration) (ms : Migrations) (v : ℕ) (d : Direction) (x : Migration)
    → append i (some m) ≡ (ms, true)
    → registered ms v d ≡ some x
    → (registered i v d ≡ some x) ⊎ (m ≡ x)
append-origin i m ms v d x e h =
    let look : registered ms v d ≡ (if files m v d then some m else registered i v d) =
      (append-true i m ms e).0 v d in
    elim (Bool-cases (files m v d)) [
      | inl y ↦ let same : some m ≡ some x = (sym (rw y at look)) ∙ h in inr cc
      | inr n ↦ inl (sym (rw n at look) ∙ h)
    ]

module _ (parse : Bytes → Result Migration) where
  -- What Init leaves when it has gone through the entries.
  abbrev pub Listed : List DirEntry → Migrations → Migrations → Type 0
  Listed entries ms ms' =
      IsValid ms'
      × Keeps ms ms'
      × All (Registers parse ms') entries
      × ((v : ℕ) (d : Direction) (m : Migration)
          → registered ms' v d ≡ some m
          → (registered ms v d ≡ some m) ⊎ Comes parse entries m)

  add_entries-Listed :
      (entries : List DirEntry) (ms ms' : Migrations)
      → IsValid ms
      → add_entries parse entries ms ≡ ready ms'
      → Listed entries ms ms'
  unfolding add_entries
  add_entries-Listed [] ms ms' valid e =
      let same : ms ≡ ms' = cc in rw⁻¹ same (valid, (λ v d m h. h), tt, (λ v d m h. inl h))
  add_entries-Listed (entry ∷ entries) ms ms' valid e =
      elim (add_entry-Step (parse entry.name) entry ms _ ms' e) [
        | inl (passed, rest) ↦
            let (valid', keeps, all, origin) = add_entries-Listed entries ms ms' valid rest in
            (
              valid',
              keeps,
              (λ m d h. absurd (passed m d h), all),
              λ v d m h. elim (origin v d m h) [ inl o ↦ inl o | inr c ↦ inr (inr c) ],
            )
        | inr (m, dir, p, (ms1, a, rest)) ↦
            let valid1 : IsValid ms1 =
              subst IsValid (ap (λ r. r.0) a) (append-IsValid ms (some m) valid) in
            let (valid', keeps, all, origin) = add_entries-Listed entries ms1 ms' valid1 rest in
            (
              valid',
              (λ v d x h. keeps v d x (append-Keeps ms m ms1 a v d x h)),
              (
                λ m' d h.
                    let y : ◌≡◌ {A = Result Migration} (ok m) (ok m') = sym p ∙ h in
                    let same : m ≡ m' = cc in
                    rw⁻¹ same (keeps m.version m.direction m (append-registered ms m ms1 a)),
                all,
              ),
              λ v d x h. elim (origin v d x h) [
                | inr c ↦ inr (inr c)
                | inl o ↦ elim (append-origin ms m ms1 v d x a o) [
                  | inl old ↦ inl old
                  | inr same ↦ inr (inl (dir, p ∙ ap ok same))
                ]
              ],
            )
      ]

  nothing_registered :
      (v : ℕ) (d : Direction) (m : Migration) → registered new_migrations v d ≡ some m → ⊥
  unfolding new_migrations at_version get
  nothing_registered v d m h = cc

  -- When the directory can be read and Init returns no error, the index is valid, each file of the
  -- directory whose name parses is registered under its version and direction, and nothing else is.
  pub init-Listed :
      (fsys : FileSystem) (path : Bytes) (entries : List DirEntry) (ms : Migrations)
      → fsys.read_dir path ≡ ok entries
      → init parse fsys path ≡ ready ms
      → IsValid ms
        × All (Registers parse ms) entries
        × ((v : ℕ) (d : Direction) (m : Migration)
            → registered ms v d ≡ some m
            → Comes parse entries m)
  unfolding init init_listed
  init-Listed fsys path entries ms listed e =
      let run : add_entries parse entries new_migrations ≡ ready ms = rw listed at e in
      let (valid, keeps, all, origin) =
        add_entries-Listed entries new_migrations ms new_migrations-IsValid run in
      (
        valid,
        all,
        λ v d m h. elim (origin v d m h) [
          | inl old ↦ absurd (nothing_registered v d m old)
          | inr c ↦ c
        ],
      )
