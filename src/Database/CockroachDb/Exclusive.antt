-- ===== src/Database/CockroachDb/Exclusive.antt =====
-- database/cockroachdb/cockroachdb.go: what the lock table does for two drivers of one database.
use migrate.Prelude.{
  ◌≡◌, ◌≢◌, ◌⊎◌, inl, inr, sym, ◌∙◌, ap, Bool, true, false, Bytes, Option, none, some, [], ◌∷◌,
}
use migrate.Errors.{Error, database_locked}
use migrate.Database.Util.{cas_restore_on_err}
use migrate.Database.Sql.{Sql, text, tried_cases, opened_cases, add_close}
use migrate.Database.CockroachDb.{
  Config, CockroachDb, Crdb, lock, lock_id, select_lock, insert_lock, take_lock, lock_within,
  try_lock, with_flag, next,
}

-- The lock of a database, in a table of locks.
pub record Place : Type 0 where
  pub lock_table : Bytes
  pub database_name : Bytes

-- A driver that uses this lock, with any table of versions, and with `ForceLock` or without.
abbrev pub config_of : Place → Bytes → Bool → Config
config_of place migrations_table force_lock = record {
  migrations_table = migrations_table;
  lock_table = place.lock_table;
  force_lock = force_lock;
  database_name = place.database_name;
}

-- A transaction on `f` was committed that began with what was committed in `s`.
abbrev pub Committed :
    {S Tx : Type 0} → (S → Bool) → (Tx → S → Bool) → (Tx → S → Option Error × S) → S → S → Type 0
Committed {S} {Tx} held seen f s s' =
    (tx : Tx) × (s1 : S) × (s2 : S) × (seen tx s1 ≡ held s)
    × (f tx s1 ≡ (none, s2))
    × (held s' ≡ seen tx s2)

-- A server on which the lock is a row of the lock table: `held` is whether the row was committed, and
-- `seen` whether a transaction sees it. A transaction that `ExecuteTx` ran with success was committed; one that
-- failed left what was committed, or was committed all the same (crdb.AmbiguousCommitError). Reading changes
-- nothing, and the number of the lock is the table's primary key, so that a second row cannot be inserted.
pub record LockTable {S Tx : Type 0} (crdb : Crdb S Tx) (sql : Sql S Tx) (place : Place)
    : Type 0 where
  pub held : S → Bool
  pub seen : Tx → S → Bool
  pub commits :
      (f : Tx → S → Option Error × S) (s s' : S)
      → crdb.execute_tx f s ≡ (none, s')
      → Committed held seen f s s'
  pub aborts :
      (f : Tx → S → Option Error × S) (s s' : S) (e : Error)
      → crdb.execute_tx f s ≡ (some e, s')
      → (held s' ≡ held s) ⊎ Committed held seen f s s'
  pub select_keeps :
      (tx : Tx) (s : S)
      → seen tx
          (crdb.tx_query tx
            (select_lock (config_of place [] false))
            (text (lock_id crdb sql (config_of place [] false)) ∷ [])
            s).1
        ≡ seen tx s
  pub insert_sets :
      (tx : Tx) (s s' : S)
      → sql.tx_exec tx
          (insert_lock (config_of place [] false))
          (text (lock_id crdb sql (config_of place [] false)) ∷ [])
          s
        ≡ (none, s')
      → (seen tx s ≡ false) × (seen tx s' ≡ true)

module _ {S Tx : Type 0} (crdb : Crdb S Tx) (sql : Sql S Tx) {place : Place}
    (table : LockTable crdb sql place) where
  -- If the call returned nil, the row was not there in `s` and is there now.
  abbrev Inserts : Tx → S → Option Error × S → Type 0
  Inserts tx s r = r.0 ≡ none → (table.seen tx s ≡ false) × (table.seen tx r.1 ≡ true)

  insert-Inserts :
      (t : Bytes) (force : Bool) (tx : Tx) (s : S)
      → Inserts tx s (take_lock crdb sql (config_of place t force) false tx s)
  insert-Inserts t force tx s =
      tried_cases (Inserts tx s) (sql.tx_exec tx _ _ s) (λ e s1 h nil. cc)
        (λ s1 h nil. table.insert_sets tx s s1 h)

  take_lock-Inserts :
      (t : Bytes) (force has_row : Bool) (tx : Tx) (s : S)
      → Inserts tx s (take_lock crdb sql (config_of place t force) has_row tx s)
  take_lock-Inserts t force false tx s = insert-Inserts t force tx s
  take_lock-Inserts t true true tx s = insert-Inserts t true tx s
  take_lock-Inserts t false true tx s = λ nil. cc

  close-Inserts :
      (tx : Tx) (s : S) (close_error : Option Error) (r : Option Error × S)
      → Inserts tx s r
      → Inserts tx s (add_close close_error r.0 r.1)
  close-Inserts tx s none r inserts = inserts
  close-Inserts tx s (some e) r inserts = λ nil. cc

  lock_within-Inserts :
      (t : Bytes) (force : Bool) (tx : Tx) (s : S)
      → Inserts tx s (lock_within crdb sql (config_of place t force) tx s)
  lock_within-Inserts t force tx s =
      opened_cases (Inserts tx s) (crdb.tx_query tx _ _ s) (λ e s1 h nil. cc)
        (λ cursor s1 h.
          let taken = take_lock crdb sql (config_of place t force) (next cursor.rows) tx s1 in
          close-Inserts tx s cursor.close_error taken (λ nil.
            let inserts = take_lock-Inserts t force (next cursor.rows) tx s1 nil in
            (sym (table.select_keeps tx s) ∙ ap (λ r. table.seen tx r.1) h ∙ inserts.0, inserts.1)))

  -- A transaction of `Lock` that was committed found no row and left one.
  lock_within-took :
      (t : Bytes) (force : Bool) (s s' : S)
      → Committed table.held table.seen (lock_within crdb sql (config_of place t force)) s s'
      → (table.held s ≡ false) × (table.held s' ≡ true)
  lock_within-took t force s s' (tx, s1, s2, began, ran, committed) =
      let inserts = lock_within-Inserts t force tx s1 (ap (λ r. r.0) ran) in
      (sym began ∙ inserts.0, committed ∙ ap (λ r. table.seen tx r.1) (sym ran) ∙ inserts.1)

  try_lock-took :
      (t : Bytes) (force : Bool) (s s' : S)
      → try_lock crdb sql (config_of place t force) s ≡ (none, s')
      → (table.held s ≡ false) × (table.held s' ≡ true)
  try_lock-took t force s s' h = lock_within-took t force s s' (table.commits _ s s' h)

  not_committed : {A : Type 0} (s : S) → (table.held s ≡ false) → table.held s ≡ true → A
  not_committed s free held = absurd (cc)

  -- With the row there, the transaction fails and the row stays.
  try_lock-held :
      (t : Bytes) (force : Bool) (s : S) (r : Option Error × S)
      → try_lock crdb sql (config_of place t force) s ≡ r
      → table.held s ≡ true
      → (r.0 ≢ none) × (table.held r.1 ≡ true)
  try_lock-held t force s (none, s') h held = not_committed s (try_lock-took t force s s' h).0 held
  try_lock-held t force s (some e, s') h held = (
    λ nil. cc,
    elim (table.aborts (lock_within crdb sql (config_of place t force)) s s' e h) [
      | inl same ↦ same ∙ held
      | inr committed ↦ (lock_within-took t force s s' committed).1
    ],
  )

  lock-took :
      (c c' : CockroachDb S) (flag : Bool) (r : Option Error × S)
      → with_flag c (cas_restore_on_err false true database_locked (λ s. r) (flag, c.db))
        ≡ (none, c')
      → r ≡ (none, c'.db)
  unfolding cas_restore_on_err
  lock-took c c' false (none, s) h = ap (λ x. (none, x.1.db)) h
  lock-took c c' false (some e, s) h = cc
  lock-took c c' true r h = cc

  lock-held :
      (c : CockroachDb S) (flag : Bool) (r : Option Error × S)
      → (r.0 ≢ none) × (table.held r.1 ≡ true)
      → table.held c.db ≡ true
      → ((with_flag c (cas_restore_on_err false true database_locked (λ s. r) (flag, c.db))).0
          ≢ none)
        × (table.held
              (with_flag c
                (cas_restore_on_err false true database_locked (λ s. r) (flag, c.db))).1.db
            ≡ true)
  unfolding cas_restore_on_err
  lock-held c false (none, s) (failed, after) before = (failed, after)
  lock-held c false (some e, s) (failed, after) before = (failed, after)
  lock-held c true r (failed, after) before = (λ nil. cc, before)

  -- Two drivers that use one lock, each with its own table of versions and with ForceLock or without: when a
  -- Lock of the first returned nil, no row was committed before it and one is after it, and while that row is
  -- there a Lock of the second returns an error and leaves the row. ForceLock does not force: the row that it
  -- passes over makes the insertion fail.
  pub lock-exclusive :
      (t u : Bytes) (force force' : Bool) (p p' q : CockroachDb S)
      → p.config ≡ config_of place t force
      → q.config ≡ config_of place u force'
      → lock crdb sql p ≡ (none, p')
      → table.held q.db ≡ table.held p'.db
      → (table.held p.db ≡ false)
        × (table.held p'.db ≡ true)
        × ((lock crdb sql q).0 ≢ none)
        × (table.held (lock crdb sql q).1.db ≡ true)
  unfolding lock cas_restore_on_err
  lock-exclusive t u force force' p p' q p_config q_config first same =
      let took = try_lock-took t force p.db p'.db (
        ap (λ c. try_lock crdb sql c p.db) (sym p_config)
        ∙ lock-took p p' p.is_locked (try_lock crdb sql p.config p.db) first) in
      let refused =
        lock-held q q.is_locked (try_lock crdb sql q.config q.db)
          (try_lock-held u force' q.db (try_lock crdb sql q.config q.db)
            (ap (λ c. try_lock crdb sql c q.db) (sym q_config)) (same ∙ took.1))
          (same ∙ took.1) in
      (took.0, took.1, refused.0, refused.1)
