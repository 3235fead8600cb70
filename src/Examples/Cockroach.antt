-- ===== src/Examples/Cockroach.antt =====
-- Two CockroachDB drivers on a server in memory whose lock table has at most one row.
use migrate.Prelude.{
  ℕ, ◌≡◌, ◌≢◌, refl, sym, ap, inl, pos, Bool, true, false, Bytes, Option, none, some, List, [], ◌∷◌,
  codes,
}
use migrate.Errors.{Error, external, Result, ok}
use migrate.Database.Util.{cas_restore_on_err}
use migrate.Database.Sql.{Sql}
use migrate.Database.Sql.Table.{Row}
use migrate.Database.CockroachDb.{CockroachDb, Crdb, lock}
use migrate.Database.CockroachDb.Exclusive.{Place, LockTable, Committed, config_of, lock-exclusive}
use migrate.Examples.Server.{Server, server, memory}

abbrev has_row : List Row → Bool
has_row [] = false
has_row (row ∷ rows) = true

abbrev insert_once : List Row → Server → Option Error × Server
insert_once [] s = (none, record s { pending = (pos 7, true) ∷ [] })
insert_once (row ∷ rows) s = (some (external 3), s)

abbrev row_texts : List Row → List (Result Bytes)
row_texts [] = []
row_texts (row ∷ rows) = ok (codes "7") ∷ row_texts rows

abbrev sql : Sql Server ℕ
sql = record (memory [] []) { tx_exec = λ tx query args s. insert_once s.pending s }

abbrev finish : Server → Option Error × Server → Option Error × Server
finish s (none, s1) = (none, record s1 { committed = s1.pending })
finish s (some e, s1) = (some e, record s1 { committed = s.committed })

abbrev begin : Server → Server
begin s = record s { pending = s.committed }

abbrev crdb : Crdb Server ℕ
crdb = record {
  checksum = λ name. 7;
  is_undefined_table = λ e. false;
  execute_tx = λ f s. finish s (f 7 (begin s));
  tx_query = λ tx query args s.
      (ok (record { rows = row_texts s.pending; failed = none; close_error = none }), s);
}

abbrev held : Server → Bool
held s = has_row s.committed

abbrev seen : ℕ → Server → Bool
seen tx s = has_row s.pending

finish-commits :
    (f : ℕ → Server → Option Error × Server) (s s' : Server) (r : Option Error × Server)
    → f 7 (begin s) ≡ r
    → finish s r ≡ (none, s')
    → Committed held seen f s s'
finish-commits f s s' (none, s1) ran h =
    (7, begin s, s1, refl, ran, ap (λ r. has_row r.1.committed) (sym h))
finish-commits f s s' (some e, s1) ran h = cc

finish-aborts :
    (s s' : Server) (e : Error) (r : Option Error × Server)
    → finish s r ≡ (some e, s')
    → held s' ≡ held s
finish-aborts s s' e (none, s1) h = cc
finish-aborts s s' e (some x, s1) h = ap (λ r. has_row r.1.committed) (sym h)

inserted :
    (rows : List Row) (s s' : Server)
    → insert_once rows s ≡ (none, s')
    → (has_row rows ≡ false) × (has_row s'.pending ≡ true)
inserted [] s s' h = (refl, ap (λ r. has_row r.1.pending) (sym h))
inserted (row ∷ rows) s s' h = cc

abbrev place : Place
place = record { lock_table = codes "schema_lock"; database_name = codes "bank" }

abbrev table : LockTable crdb sql place
table = record {
  held = held;
  seen = seen;
  commits = λ f s s' h. finish-commits f s s' (f 7 (begin s)) refl h;
  aborts = λ f s s' e h. inl (finish-aborts s s' e (f 7 (begin s)) h);
  select_keeps = λ tx s. refl;
  insert_sets = λ tx s s' h. inserted s.pending s s' h;
}

-- The second driver is to force the lock.
abbrev driver_of : Bytes → Bool → Server → CockroachDb Server
driver_of migrations_table force s = record {
  db = s;
  is_locked = false;
  config = config_of place migrations_table force;
}

abbrev first : CockroachDb Server
first = driver_of (codes "a") false (server [])

abbrev locked_first : CockroachDb Server
locked_first = (lock crdb sql first).1

abbrev second : CockroachDb Server
second = driver_of (codes "b") true locked_first.db

lock_first : lock crdb sql first ≡ (none, locked_first)
unfolding lock cas_restore_on_err
lock_first = refl

lock-exclusive_example :
    (held first.db ≡ false)
    × (held locked_first.db ≡ true)
    × ((lock crdb sql second).0 ≢ none)
    × (held (lock crdb sql second).1.db ≡ true)
lock-exclusive_example =
    lock-exclusive crdb sql table (codes "a") (codes "b") false true first locked_first second refl
      refl lock_first refl
