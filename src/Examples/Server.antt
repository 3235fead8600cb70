-- ===== src/Examples/Server.antt =====
-- A database server in memory that knows the three statements about the table of versions and takes any other
-- statement but one, for the examples of the SQL drivers.
use migrate.Prelude.{
  ℕ, ◌≡◌, refl, sym, ◌∙◌, ap, ℤ, Bool, true, false, Bytes, Option, none, some, List, [], ◌∷◌, ◌++◌,
  codes,
}
use migrate.Errors.{Error, external, Result, ok}
use migrate.Registry.{bytes_beq}
use migrate.Database.Sql.{Sql, Value, int, bool}
use migrate.Database.Sql.Table.{Row, Table, first_row}

abbrev pub bad_statement : Bytes
bad_statement = codes "DROP EVERYTHING"

pub record Server : Type 0 where
  pub committed : List Row
  pub pending : List Row
  pub tables : List Bytes

abbrev pub server : List Row → Server
server rows = record { committed = rows; pending = []; tables = [] }

abbrev insert_values : List Value → Server → Option Error × Server
insert_values (int v ∷ bool d ∷ []) s = (none, record s { pending = s.pending ++ (v, d) ∷ [] })
insert_values _ s = (some (external 2), s)

abbrev pub commit_all : Server → Option Error × Server
commit_all s = (none, record s { committed = s.pending })

pub commit_fails-pending :
    (s s' : Server) (e : Error) → commit_all s ≡ (some e, s') → s'.committed ≡ s.committed
commit_fails-pending s s' e h = cc

abbrev map_ok : List Bytes → List (Result Bytes)
map_ok [] = []
map_ok (name ∷ names) = ok name ∷ map_ok names

-- Whether the statement clears the table, inserts a row, or is refused.
abbrev pub execute_as : Bool → Bool → Bool → List Value → Server → Option Error × Server
execute_as true inserts refused args s = (none, record s { pending = [] })
execute_as false true refused args s = insert_values args s
execute_as false false true args s = (some (external 1), s)
execute_as false false false args s = (none, s)

insert_values-committed :
    (args : List Value) (s : Server) → (insert_values args s).1.committed ≡ s.committed
insert_values-committed (int v ∷ bool d ∷ []) s = refl
insert_values-committed _ s = refl

pub execute_as-committed :
    (clears inserts refused : Bool) (args : List Value) (s : Server)
    → (execute_as clears inserts refused args s).1.committed ≡ s.committed
execute_as-committed true inserts refused args s = refl
execute_as-committed false true refused args s = insert_values-committed args s
execute_as-committed false false true args s = refl
execute_as-committed false false false args s = refl

pub execute_as-pending :
    (refused : Bool) (args : List Value) (s : Server)
    → (execute_as false false refused args s).1.pending ≡ s.pending
execute_as-pending true args s = refl
execute_as-pending false args s = refl

module _ (clear insert : Bytes) where
  abbrev pub execute : Bytes → List Value → Server → Option Error × Server
  execute query args s =
      execute_as (bytes_beq query clear) (bytes_beq query insert) (bytes_beq query bad_statement)
        args s

  abbrev pub memory : Sql Server ℕ
  memory = record {
    ping = λ s. (none, s);
    exec = execute;
    begin = λ s. (ok 7, record s { pending = s.committed });
    tx_exec = λ tx. execute;
    commit = λ tx. commit_all;
    rollback = λ tx s. (none, s);
    query = λ q s. (ok (record { rows = map_ok s.tables; failed = none; close_error = none }), s);
    query_row = λ q s. first_row s.committed;
    query_text = λ q args s. (ok (codes "public"), s);
    query_bool = λ q args s. (ok true, s);
    query_count = λ q args s. (ok 1, s);
    exec_within = λ timeout query. execute query [];
    connect = λ s. (none, s);
    close = λ s. (none, s);
    close_pool = λ s. (none, s);
  }

  -- The three statements are told apart.
  module _ (clears : bytes_beq clear clear ≡ true) (differs : bytes_beq insert clear ≡ false)
      (inserts : bytes_beq insert insert ≡ true) (select : Bytes) where
    abbrev pub IsOther : Bytes → Type 0
    IsOther query = (bytes_beq query clear ≡ false) × (bytes_beq query insert ≡ false)

    pub other-pending :
        (query : Bytes) (s s' : Server)
        → IsOther query
        → execute query [] s ≡ (none, s')
        → s'.pending ≡ s.pending
    other-pending query s s' (h, i) =
        rw (h, i)
          λ e.
            ap (λ p. p.1.pending) (sym e) ∙ execute_as-pending (bytes_beq query bad_statement) [] s

    pub clear-pending : (s s' : Server) → execute clear [] s ≡ (none, s') → s'.pending ≡ []
    clear-pending s s' = rw clears λ e. ap (λ p. p.1.pending) (sym e)

    pub insert-pending :
        (v : ℤ) (d : Bool) (s s' : Server)
        → execute insert (int v ∷ bool d ∷ []) s ≡ (none, s')
        → s'.pending ≡ s.pending ++ (v, d) ∷ []
    insert-pending v d s s' = rw (differs, inserts) λ e. ap (λ p. p.1.pending) (sym e)

    abbrev pub memory_table : Table memory clear insert select
    memory_table = record {
      rows = λ s. s.committed;
      working = λ tx s. s.pending;
      contained = λ query. true ≡ true;
      storable = λ v. true ≡ true;
      begin_keeps = λ s. refl;
      tx_exec_keeps = λ tx query args s inside.
          execute_as-committed (bytes_beq query clear) (bytes_beq query insert)
            (bytes_beq query bad_statement) args s;
      begin_sees = λ tx s s' h. ap (λ p. p.1.pending) (sym h);
      apart = IsOther;
      apart_contained = λ query h. refl;
      apart_keeps = λ tx query s s' other h. other-pending query s s' other h;
      exec_keeps = λ query args s other.
          execute_as-committed (bytes_beq query clear) (bytes_beq query insert)
            (bytes_beq query bad_statement) args s;
      query_bool_keeps = λ query args s other. refl;
      within_keeps = λ timeout query s other.
          execute_as-committed (bytes_beq query clear) (bytes_beq query insert)
            (bytes_beq query bad_statement) [] s;
      clear_contained = refl;
      insert_contained = refl;
      clear_empties = λ tx s s' h. clear-pending s s' h;
      insert_appends = λ tx v d s s' fits h. insert-pending v d s s' h;
      rollback_keeps = λ tx s. refl;
      commit_publishes = λ tx s s' h. ap (λ p. p.1.committed) (sym h);
      commit_fails = λ tx s s' e h. commit_fails-pending s s' e h;
      select_first = λ s. refl;
    }
