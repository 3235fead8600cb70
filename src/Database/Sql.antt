-- ===== src/Database/Sql.antt =====
-- Package database/sql, which the SQL drivers call: the calls they make, over the state `S` of the server and
-- the handles `Tx` of its transactions, and the control flow of the code around such calls.
pub mod Transaction
pub mod Table
pub mod Recorder
pub mod Methods
use migrate.Prelude.{◌≡◌, refl, ℕ, ℤ, Bool, Bytes, Option, none, some, List}
use migrate.Errors.{Error, append_error, Result, ok, err}

-- An argument of a statement.
pub data Value : Type 0 where
  int : ℤ → Value
  bool : Bool → Value
  text : Bytes → Value

-- `*sql.Rows` over one column of text: what `Scan` gives of each row, then `Err`, then `Close`.
pub record Cursor : Type 0 where
  pub rows : List (Result Bytes)
  pub failed : Option Error
  pub close_error : Option Error

-- `query_row` is `QueryRow(query).Scan(&version, &dirty)`; `query_text`, `query_bool` and `query_count` scan one
-- column of another type. `exec_within` gives up after a time in milliseconds, if that is not 0. `connect` is
-- `instance.Conn(ctx)`, and `close_pool` closes the `*sql.DB` where `close` closes the connection.
pub record Sql (S Tx : Type 0) : Type 0 where
  pub ping : S → Option Error × S
  pub exec : Bytes → List Value → S → Option Error × S
  pub begin : S → Result Tx × S
  pub tx_exec : Tx → Bytes → List Value → S → Option Error × S
  pub commit : Tx → S → Option Error × S
  pub rollback : Tx → S → Option Error × S
  pub query : Bytes → S → Result Cursor × S
  pub query_row : Bytes → S → Result (ℤ × Bool)
  pub query_text : Bytes → List Value → S → Result Bytes × S
  pub query_bool : Bytes → List Value → S → Result Bool × S
  pub query_count : Bytes → List Value → S → Result ℕ × S
  pub exec_within : ℤ → Bytes → S → Option Error × S
  pub connect : S → Option Error × S
  pub close : S → Option Error × S
  pub close_pool : S → Option Error × S

-- `if err := call; err != nil { ... }`, and what follows.
abbrev pub tried : {S A : Type 0} → Option Error × S → (Error → S → A) → (S → A) → A
tried (some e, s) fail next = fail e s
tried (none, s) fail next = next s

-- `x, err := call; if err != nil { ... }`, and what follows.
abbrev pub opened : {S A X : Type 0} → Result X × S → (Error → S → A) → (X → S → A) → A
opened (err e, s) fail next = fail e s
opened (ok x, s) fail next = next x s

-- `return &database.Error{OrigErr: err, Err: message, Query: query}`.
abbrev pub failing : {S : Type 0} → Bytes → Bytes → Error → S → Option Error × S
failing message query e s = (some (Error.failed_query e message query), s)

-- `err` after a deferred function that adds its own error: to an error by `multierror.Append`, else as it is.
abbrev pub add_deferred : Option Error → Error → Error
add_deferred none e = e
add_deferred (some earlier) e = Error.also earlier e

abbrev pub add_close : {S : Type 0} → Option Error → Option Error → S → Option Error × S
add_close none e s = (e, s)
add_close (some close_error) e s = (some (append_error e close_error), s)

-- `defer func() { if errClose := tables.Close(); ... err = multierror.Append(err, errClose) }`.
abbrev pub close_cursor : {S : Type 0} → Cursor → Option Error × S → Option Error × S
close_cursor cursor (e, s) = add_close cursor.close_error e s

-- A property of what follows a call, from its two outcomes.
module _ {ℓ} {S A : Type 0} (P : A → Type ℓ) where
  pub tried_cases :
      (r : Option Error × S) {fail : Error → S → A} {next : S → A}
      → ((e : Error) (s : S) → r ≡ (some e, s) → P (fail e s))
      → ((s : S) → r ≡ (none, s) → P (next s))
      → P (tried r fail next)
  tried_cases (some e, s) failed passed = failed e s refl
  tried_cases (none, s) failed passed = passed s refl

  pub opened_cases :
      {X : Type 0} (r : Result X × S) {fail : Error → S → A} {next : X → S → A}
      → ((e : Error) (s : S) → r ≡ (err e, s) → P (fail e s))
      → ((x : X) (s : S) → r ≡ (ok x, s) → P (next x s))
      → P (opened r fail next)
  opened_cases (err e, s) failed passed = failed e s refl
  opened_cases (ok x, s) failed passed = passed x s refl
