-- ===== src/Source/Driver.antt =====
-- source/driver.go: the interface of a source, once it is open. A source answers the same while
-- migrations run, so its methods are functions without a state.
use migrate.Prelude.{ℕ, Bytes, Option}
use migrate.Errors.{Error, Result}

-- An io.ReadCloser: what it yields before the end, or before `read_error`, and what Close returns.
pub record Body : Type 0 where
  pub bytes : Bytes
  pub read_error : Option Error
  pub close_error : Option Error

-- Each read returns the body and the identifier.
pub record Driver : Type 0 where
  pub first : Result ℕ
  pub prev : ℕ → Result ℕ
  pub next : ℕ → Result ℕ
  pub read_up : ℕ → Result (Body × Bytes)
  pub read_down : ℕ → Result (Body × Bytes)
  pub close : Option Error
