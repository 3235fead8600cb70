-- ===== src/Database/Driver.antt =====
-- database/driver.go: the interface of a database, over the state `D` that the driver keeps.
use migrate.Prelude.{ℤ, Bool, Bytes, Option}
use migrate.Errors.{Error, Result}

-- An io.Reader as its consumer meets it: the bytes, and whether an end follows them. Without one a
-- consumer that reads on waits forever.
pub record Reader : Type 0 where
  pub bytes : Bytes
  pub ended : Bool

-- `none` as the answer of `run` means that the call never returns.
pub record Driver (D : Type 0) : Type 0 where
  pub lock : D → Option Error × D
  pub unlock : D → Option Error × D
  pub run : Reader → D → Option (Option Error × D)
  pub set_version : ℤ → Bool → D → Option Error × D
  pub version : D → Result (ℤ × Bool)
  pub drop : D → Option Error × D
  pub close : D → Option Error × D
