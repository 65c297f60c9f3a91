-- ===== src/Ffi/Errors.antt =====
-- What a Rust function with an `io::Result` does: it returns, fails with an `io::Error`, or panics.
use rust_systemd.Base.{Bytes}
use rust_systemd.Base.Int.{ℤ}

-- `std::io::ErrorKind`, as far as the source names it.
pub data ErrorKind : Type 0 where
  invalid_input invalid_data : ErrorKind

-- `std::io::Error`: an errno, or a kind with a message. `nul_error` is what `From<NulError>` makes.
pub data IoError : Type 0 where
  raw_os_error : ℤ → IoError
  custom : ErrorKind → Bytes → IoError
  nul_error : IoError

pub data Panic : Type 0 where
  unwrap_nul unwrap_none unwrap_err assertion : Panic

pub data Outcome (A : Type 0) : Type 0 where
  returns : A → Outcome A
  fails : IoError → Outcome A
  panics : Panic → Outcome A
