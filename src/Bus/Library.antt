-- ===== src/Bus/Library.antt =====
-- sd_bus_error(3) and the crate utf8_cstr, which src/bus/mod.rs only uses.
use rust_systemd.Base.{ℕ, ◌-◌, ◌≡◌, Option, none, some, [], ◌∷◌, ◌++◌, Bytes, Lacks, take, length}
use rust_systemd.Base.Int.{ℤ}
use rust_systemd.Ffi.Heap.{Memory, CArg, at, view}
use rust_systemd.Names.CStr.{up_to_nul}

-- `sd_bus_error` of libsystemd-sys/src/bus/mod.rs; null is 0.
pub record SdBusError : Type 0 where
  pub name : ℕ
  pub message : ℕ
  pub need_free : ℤ

-- The C functions work on the heap: an error is given by its address, so a call returns it anew.
pub record SdError : Type 0 where
  pub sd_bus_error_set : SdBusError → ℕ → ℕ → Memory → SdBusError × Memory
  pub sd_bus_error_free : SdBusError → Memory → SdBusError × Memory
  -- what stands at the destination, and the error that is copied
  pub sd_bus_error_copy : SdBusError → SdBusError → Memory → SdBusError × Memory
  pub sd_bus_error_get_errno : SdBusError → Memory → ℤ

-- A `&Utf8CStr`: where its text stands, and how long it is without '\0'.
pub record Utf8CStr : Type 0 where
  pub ptr : ℕ
  pub len : ℕ

-- `Utf8CStr::from_raw_parts(p, n)`, where `n` counts the '\0'.
abbrev pub from_raw_parts : ℕ → ℕ → Utf8CStr
from_raw_parts p n = record { ptr = p; len = n - 1 }

-- `CStr::from_ptr` gives the text at a pointer; `none` where there is none and the call is undefined.
unfoldable pub c_text : CArg → Option Bytes
unfolding up_to_nul
c_text (at b) = some (up_to_nul b)
c_text _ = none

abbrev first_bytes : ℕ → CArg → Option Bytes
first_bytes n (at b) = some (take n b)
first_bytes n _ = none

-- The text of a `&Utf8CStr`.
unfoldable pub text_of : Memory → Utf8CStr → Option Bytes
text_of m x = first_bytes x.len (view m x.ptr)

-- A reference that keeps its promise: a C string with the text, of that length.
pub record IsUtf8CStr (m : Memory) (x : Utf8CStr) (text : Bytes) : Type 0 where
  pub stands : view m x.ptr ≡ at (text ++ 0 ∷ [])
  pub no_nul : Lacks 0 text
  pub measured : x.len ≡ length text
