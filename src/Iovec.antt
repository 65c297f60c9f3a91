-- ===== src/Iovec.antt =====
-- `array_to_iovecs` of libsystemd-sys/src/lib.rs: strings as the vectors that writev(2) reads.
pub mod Gather
mod Tests
use rust_systemd.Base.{ℕ, ◌+◌, ◌≡◌, List, [], ◌∷◌, ◌++◌, Bytes, map, refl, arith, ap}

-- A `&str`: where its bytes stand, and how many there are.
pub record Str : Type 0 where
  pub ptr : ℕ
  pub len : ℕ

pub record ConstIovec : Type 0 where
  pub iov_base : ℕ
  pub iov_len : ℕ

unfoldable pub array_to_iovecs : List Str → List ConstIovec
array_to_iovecs args = map (λ (d : Str). record { iov_base = d.ptr; iov_len = d.len }) args
