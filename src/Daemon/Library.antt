-- ===== src/Daemon/Library.antt =====
-- sd-daemon(3) and the constants of libc, which src/daemon.rs only calls: parameters of the model.
use rust_systemd.Base.{ℕ}
use rust_systemd.Base.Int.{ℤ}
use rust_systemd.Ffi.Heap.{CArg}

-- The C functions, over the state `W` that they keep. A string argument is what they find behind it.
pub record SdDaemon (W : Type 0) : Type 0 where
  pub sd_listen_fds : ℤ → W → ℤ × W
  pub sd_is_fifo : ℤ → CArg → W → ℤ × W
  pub sd_is_special : ℤ → CArg → W → ℤ × W
  pub sd_is_socket : ℤ → ℤ → ℤ → ℤ → W → ℤ × W
  pub sd_is_socket_inet : ℤ → ℤ → ℤ → ℤ → ℕ → W → ℤ × W
  pub sd_is_socket_unix : ℤ → ℤ → ℤ → CArg → ℕ → W → ℤ × W
  pub sd_is_mq : ℤ → CArg → W → ℤ × W
  pub sd_notify : ℤ → CArg → W → ℤ × W
  pub sd_pid_notify : ℤ → ℤ → CArg → W → ℤ × W
  pub sd_booted : W → ℤ × W
  -- the return value, and what was written to `usec`, which holds the argument before the call
  pub sd_watchdog_enabled : ℤ → ℕ → W → (ℤ × ℕ) × W
  -- `SOCK_STREAM`, `SOCK_DGRAM` and `SOCK_RAW` of libc
  pub sock_stream : ℤ
  pub sock_dgram : ℤ
  pub sock_raw : ℤ
