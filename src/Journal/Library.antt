-- ===== src/Journal/Library.antt =====
-- sd-journal(3), which src/journal.rs only calls, and the constants of libsystemd-sys/src/journal.rs.
use rust_systemd.Base.{ℕ, Option, Bytes}
use rust_systemd.Base.Int.{ℤ}
use rust_systemd.Ffi.Heap.{CArg}

abbrev pub sd_journal_local_only : ℕ
sd_journal_local_only = 1

abbrev pub sd_journal_runtime_only : ℕ
sd_journal_runtime_only = 2

abbrev pub sd_journal_system : ℕ
sd_journal_system = 4

abbrev pub sd_journal_current_user : ℕ
sd_journal_current_user = 8

-- The C functions, over the state `W` that they keep: return values, and what they write. A cursor is
-- what stands at the pointer that was written, null if `none`. `mstring_from_raw` is
-- `MString::from_raw` of the crate mbox: a string, or an error.
pub record SdJournal (W : Type 0) : Type 0 where
  pub sd_journal_open : ℤ → W → (ℤ × ℕ) × W
  pub sd_journal_enumerate_data : ℕ → W → (ℤ × Bytes) × W
  pub sd_journal_restart_data : ℕ → W → Unit {0} × W
  pub sd_journal_previous : ℕ → W → ℤ × W
  pub sd_journal_next : ℕ → W → ℤ × W
  pub sd_journal_seek_head : ℕ → W → ℤ × W
  pub sd_journal_seek_tail : ℕ → W → ℤ × W
  pub sd_journal_seek_monotonic_usec : ℕ → Bytes → ℕ → W → ℤ × W
  pub sd_journal_seek_realtime_usec : ℕ → ℕ → W → ℤ × W
  pub sd_journal_seek_cursor : ℕ → CArg → W → ℤ × W
  pub sd_journal_get_cursor : ℕ → W → (ℤ × Option Bytes) × W
  pub mstring_from_raw : Option Bytes → Option Bytes
