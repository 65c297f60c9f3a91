-- ===== src/Names/Counter.antt =====
-- `periods` in the name checks of src/bus/mod.rs: an `i32`, as the word of 32 bits that it is.
use rust_systemd.Base.{ℕ, ◌+◌, ◌%◌, ◌^◌, ◌≤◌, ◌<◌, ◌≡◌, ◌⊎◌, Bool, ◌||◌, ltb, leb}

-- `periods += 1`, which wraps in a release build.
abbrev pub add_one : ℕ → ℕ
add_one periods = (periods + 1) % 2 ^ 32

-- `periods < 1`: 0, or a word whose sign is set.
abbrev pub is_below_one : ℕ → Bool
is_below_one periods = ltb periods 1 || leb (2 ^ 31) periods

abbrev pub IsBelowOne : ℕ → Type 0
IsBelowOne periods = (periods ≡ 0) ⊎ (2 ^ 31 ≤ periods)

abbrev pub IsAboveZero : ℕ → Type 0
IsAboveZero periods = (0 < periods) × (periods < 2 ^ 31)
