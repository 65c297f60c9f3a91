-- ===== src/Base/Int.antt =====
-- `c_int`: the integers that the C functions return, with the two's complement negation of `-ret`.
use Prim.Native.Nat.{ℕ, zero, suc, ◌-◌, ◌≤◌}
use mathlib.Core.Bool.{Bool, true, false}
use mathlib.Core.Path.{◌≡◌, refl}
use mathlib.Core.Logic.{◌⊎◌, inl, inr}
use rust_systemd.Base.Tests.{ltb, ◌==◌, if◌then◌else◌}

-- `negsuc n` is -(n + 1).
pub data ℤ : Type 0 where
  pos : ℕ → ℤ
  negsuc : ℕ → ℤ

-- 2^31 - 1
abbrev pub c_int_max : ℕ
c_int_max = 2147483647

-- The values of a 32-bit `c_int`.
abbrev pub IsCInt : ℤ → Type 0
IsCInt (pos n) = n ≤ c_int_max
IsCInt (negsuc n) = n ≤ c_int_max

-- `ret < 0`
abbrev pub is_negative : ℤ → Bool
is_negative (pos n) = false
is_negative (negsuc n) = true

-- `-ret` on a `c_int`: the negation of the least value is that value again.
abbrev pub neg_c_int : ℤ → ℤ
neg_c_int (pos zero) = pos 0
neg_c_int (pos (suc n)) = negsuc n
neg_c_int (negsuc n) = if n == c_int_max then negsuc n else pos (suc n)

-- `b as c_int`
abbrev pub bool_c_int : Bool → ℤ
bool_c_int true = pos 1
bool_c_int false = pos 0

-- `result != 0`
abbrev pub is_nonzero : ℤ → Bool
is_nonzero (pos zero) = false
is_nonzero (pos (suc n)) = true
is_nonzero (negsuc n) = true

-- `n as c_int` for a 32-bit unsigned `n`.
abbrev pub wrap_c_int : ℕ → ℤ
wrap_c_int n = if ltb c_int_max n then negsuc (4294967295 - n) else pos n

-- The three answers that the wrappers tell apart.
pub ℤ-cases : (z : ℤ) → ((n : ℕ) × (z ≡ pos (suc n))) ⊎ ((z ≡ pos 0) ⊎ ((n : ℕ) × (z ≡ negsuc n)))
ℤ-cases (pos zero) = inr (inl refl)
ℤ-cases (pos (suc n)) = inl (n, refl)
ℤ-cases (negsuc n) = inr (inr (n, refl))
