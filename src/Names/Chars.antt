-- ===== src/Names/Chars.antt =====
-- The byte classes that the name checks of src/bus/mod.rs match on, as tests and as statements.
use rust_systemd.Base.{ℕ, ◌≤◌, ◌≡◌, ◌⊎◌, Bool, ◌||◌, in_range}

-- `b'A'...b'Z' | b'a'...b'z'`
abbrev pub is_letter : ℕ → Bool
is_letter c = in_range b'A' b'Z' c || in_range b'a' b'z' c

-- `b'0'...b'9'`
abbrev pub is_digit : ℕ → Bool
is_digit c = in_range b'0' b'9' c

abbrev pub IsLetter : ℕ → Type 0
IsLetter c = ((b'A' ≤ c) × (c ≤ b'Z')) ⊎ ((b'a' ≤ c) × (c ≤ b'z'))

abbrev pub IsDigit : ℕ → Type 0
IsDigit c = (b'0' ≤ c) × (c ≤ b'9')

-- '[A-Z][a-z][0-9]_'
abbrev pub IsNameChar : ℕ → Type 0
IsNameChar c = IsLetter c ⊎ (IsDigit c ⊎ (c ≡ b'_'))

-- '[A-Z][a-z]_', with which an element that no digit may begin begins
abbrev pub IsNameStart : ℕ → Type 0
IsNameStart c = IsLetter c ⊎ (c ≡ b'_')

-- '[A-Z][a-z][0-9]_-', the characters of bus names
abbrev pub IsBusChar : ℕ → Type 0
IsBusChar c = IsNameChar c ⊎ (c ≡ b'-')

-- '[A-Z][a-z]_-', with which an element of a well-known bus name begins
abbrev pub IsBusStart : ℕ → Type 0
IsBusStart c = IsNameStart c ⊎ (c ≡ b'-')
