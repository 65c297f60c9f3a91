-- ===== src/Names/BusName.antt =====
-- `BusName` of src/bus/mod.rs: the check of a bus name, and the unchecked constructors.
pub mod Grammar
pub mod Errors
use rust_systemd.Base.{
  ℕ, zero, suc, ◌+◌, ◌≤◌, ◌<◌, ◌≡◌, ◌≢◌, ◌⊎◌, inl, inr, ◌↔◌, Bool, true, false, not, ◌&&◌, ◌||◌,
  Option, none, some, List, [], ◌∷◌, ◌++◌, arith, Bytes, ◌==◌, ltb, if◌then◌else◌, All, length,
  length-append, Result, ok, err, refl, c_codes, codes, ap, sym, subst, ◌∙◌, append_assoc,
}
use rust_systemd.Names.CStr
use rust_systemd.Names.Chars.{is_letter, is_digit}
use rust_systemd.Names.Counter.{add_one, is_below_one}

-- The messages of `Err`, one constructor for each.
pub data BusNameError : Type 0 where
  no_character too_long leading_period bad_start empty_element : BusNameError
  leading_digit trailing_period one_element bad_character not_terminated : BusNameError

-- `inner` is the `CStr`: a slice of bytes with what ends it.
pub record BusName : Type 0 where
  pub inner : Bytes

-- `Deref`: the slice, as a `CStr`.
abbrev pub deref : BusName → Bytes
deref self = self.inner

unfoldable pub from_bytes_unchecked : Bytes → BusName
from_bytes_unchecked b = record { inner = b }

-- `for w in b.windows(2)`: `prev` is w[0], and the list starts at w[1].
scan : Bytes → Bool → ℕ → ℕ → Bytes → Result BusNameError BusName
unfolding from_bytes_unchecked
scan b is_unique prev periods [] = err not_terminated
scan b is_unique prev periods (c ∷ rest) =
    let next = scan b is_unique c (if c == b'.' then add_one periods else periods) rest in
    if c == b'.'
    then (if prev == b'.' || prev == b':' then err empty_element else next)
    else if is_letter c || c == b'_' || c == b'-'
    then next
    else if is_digit c
    then (if prev == b'.' && not is_unique then err leading_digit else next)
    else if c == 0
    then (if prev == b'.' && not (length b == 1)
        then err trailing_period
        else if is_below_one periods
        then err one_element
        else ok (from_bytes_unchecked b))
    else err bad_character

-- The `match b[0]`, and the loop with the flag that it sets.
from_first : ℕ → Bytes → Result BusNameError BusName
unfolding scan
from_first c rest =
    if c == b'.'
    then err leading_period
    else if is_letter c || c == b'_' || c == b'-'
    then scan (c ∷ rest) false c 0 rest
    else if c == b':'
    then scan (c ∷ rest) true c 0 rest
    else err bad_start

unfoldable pub from_bytes : Bytes → Result BusNameError BusName
unfolding from_first
from_bytes [] = err no_character
from_bytes (c ∷ rest) = if ltb 256 (length (c ∷ rest)) then err too_long else from_first c rest

-- `from_ptr_unchecked`, of the bytes that stand at the pointer.
unfoldable pub from_ptr_unchecked : Bytes → BusName
unfolding from_bytes_unchecked
from_ptr_unchecked at = from_bytes_unchecked (CStr.to_bytes (CStr.from_ptr at))
