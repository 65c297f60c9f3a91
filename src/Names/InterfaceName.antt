-- ===== src/Names/InterfaceName.antt =====
-- `InterfaceName` of src/bus/mod.rs: the check of an interface name, and the unchecked constructors.
pub mod Grammar
pub mod Errors
mod Overflow
use rust_systemd.Base.{
  ℕ, zero, suc, ◌+◌, ◌≤◌, ◌<◌, ◌≡◌, ◌≢◌, ◌⊎◌, inl, inr, ◌↔◌, Bool, true, false, not, ◌&&◌, ◌||◌,
  Option, none, some, List, [], ◌∷◌, ◌++◌, arith, Bytes, ◌==◌, ltb, if◌then◌else◌, All, length,
  Result, ok, err, refl, c_codes, codes, ap, sym, subst, ◌∙◌, append_assoc,
}
use rust_systemd.Names.CStr
use rust_systemd.Names.Chars.{is_letter, is_digit}
use rust_systemd.Names.Counter.{add_one, is_below_one}

-- The messages of `Err`, one constructor for each.
pub data InterfaceError : Type 0 where
  no_character leading_period bad_start double_period : InterfaceError
  leading_digit trailing_period one_element bad_character not_terminated : InterfaceError

-- `inner` is the `CStr`: a slice of bytes with what ends it.
pub record InterfaceName : Type 0 where
  pub inner : Bytes

-- `Deref`: the slice, as a `CStr`.
abbrev pub deref : InterfaceName → Bytes
deref self = self.inner

unfoldable pub from_bytes_unchecked : Bytes → InterfaceName
from_bytes_unchecked b = record { inner = b }

-- `for w in b.windows(2)`: `prev` is w[0], and the list starts at w[1].
pub scan : Bytes → ℕ → ℕ → Bytes → Result InterfaceError InterfaceName
unfolding from_bytes_unchecked
scan b prev periods [] = err not_terminated
scan b prev periods (c ∷ rest) =
    let next = scan b c (if c == b'.' then add_one periods else periods) rest in
    if c == b'.'
    then (if prev == b'.' then err double_period else next)
    else if is_letter c || c == b'_'
    then next
    else if is_digit c
    then (if prev == b'.' then err leading_digit else next)
    else if c == 0
    then (if prev == b'.' && not (length b == 1)
        then err trailing_period
        else if is_below_one periods
        then err one_element
        else ok (from_bytes_unchecked b))
    else err bad_character

unfoldable pub from_bytes : Bytes → Result InterfaceError InterfaceName
unfolding scan
from_bytes [] = err no_character
from_bytes (c ∷ rest) =
    if c == b'.'
    then err leading_period
    else if is_letter c || c == b'_'
    then scan (c ∷ rest) c 0 rest
    else err bad_start

-- `from_ptr_unchecked`, of the bytes that stand at the pointer.
unfoldable pub from_ptr_unchecked : Bytes → InterfaceName
unfolding from_bytes_unchecked
from_ptr_unchecked at = from_bytes_unchecked (CStr.to_bytes_with_nul (CStr.from_ptr at))
