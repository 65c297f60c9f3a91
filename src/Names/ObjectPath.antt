-- ===== src/Names/ObjectPath.antt =====
-- `ObjectPath` of src/bus/mod.rs: the check of a path, and the unchecked constructors.
pub mod Grammar
pub mod Errors
use rust_systemd.Base.{
  ℕ, zero, suc, ◌+◌, ◌≤◌, ◌≡◌, ◌≢◌, ◌⊎◌, inl, inr, ◌↔◌, Bool, true, false, not, ◌&&◌, ◌||◌, Option,
  none, some, List, [], ◌∷◌, ◌++◌, arith, Bytes, ◌==◌, if◌then◌else◌, All, length, Result, ok, err,
  refl, c_codes, codes,
}
use rust_systemd.Names.CStr
use rust_systemd.Names.Chars.{is_letter, is_digit}

-- The messages of `Err`, one constructor for each.
pub data PathError : Type 0 where
  no_character bad_start double_slash trailing_slash bad_character not_terminated : PathError

-- `inner` is the `CStr`: a slice of bytes with what ends it.
pub record ObjectPath : Type 0 where
  pub inner : Bytes

-- `Deref`: the slice, as a `CStr`.
abbrev pub deref : ObjectPath → Bytes
deref self = self.inner

unfoldable pub from_bytes_unchecked : Bytes → ObjectPath
from_bytes_unchecked b = record { inner = b }

-- `for w in b.windows(2)`: `prev` is w[0], and the list starts at w[1].
scan : Bytes → ℕ → Bytes → Result PathError ObjectPath
unfolding from_bytes_unchecked
scan b prev [] = err not_terminated
scan b prev (c ∷ rest) =
    let next = scan b c rest in
    if c == b'/'
    then (if prev == b'/' then err double_slash else next)
    else if is_letter c || is_digit c || c == b'_'
    then next
    else if c == 0
    then (if prev == b'/' && not (length b == 2)
        then err trailing_slash
        else ok (from_bytes_unchecked b))
    else err bad_character

unfoldable pub from_bytes : Bytes → Result PathError ObjectPath
unfolding scan
from_bytes [] = err no_character
from_bytes (c ∷ rest) = if c == b'/' then scan (c ∷ rest) c rest else err bad_start

-- `from_ptr_unchecked`, of the bytes that stand at the pointer.
unfoldable pub from_ptr_unchecked : Bytes → ObjectPath
unfolding from_bytes_unchecked
from_ptr_unchecked at = from_bytes_unchecked (CStr.to_bytes (CStr.from_ptr at))
