-- ===== src/Names/MemberName.antt =====
-- `MemberName` of src/bus/mod.rs: the check of a member name, and the unchecked constructors.
pub mod Grammar
pub mod Errors
use rust_systemd.Base.{
  ℕ, zero, suc, ◌+◌, ◌≤◌, ◌<◌, ◌≡◌, ◌≢◌, ◌⊎◌, inl, inr, ◌↔◌, Bool, true, false, not, ◌&&◌, ◌||◌,
  Option, none, some, List, [], ◌∷◌, ◌++◌, arith, Bytes, ◌==◌, ltb, if◌then◌else◌, All, length,
  length-append, Result, ok, err, refl, c_codes, codes, ap, sym, subst, ◌∙◌, append_assoc,
}
use rust_systemd.Names.CStr
use rust_systemd.Names.Chars.{is_letter, is_digit}

-- The messages of `Err`, one constructor for each.
pub data MemberError : Type 0 where
  no_character too_long bad_start bad_character not_terminated : MemberError

-- `inner` is the `CStr`: a slice of bytes with what ends it.
pub record MemberName : Type 0 where
  pub inner : Bytes

-- `Deref`: the slice, as a `CStr`.
abbrev pub deref : MemberName → Bytes
deref self = self.inner

unfoldable pub from_bytes_unchecked : Bytes → MemberName
from_bytes_unchecked b = record { inner = b }

-- `for c in b`, from the first byte on.
scan : Bytes → Bytes → Result MemberError MemberName
unfolding from_bytes_unchecked
scan b [] = err not_terminated
scan b (c ∷ rest) =
    if is_letter c || is_digit c || c == b'_'
    then scan b rest
    else if c == 0
    then ok (from_bytes_unchecked b)
    else err bad_character

unfoldable pub from_bytes : Bytes → Result MemberError MemberName
unfolding scan
from_bytes [] = err no_character
from_bytes (c ∷ rest) =
    if ltb (length (c ∷ rest)) 2
    then err no_character
    else if ltb 256 (length (c ∷ rest))
    then err too_long
    else if is_letter c || c == b'_'
    then scan (c ∷ rest) (c ∷ rest)
    else err bad_start

-- `from_ptr_unchecked`, of the bytes that stand at the pointer.
unfoldable pub from_ptr_unchecked : Bytes → MemberName
unfolding from_bytes_unchecked
from_ptr_unchecked at = from_bytes_unchecked (CStr.to_bytes (CStr.from_ptr at))
