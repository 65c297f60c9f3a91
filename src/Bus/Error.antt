-- ===== src/Bus/Error.antt =====
-- `Error` of src/bus/mod.rs: a `RawError` with the lengths of its texts.
pub mod Laws
pub mod Display
pub mod Ownership
use rust_systemd.Base.{
  ℕ, zero, suc, ◌+◌, ◌-◌, ◌*◌, ◌/◌, ◌%◌, ◌^◌, ◌≤◌, ◌<◌, ◌≡◌, ◌≢◌, ◌⊎◌, inl, inr, ◌↔◌, Bool, true,
  false, not, ◌&&◌, ◌||◌, Option, none, some, List, [], ◌∷◌, ◌++◌, arith, Bytes, ◌==◌, ltb,
  ltb-eq-false, if◌then◌else◌, All, Lacks, length, length-append, Result, ok, err, refl, c_codes,
  codes, ap, sym, subst, ◌∙◌, append_assoc, map,
}
use rust_systemd.Base.Int.{ℤ, pos}
use rust_systemd.Ffi.Heap.{Memory, view}
use rust_systemd.Bus.Library.{SdBusError, SdError, Utf8CStr, from_raw_parts, c_text}
use rust_systemd.Bus.RawError
use rust_systemd.Bus.RawError.{RawError}

pub record Error : Type 0 where
  pub raw : RawError
  pub name_len : ℕ
  pub message_len : ℕ

-- `to_bytes_with_nul().len()`
abbrev len_with_nul : Bytes → ℕ
len_with_nul text = length text + 1

with_lengths : RawError → Option Bytes → Option Bytes → Option Error
with_lengths raw (some n) (some m) =
    some (record { raw = raw; name_len = len_with_nul n; message_len = len_with_nul m })
with_lengths raw _ _ = none

with_name_length : RawError → Option Bytes → Option Error
with_name_length raw (some n) =
    some (record { raw = raw; name_len = len_with_nul n; message_len = 0 })
with_name_length raw none = none

-- `from_raw`; `none` where a pointer is read at which no string stands.
unfoldable pub from_raw : RawError → Memory → Option Error
unfolding with_lengths with_name_length
from_raw raw m =
    let n = c_text (view m raw.inner.name) in
    if raw.inner.message == 0
    then with_name_length raw n
    else with_lengths raw n (c_text (view m raw.inner.message))

-- `message.map_or(0, |x| x.len() + 1)`
abbrev message_length : Option Utf8CStr → ℕ
message_length none = 0
message_length (some x) = x.len + 1

unfoldable pub new : SdError → Utf8CStr → Option Utf8CStr → Memory → Error × Memory
unfolding RawError.with_name
new lib name message m =
    let (v, m') = RawError.with_name lib name message m in
    (record { raw = v; name_len = name.len + 1; message_len = message_length message }, m')

unfoldable pub name : Error → Utf8CStr
name self = from_raw_parts self.raw.inner.name self.name_len

unfoldable pub message : Error → Option Utf8CStr
message self =
    let p = self.raw.inner.message in
    if p == 0 then none else some (from_raw_parts self.raw.inner.message self.message_len)

-- `description`
unfoldable pub description : Error → Utf8CStr
unfolding name message
description self = elim (message self) [ some m ↦ m | none ↦ name self ]

-- What stands at `as_ptr`.
abbrev pub as_ptr : Error → SdBusError
as_ptr self = RawError.as_ptr self.raw

-- `move_into`: what is written to `dest`; `self` is forgotten, so nothing is freed.
unfoldable pub move_into : Error → SdBusError
move_into self = self.raw.inner

-- `RawError::into_result`, for an error with readable strings; an error that is not set is dropped.
unfoldable pub into_result : SdError → RawError → Memory → Option (Result Error (Unit {0})) × Memory
unfolding from_raw RawError.is_set RawError.drop
into_result lib self m =
    if RawError.is_set self
    then (elim (from_raw self m) [ none ↦ none | some e ↦ some (err e) ], m)
    else (some (ok tt), RawError.drop lib self m)
