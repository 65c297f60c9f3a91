-- ===== src/Bus/RawError.antt =====
-- `RawError` of src/bus/mod.rs, over the heap of C strings.
pub mod Readings
use rust_systemd.Base.{
  List, [], ◌∷◌, codes, ℕ, Bool, not, Option, none, some, Bytes, ◌==◌, if◌then◌else◌, length,
}
use rust_systemd.Base.Int.{ℤ, pos}
use rust_systemd.Ffi.Heap.{Memory, CArg, at, view}
use rust_systemd.Names.CStr.{up_to_nul}
use rust_systemd.Names.InterfaceName
use rust_systemd.Names.InterfaceName.{InterfaceName}
use rust_systemd.Bus.Library.{SdBusError, SdError, Utf8CStr}

pub record RawError : Type 0 where
  pub inner : SdBusError

-- `Default`
unfoldable pub default : RawError
default = record { inner = record { name = 0; message = 0; need_free = pos 0 } }

unfoldable pub new : RawError
unfolding default
new = default

-- What stands at `as_ptr` and `as_mut_ptr`.
abbrev pub as_ptr : RawError → SdBusError
as_ptr self = self.inner

unfoldable pub is_set : RawError → Bool
is_set self = not (self.inner.name == 0)

-- `message.map_or(ptr::null(), |x| x.as_ptr())`
abbrev pub ptr_or_null : Option Utf8CStr → ℕ
ptr_or_null none = 0
ptr_or_null (some x) = x.ptr

unfoldable pub set : SdError → RawError → Utf8CStr → Option Utf8CStr → Memory → RawError × Memory
set lib self name message m =
    let (inner, m') = lib.sd_bus_error_set self.inner name.ptr (ptr_or_null message) m in
    (record { inner = inner }, m')

-- `RawError::with`
unfoldable pub with_name : SdError → Utf8CStr → Option Utf8CStr → Memory → RawError × Memory
unfolding default set
with_name lib name message m = set lib default name message m

-- What an accessor gives: nothing, or a value, if a string stands at the pointer that it reads.
pub data Reading (A : Type 0) : Type 0 where
  unset undefined : Reading A
  gives : A → Reading A

read_at : {A : Type 0} → (Bytes → A) → CArg → Reading A
read_at f (at b) = gives (f b)
read_at f _ = undefined

-- `name`: `InterfaceName::from_ptr_unchecked(self.inner.name)`
unfoldable pub name : RawError → Memory → Reading InterfaceName
unfolding is_set read_at
name self m =
    if is_set self then read_at InterfaceName.from_ptr_unchecked (view m self.inner.name) else unset

-- `message`: `Utf8CStr::from_ptr_unchecked(self.inner.name)`
unfoldable pub message : RawError → Memory → Reading Utf8CStr
unfolding is_set read_at
message self m =
    if is_set self
    then read_at (λ b. record { ptr = self.inner.name; len = length (up_to_nul b) })
        (view m self.inner.name)
    else unset

unfoldable pub errno : SdError → RawError → Memory → Option ℤ
unfolding is_set
errno lib self m = if is_set self then some (lib.sd_bus_error_get_errno (as_ptr self) m) else none

-- `Drop`
unfoldable pub drop : SdError → RawError → Memory → Memory
drop lib self m = (lib.sd_bus_error_free self.inner m).1

-- `Clone`: `uninitialized` is what happens to stand in the value that C is to write over, which the
-- source leaves uninitialised.
unfoldable pub clone : SdError → SdBusError → RawError → Memory → RawError × Memory
clone lib uninitialized self m =
    let (inner, m') = lib.sd_bus_error_copy uninitialized self.inner m in
    (record { inner = inner }, m')

-- What a field of a debug print shows: the value that is handed to `field`.
pub data Shown : Type 0 where
  a_name : Reading InterfaceName → Shown
  a_text : Reading Utf8CStr → Shown
  a_number : ℤ → Shown

-- What `debug_struct` and `field` are given before `finish`.
pub record DebugStruct : Type 0 where
  pub title : Bytes
  pub fields : List (Bytes × Shown)

-- `Debug`
unfoldable pub debug : RawError → Memory → DebugStruct
unfolding name message
debug self m = record {
  title = codes "RawError";
  fields =
      (codes "name", a_name (name self m))
      ∷ (codes "message", a_text (message self m))
      ∷ (codes "need_free", a_number self.inner.need_free)
      ∷ [];
}

-- `Display`
unfoldable pub display : RawError → Memory → DebugStruct
unfolding name message
display self m = record {
  title = codes "RawError";
  fields =
      (codes "name", a_name (name self m))
      ∷ (codes "message", a_text (message self m))
      ∷ (codes "need_free", a_number self.inner.need_free)
      ∷ [];
}
