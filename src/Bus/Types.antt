-- ===== src/Bus/Types.antt =====
-- src/bus/types.rs: the values that a message can take and give, and `append` and `next` of
-- src/bus/mod.rs, which choose by type.
pub mod Stores
pub mod RoundTrip
pub mod Body
use rust_systemd.Base.{
  ℕ, zero, suc, ◌-◌, ◌*◌, ◌%◌, ◌^◌, ◌<◌, ◌≡◌, arith, ◌++◌, List, [], ◌∷◌, Bool, true, false, Option,
  Bytes, ltb, if◌then◌else◌, ◌==◌,
}
use rust_systemd.Base.Int.{ℤ, pos, negsuc, wrap_c_int, bool_c_int, is_nonzero}
use rust_systemd.Ffi.{Eff, ◌>>=◌, ◌>>◌, pure}
use rust_systemd.Names.CStr
use rust_systemd.Names.CStr.{up_to_nul}
use rust_systemd.Names.ObjectPath
use rust_systemd.Names.ObjectPath.{ObjectPath}
use rust_systemd.Bus.Handles.{MessageIter}
use rust_systemd.Bus.SdBus.{SdBus, Basic, bits, text}
use rust_systemd.Bus.Message.{append_basic_raw, read_basic_raw}

-- The types of `msg_basic!`, and the bytes that a value takes in memory.
pub data Direct : Type 0 where
  u8 i16 u16 i32 u32 i64 u64 f64 : Direct

unfoldable pub size_of : Direct → ℕ
size_of u8 = 1
size_of i16 = 2
size_of u16 = 2
size_of i32 = 4
size_of u32 = 4
size_of i64 = 8
size_of u64 = 8
size_of f64 = 8

-- A value is the number that its bytes in memory are.
pub record Number (t : Direct) : Type 0 where
  pub value : ℕ
  pub fits : value < 2 ^ (8 * size_of t)

pub mod_fits : (t : Direct) (n : ℕ) → n % 2 ^ (8 * size_of t) < 2 ^ (8 * size_of t)
unfolding size_of
mod_fits u8 n = omega arith
mod_fits i16 n = omega arith
mod_fits u16 n = omega arith
mod_fits i32 n = omega arith
mod_fits u32 n = omega arith
mod_fits i64 n = omega arith
mod_fits u64 n = omega arith
mod_fits f64 n = omega arith

pub mod_of_fitting : (t : Direct) (n : ℕ) → n < 2 ^ (8 * size_of t) → n % 2 ^ (8 * size_of t) ≡ n
unfolding size_of
mod_of_fitting u8 n h = omega arith
mod_of_fitting i16 n h = omega arith
mod_of_fitting u16 n h = omega arith
mod_of_fitting i32 n h = omega arith
mod_of_fitting u32 n h = omega arith
mod_of_fitting i64 n h = omega arith
mod_of_fitting u64 n h = omega arith
mod_of_fitting f64 n h = omega arith

-- `SdBusMessageDirect::dbus_type`
unfoldable pub dbus_type : Direct → ℕ
dbus_type u8 = b'y'
dbus_type i16 = b'n'
dbus_type u16 = b'q'
dbus_type i32 = b'i'
dbus_type u32 = b'u'
dbus_type i64 = b'x'
dbus_type u64 = b't'
dbus_type f64 = b'd'

-- `SdBusMessageDirect`: the wire type, and what the implementation promises of it, that a value's memory
-- of `size` bytes, can be encoded and decoded as it is.
pub record SdBusMessageDirect (V : Type 0) : Type 0 where
  pub wire_type : ℕ
  pub size : ℕ
  pub in_memory : V → ℕ
  pub from_memory : ℕ → V

-- An arm of `msg_basic!`: the type and its wire type.
abbrev pub msg_basic : (t : Direct) → ℕ → SdBusMessageDirect (Number t)
msg_basic t code = record {
  wire_type = code;
  size = size_of t;
  in_memory = λ v. v.value;
  from_memory = λ n. record { value = n % 2 ^ (8 * size_of t); fits = mod_fits t n };
}

pub record UnixFd : Type 0 where
  pub fd : ℤ

-- The text of a `&Utf8CStr`, with its '\0'.
pub record Utf8Text : Type 0 where
  pub inner : Bytes

-- A `c_int` in memory, as 32 bits.
abbrev pub c_int_bits : ℤ → ℕ
c_int_bits (pos n) = n
c_int_bits (negsuc n) = 4294967295 - n

-- `read_basic` writes a number for the types of numbers and a pointer for those of strings.
abbrev pub number_of : Basic → ℕ
number_of (bits _ n) = n
number_of (text _) = 0

-- The four bytes of a `c_int` of what was written.
abbrev pub c_int_of : Basic → ℤ
c_int_of x = wrap_c_int (number_of x % 2 ^ 32)

abbrev pub pointee : Basic → Bytes
pointee (text s) = s ++ 0 ∷ []
pointee (bits _ _) = []

-- The two traits, over the C library: a message is its address.
pub record ToSdBusMessage {W : Type 0} (lib : SdBus W) (V : Type 0) : Type 0 where
  pub to_message : V → ℕ → Eff W (Unit {0})

pub record FromSdBusMessage {W : Type 0} (lib : SdBus W) (V : Type 0) : Type 0 where
  pub from_message : MessageIter → Eff W (Option V)

module _ {W : Type 0} (lib : SdBus W) where
  -- What every `T: SdBusMessageDirect` has of the two traits.
  abbrev pub direct_to : {V : Type 0} → SdBusMessageDirect V → ToSdBusMessage lib V
  direct_to direct = record {
    to_message =
        λ v m. append_basic_raw lib m direct.wire_type (bits direct.size (direct.in_memory v));
  }

  abbrev pub direct_from : {V : Type 0} → SdBusMessageDirect V → FromSdBusMessage lib V
  direct_from direct = record {
    from_message =
        λ m. read_basic_raw lib m direct.wire_type (λ x. direct.from_memory (number_of x));
  }

  abbrev pub number_to : (t : Direct) → ToSdBusMessage lib (Number t)
  number_to t = direct_to (msg_basic t (dbus_type t))

  abbrev pub number_from : (t : Direct) → FromSdBusMessage lib (Number t)
  number_from t = direct_from (msg_basic t (dbus_type t))

  abbrev pub bool_to : ToSdBusMessage lib Bool
  bool_to = record { to_message = λ v m. append_basic_raw lib m b'b' (bits 4 (if v then 1 else 0)) }

  abbrev pub bool_from : FromSdBusMessage lib Bool
  bool_from = record {
    from_message = λ m. read_basic_raw lib m b'b' (λ x. is_nonzero (c_int_of x));
  }

  abbrev pub unix_fd_to : ToSdBusMessage lib UnixFd
  unix_fd_to = record { to_message = λ v m. append_basic_raw lib m b'h' (bits 4 (c_int_bits v.fd)) }

  abbrev pub unix_fd_from : FromSdBusMessage lib UnixFd
  unix_fd_from = record {
    from_message = λ m. read_basic_raw lib m b'h' (λ x. record { fd = c_int_of x });
  }

  abbrev pub object_path_to : ToSdBusMessage lib ObjectPath
  object_path_to = record {
    to_message = λ v m. append_basic_raw lib m b'o' (text (up_to_nul v.inner));
  }

  abbrev pub object_path_from : FromSdBusMessage lib ObjectPath
  object_path_from = record {
    from_message = λ m. read_basic_raw lib m b'o' (λ x. ObjectPath.from_ptr_unchecked (pointee x));
  }

  abbrev pub utf8_to : ToSdBusMessage lib Utf8Text
  utf8_to = record { to_message = λ v m. append_basic_raw lib m b's' (text (up_to_nul v.inner)) }

  abbrev pub utf8_from : FromSdBusMessage lib Utf8Text
  utf8_from = record {
    from_message =
        λ m. read_basic_raw lib m b's' (λ x. record { inner = CStr.from_ptr (pointee x) });
  }

  -- `MessageRef::append`
  abbrev pub append : {V : Type 0} → ToSdBusMessage lib V → ℕ → V → Eff W (Unit {0})
  append to self v = to.to_message v self

  -- `MessageIter::next`
  abbrev pub next : {V : Type 0} → FromSdBusMessage lib V → MessageIter → Eff W (Option V)
  next from self = from.from_message self
