-- ===== src/Bus/Types/Body/Wire.antt =====
-- The wire types of src/bus/types.rs, and what C is handed for a value of each type.
use rust_systemd.Base.{
  ◌<◌, ◌^◌, ◌*◌, [], Bool, true, false, ◌≡◌, refl, ap, subst, arith, if◌then◌else◌,
}
use std.HLevel.{prop→path_p}
use native.Mathlib.Bridge.{le_prop}
use rust_systemd.Base.Int.{is_nonzero}
use rust_systemd.Names.CStr.{up_to_nul, up_to_nul-append}
use rust_systemd.Bus.SdBus.{bits, text}
use rust_systemd.Bus.Types.{
  Direct, Number, u8, i16, u16, i32, u32, i64, u64, f64, size_of, mod_of_fitting, msg_basic,
  dbus_type, number_of, c_int_of,
}
use rust_systemd.Bus.Types.Stores.{character, Holds, IsUtf8}
use rust_systemd.Bus.Types.Body.{
  Kind, number_kind, Value, number_value, bool_value, path_value, text_value, kind_of, IsSendable,
  IsValidValue, wire_type_of, basic_of,
}

pub wire_type_of_unique : (k l : Kind) → wire_type_of k ≡ wire_type_of l → k ≡ l
unfolding wire_type_of
wire_type_of_unique k l e = ground arith

-- The wire types of `msg_basic!` are those that the types are meant for.
pub dbus_type_lem : (t : Direct) → dbus_type t ≡ character (wire_type_of (number_kind t))
unfolding dbus_type character wire_type_of
dbus_type_lem u8 = refl
dbus_type_lem i16 = refl
dbus_type_lem u16 = refl
dbus_type_lem i32 = refl
dbus_type_lem u32 = refl
dbus_type_lem i64 = refl
dbus_type_lem u64 = refl
dbus_type_lem f64 = refl

-- A value has the width of its wire type.
number-Holds :
    (t : Direct) (x : Number t) → Holds (wire_type_of (number_kind t)) (bits (size_of t) x.value)
unfolding wire_type_of size_of
number-Holds u8 x = (x.value, x.fits, refl)
number-Holds i16 x = (x.value, x.fits, refl)
number-Holds u16 x = (x.value, x.fits, refl)
number-Holds i32 x = (x.value, x.fits, refl)
number-Holds u32 x = (x.value, x.fits, refl)
number-Holds i64 x = (x.value, x.fits, refl)
number-Holds u64 x = (x.value, x.fits, refl)
number-Holds f64 x = (x.value, x.fits, refl)

pub basic_of-Holds :
    (v : Value) → IsSendable v → IsValidValue v → Holds (wire_type_of (kind_of v)) (basic_of v)
unfolding basic_of wire_type_of
basic_of-Holds (number_value t x) h valid = number-Holds t x
basic_of-Holds (bool_value b) h valid = (b, refl)
basic_of-Holds (path_value p) h (es, elements, spelled) = (es, elements, ap (λ s. text s) spelled)
basic_of-Holds (text_value x) (s, whole, lacks) valid =
    let read : up_to_nul x.inner ≡ s = rw whole (up_to_nul-append s [] lacks) in
    (s, lacks, subst IsUtf8 read valid, ap (λ r. text r) read)

number_eq : (t : Direct) (x y : Number t) → x.value ≡ y.value → x ≡ y
number_eq t x y e = λ i. record {
  value = e i;
  fits = prop→path_p (λ j. e j < 2 ^ (8 * size_of t)) le_prop x.fits y.fits i;
}

-- The bytes of a number that fit its type are read back as they are.
pub number_again :
    (t : Direct) (x : Number t)
    → (msg_basic t (dbus_type t)).from_memory (number_of (bits (size_of t) x.value)) ≡ x
number_again t x = number_eq t _ x (mod_of_fitting t x.value x.fits)

pub bool_again : (b : Bool) → is_nonzero (c_int_of (bits 4 (if b then 1 else 0))) ≡ b
bool_again true = refl
bool_again false = refl
