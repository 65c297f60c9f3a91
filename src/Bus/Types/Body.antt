-- ===== src/Bus/Types/Body.antt =====
-- The body of a message as a queue of values of the types of src/bus/types.rs: `append` and `next` of
-- src/bus/mod.rs in any order of types.
pub mod Wire
pub mod Fifo
pub mod Delivery
pub mod Peeking
pub mod Reader
pub mod Sent
pub mod Sharing
use rust_systemd.Base.{
  ℕ, ◌++◌, List, [], ◌∷◌, Bool, true, false, Option, none, some, Bytes, ◌≡◌, ◌≢◌, refl, ap, sym,
  ◌∙◌, arith, Lacks, All, map, append_assoc, append-nil, if◌then◌else◌,
}
use mathlib.Core.Option
use rust_systemd.Base.Int.{wrap_c_int, is_nonzero}
use rust_systemd.Ffi.{
  Eff, Machine, Outcome, IoError, returns, fails, raw_os_error, pure, ◌>>=◌, ◌>>◌,
}
use rust_systemd.Base.Int.{pos}
use rust_systemd.Names.CStr
use rust_systemd.Names.CStr.{up_to_nul}
use rust_systemd.Names.ObjectPath
use rust_systemd.Names.ObjectPath.{ObjectPath}
use rust_systemd.Bus.Handles.{iter_at}
use rust_systemd.Bus.SdBus.{SdBus, Basic, bits, text}
use rust_systemd.Bus.Message.{append_basic_raw, read_basic_raw}
use rust_systemd.Names.ObjectPath.Grammar.{IsPathElement, path_of}
use rust_systemd.Bus.Types.{
  u8, i16, u16, i32, u32, i64, u64, f64, size_of, Direct, Number, dbus_type, Utf8Text, append, next,
  number_to, number_from, bool_to, bool_from, object_path_to, object_path_from, utf8_to, utf8_from,
  number_of, pointee,
}
use rust_systemd.Bus.Types.Stores.{
  Stores, WireType, byte, int16, uint16, int32, uint32, int64, uint64, double, boolean, path,
  string, character, IsUtf8,
}
use rust_systemd.Bus.Types.RoundTrip.{read_again, path_again}

pub data Kind : Type 0 where
  number_kind : Direct → Kind
  bool_kind path_kind text_kind : Kind

pub data Value : Type 0 where
  number_value : (t : Direct) → Number t → Value
  bool_value : Bool → Value
  path_value : ObjectPath → Value
  text_value : Utf8Text → Value

abbrev pub kind_of : Value → Kind
kind_of (number_value t _) = number_kind t
kind_of (bool_value _) = bool_kind
kind_of (path_value _) = path_kind
kind_of (text_value _) = text_kind

-- What is read of a value: a path comes without the '\0' of its slice.
abbrev pub arrives : Value → Value
arrives (path_value p) = path_value (record { inner = CStr.to_bytes p.inner })
arrives v = v

-- A slice that ends with its only '\0'.
abbrev pub IsCString : Bytes → Type 0
IsCString b = (s : Bytes) × (b ≡ s ++ 0 ∷ []) × Lacks 0 s

abbrev pub IsSendable : Value → Type 0
IsSendable (path_value p) = IsCString p.inner
IsSendable (text_value x) = IsCString x.inner
IsSendable _ = Unit

-- A path of the specification, or a text in UTF-8, as a `&Utf8CStr` is.
abbrev pub IsValidValue : Value → Type 0
IsValidValue (path_value p) =
    (es : List Bytes) × All IsPathElement es × (up_to_nul p.inner ≡ path_of es)
IsValidValue (text_value x) = IsUtf8 (up_to_nul x.inner)
IsValidValue _ = Unit

-- The D-Bus type that a kind is meant for, its character, and what is handed to C.
pub wire_type_of : Kind → WireType
wire_type_of (number_kind u8) = byte
wire_type_of (number_kind i16) = int16
wire_type_of (number_kind u16) = uint16
wire_type_of (number_kind i32) = int32
wire_type_of (number_kind u32) = uint32
wire_type_of (number_kind i64) = int64
wire_type_of (number_kind u64) = uint64
wire_type_of (number_kind f64) = double
wire_type_of bool_kind = boolean
wire_type_of path_kind = path
wire_type_of text_kind = string

pub code_of : Kind → ℕ
unfolding wire_type_of character
code_of k = character (wire_type_of k)

pub basic_of : Value → Basic
basic_of (number_value t v) = bits (size_of t) v.value
basic_of (bool_value v) = bits 4 (if v then 1 else 0)
basic_of (path_value p) = text (up_to_nul p.inner)
basic_of (text_value x) = text (up_to_nul x.inner)

-- What the body holds for a value.
abbrev pub field : Value → ℕ × Basic
field v = (code_of (kind_of v), basic_of v)

module _ {W A B : Type 0} where
  map_option : (A → B) → Eff W (Option A) → Eff W (Option B)
  unfolding ◌>>=◌
  map_option f m = do r ← m; pure (Option.map f r)

module _ {W : Type 0} (lib : SdBus W) (self : ℕ) where
  -- `append`, by the type of the value.
  pub append_value : Value → Eff W (Unit {0})
  append_value (number_value t v) = append lib (number_to lib t) self v
  append_value (bool_value v) = append lib (bool_to lib) self v
  append_value (path_value v) = append lib (object_path_to lib) self v
  append_value (text_value v) = append lib (utf8_to lib) self v

  -- `next`, by the type that is asked for.
  pub next_value : Kind → Eff W (Option Value)
  unfolding map_option
  next_value (number_kind t) =
      map_option (λ v. number_value t v) (next lib (number_from lib t) (iter_at self))
  next_value bool_kind = map_option (λ v. bool_value v) (next lib (bool_from lib) (iter_at self))
  next_value path_kind =
      map_option (λ v. path_value v) (next lib (object_path_from lib) (iter_at self))
  next_value text_kind = map_option (λ v. text_value v) (next lib (utf8_from lib) (iter_at self))

  pub append_all : List Value → Eff W (Unit {0})
  unfolding append_value ◌>>=◌
  append_all [] = pure tt
  append_all (v ∷ vs) = do append_value v; append_all vs

  pub next_all : List Kind → Eff W (List (Option Value))
  unfolding next_value ◌>>=◌
  next_all [] = pure []
  next_all (k ∷ ks) = do v ← next_value k; vs ← next_all ks; pure (v ∷ vs)
