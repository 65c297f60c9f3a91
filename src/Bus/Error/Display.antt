-- ===== src/Bus/Error/Display.antt =====
-- The print of an `Error` of src/bus/mod.rs.
use rust_systemd.Base.{[], ◌∷◌, ◌≡◌, ◌++◌, Option, none, some, Bytes, codes, arith}
use rust_systemd.Ffi.Heap.{Memory}
use rust_systemd.Bus.Library.{SdError, Utf8CStr, text_of, IsUtf8CStr}
use rust_systemd.Bus.Error.{Error, new, name, message}
use rust_systemd.Bus.RawError.{DebugStruct, a_text, a_number, gives, unset}
use rust_systemd.Bus.Error.Laws.{CopiesStrings, new_with_message, new_without_message}

-- `write!(fmt, "Dbus Error: {}: {}", ..)` and `write!(fmt, "Dbus Error: {}", ..)`; `none` where a text
-- that is printed does not stand in memory.
abbrev print_name : Option Bytes → Option Bytes
print_name (some n) = some (codes "Dbus Error: " ++ n)
print_name none = none

abbrev print_both : Option Bytes → Option Bytes → Option Bytes
print_both (some n) (some t) = some (codes "Dbus Error: " ++ (n ++ (codes ": " ++ t)))
print_both _ _ = none

unfoldable pub display : Error → Memory → Option Bytes
display self m = elim (message self) [
  | some t ↦ print_both (text_of m (name self)) (text_of m t)
  | none ↦ print_name (text_of m (name self))
]

-- `Debug`: the name is always there, the message may be missing.
unfoldable pub debug : Error → DebugStruct
unfolding name message
debug self = record {
  title = codes "Error";
  fields =
      (codes "name", a_text (gives (name self)))
      ∷ (codes "message", a_text (elim (message self) [ none ↦ unset | some t ↦ gives t ]))
      ∷ (codes "need_free", a_number self.raw.inner.need_free)
      ∷ [];
}

pub display-some :
    (e : Error) (m : Memory) (z : Utf8CStr) (n t : Bytes)
    → message e ≡ some z
    → text_of m (name e) ≡ some n
    → text_of m z ≡ some t
    → display e m ≡ some (codes "Dbus Error: " ++ (n ++ (codes ": " ++ t)))
unfolding display
display-some e m z n t told named text = ground arith

pub display-none :
    (e : Error) (m : Memory) (n : Bytes)
    → message e ≡ none
    → text_of m (name e) ≡ some n
    → display e m ≡ some (codes "Dbus Error: " ++ n)
unfolding display
display-none e m n untold named = ground arith

module _ (lib : SdError) (copies : CopiesStrings lib) (m : Memory) (x y : Utf8CStr) (n t : Bytes)
    (named : IsUtf8CStr m x n) (told : IsUtf8CStr m y t) where
  -- A new error prints as its name, and behind that its message if it was given one; this holds where
  -- `sd_bus_error_set` copies its strings.
  pub display-new :
      (display (new lib x (some y) m).0 (new lib x (some y) m).1
        ≡ some (codes "Dbus Error: " ++ (n ++ (codes ": " ++ t))))
      × (display (new lib x none m).0 (new lib x none m).1 ≡ some (codes "Dbus Error: " ++ n))
  display-new =
      let (name_text, (z, has_message, text), _, _) =
        new_with_message lib copies m x n named y t told in
      let (name_text', no_message, _, _) = new_without_message lib copies m x n named in
      (display-some _ _ z n t has_message name_text text, display-none _ _ n no_message name_text')
