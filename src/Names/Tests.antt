-- ===== src/Names/Tests.antt =====
-- The tests of the names in src/bus/mod.rs, and instances of the theorems on them.
use rust_systemd.Base.{◌++◌, [], ◌≡◌, ◌↔◌, ok, err, refl, Bytes, c_codes, codes, Lacks, arith}
use rust_systemd.Names.CStr
use rust_systemd.Names.CStr.{up_to_nul}
use rust_systemd.Names.ObjectPath
use rust_systemd.Names.ObjectPath.{ObjectPath, double_slash, trailing_slash}
use rust_systemd.Names.ObjectPath.Grammar.{object_path_iff, HoldsPath}
use rust_systemd.Names.ObjectPath.Errors.{path_error_iff}
use rust_systemd.Names.InterfaceName
use rust_systemd.Names.InterfaceName.{InterfaceName, one_element}
use rust_systemd.Names.InterfaceName.Errors.{interface_error_iff}
use rust_systemd.Names.InterfaceName.Grammar.{interface_name_iff, HoldsInterface}
use rust_systemd.Names.BusName
use rust_systemd.Names.BusName.{BusName, leading_digit}
use rust_systemd.Names.BusName.Errors.{bus_name_error_iff}
use rust_systemd.Names.BusName.Grammar.{bus_name_iff, HoldsBusName}
use rust_systemd.Names.MemberName
use rust_systemd.Names.MemberName.{MemberName}
use rust_systemd.Names.MemberName.Grammar.{member_name_iff, HoldsMember}
use rust_systemd.Names.Pointer.{to_bytes-from_ptr_unchecked, found, whole}

abbrev a_path : Bytes
a_path = c_codes "/a/b"

abbrev an_interface : Bytes
an_interface = c_codes "a.b"

abbrev a_bus_name : Bytes
a_bus_name = c_codes ":1.5"

abbrev a_member : Bytes
a_member = c_codes "Get"

accepts_path : ObjectPath.from_bytes a_path ≡ ok (ObjectPath.from_bytes_unchecked a_path)
unfolding ObjectPath.from_bytes
accepts_path = refl

accepts_root :
    ObjectPath.from_bytes (c_codes "/") ≡ ok (ObjectPath.from_bytes_unchecked (c_codes "/"))
unfolding ObjectPath.from_bytes
accepts_root = refl

refuses_double_slash : ObjectPath.from_bytes (c_codes "/a//b") ≡ err double_slash
unfolding ObjectPath.from_bytes
refuses_double_slash = refl

refuses_trailing_slash : ObjectPath.from_bytes (c_codes "/a/") ≡ err trailing_slash
unfolding ObjectPath.from_bytes
refuses_trailing_slash = refl

accepts_interface :
    InterfaceName.from_bytes an_interface ≡ ok (InterfaceName.from_bytes_unchecked an_interface)
unfolding InterfaceName.from_bytes
accepts_interface = refl

accepts_bus_name : BusName.from_bytes a_bus_name ≡ ok (BusName.from_bytes_unchecked a_bus_name)
unfolding BusName.from_bytes
accepts_bus_name = refl

accepts_member : MemberName.from_bytes a_member ≡ ok (MemberName.from_bytes_unchecked a_member)
unfolding MemberName.from_bytes
accepts_member = refl

-- Bytes behind the first '\0' are accepted.
accepts_junk :
    ObjectPath.from_bytes (c_codes "/a" ++ codes "//")
    ≡ ok (ObjectPath.from_bytes_unchecked (c_codes "/a" ++ codes "//"))
unfolding ObjectPath.from_bytes
accepts_junk = refl

object_path_iff_example :
    (ObjectPath.from_bytes a_path ≡ ok (ObjectPath.from_bytes_unchecked a_path)) ↔ (
      (ObjectPath.from_bytes_unchecked a_path ≡ ObjectPath.from_bytes_unchecked a_path)
      × HoldsPath a_path)
object_path_iff_example = object_path_iff a_path (ObjectPath.from_bytes_unchecked a_path)

interface_name_iff_example :
    (InterfaceName.from_bytes an_interface ≡ ok (InterfaceName.from_bytes_unchecked an_interface))
    ↔ ((InterfaceName.from_bytes_unchecked an_interface
          ≡ InterfaceName.from_bytes_unchecked an_interface)
        × HoldsInterface an_interface)
interface_name_iff_example =
    interface_name_iff an_interface (InterfaceName.from_bytes_unchecked an_interface) (omega arith)

bus_name_iff_example :
    (BusName.from_bytes a_bus_name ≡ ok (BusName.from_bytes_unchecked a_bus_name)) ↔ (
      (BusName.from_bytes_unchecked a_bus_name ≡ BusName.from_bytes_unchecked a_bus_name)
      × HoldsBusName a_bus_name)
bus_name_iff_example = bus_name_iff a_bus_name (BusName.from_bytes_unchecked a_bus_name)

member_name_iff_example :
    (MemberName.from_bytes a_member ≡ ok (MemberName.from_bytes_unchecked a_member)) ↔ (
      (MemberName.from_bytes_unchecked a_member ≡ MemberName.from_bytes_unchecked a_member)
      × HoldsMember a_member)
member_name_iff_example = member_name_iff a_member (MemberName.from_bytes_unchecked a_member)

plain_text : Lacks 0 (whole (codes "/") b'a' [])
plain_text = (omega arith, (omega arith, tt))

to_bytes-from_ptr_unchecked_example :
    (CStr.to_bytes (InterfaceName.from_ptr_unchecked (found (codes "/") b'a' [])).inner
      ≡ whole (codes "/") b'a' [])
    × (CStr.to_bytes (ObjectPath.from_ptr_unchecked (found (codes "/") b'a' [])).inner ≡ codes "/")
    × (CStr.to_bytes (BusName.from_ptr_unchecked (found (codes "/") b'a' [])).inner ≡ codes "/")
    × (CStr.to_bytes (MemberName.from_ptr_unchecked (found (codes "/") b'a' [])).inner ≡ codes "/")
to_bytes-from_ptr_unchecked_example = to_bytes-from_ptr_unchecked (codes "/") b'a' [] plain_text

abbrev two_slashes : Bytes
two_slashes = c_codes "/a//b"

abbrev digit_first : Bytes
digit_first = c_codes "a.b-c.0a"

abbrev no_period : Bytes
no_period = c_codes "a"

path_error_iff_example :
    (ObjectPath.from_bytes two_slashes ≡ err double_slash)
    ↔ ObjectPath.Errors.IsRefused two_slashes double_slash
path_error_iff_example = path_error_iff two_slashes double_slash

bus_name_error_iff_example :
    (BusName.from_bytes digit_first ≡ err leading_digit)
    ↔ BusName.Errors.IsRefused digit_first leading_digit
bus_name_error_iff_example = bus_name_error_iff digit_first leading_digit

interface_error_iff_example :
    (InterfaceName.from_bytes no_period ≡ err one_element)
    ↔ InterfaceName.Errors.IsRefused no_period one_element
interface_error_iff_example = interface_error_iff no_period one_element

refuses_two_slashes : ObjectPath.from_bytes two_slashes ≡ err double_slash
unfolding ObjectPath.from_bytes
refuses_two_slashes = refl

refuses_digit : BusName.from_bytes digit_first ≡ err leading_digit
unfolding BusName.from_bytes
refuses_digit = refl

refuses_one_element : InterfaceName.from_bytes no_period ≡ err one_element
unfolding InterfaceName.from_bytes
refuses_one_element = refl
